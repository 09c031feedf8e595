-- ===== src/Semantic/Build.antt =====
-- The constructors of types of src/semantic/semantic.c, on the store.
use cc.Base.{ℕ, zero, suc, Bool, true, false, not, ◌&&◌, ◌==◌}
use cc.Base.{Option, none, some, List, [], ◌∷◌, get_or, set}
use cc.Base.{if◌then◌else◌}
use cc.Semantic.Kind.{TypeKind, pointer, function, kind_index, is_record_kind}
use cc.Semantic.Kind.{basic_layout}
use cc.Semantic.Store.{CType, Types, deref, store_new, type_alloc, type_table_select}
use cc.Semantic.Store.{fresh_type}

-- `type->incomplete = true`, through the pointer.
unfoldable pub mark_incomplete : List CType → ℕ → List CType
mark_incomplete store zero = store
mark_incomplete [] (suc i) = []
mark_incomplete (t ∷ ts) (suc zero) = record t { incomplete = true } ∷ ts
mark_incomplete (t ∷ ts) (suc (suc i)) = t ∷ mark_incomplete ts (suc i)

-- The end of `type_basic`, behind a miss in the table.
unfoldable pub type_basic_new : TypeKind → ℕ → ℕ → Types → ℕ × Types
type_basic_new kind size alignment st =
    let (type, st') = type_alloc st kind size alignment in
    if type == 0 then (0, st') else (
      type,
      record st' {
        store = if is_record_kind kind then mark_incomplete st'.store type else st'.store;
        table = record st'.table { basics = set st'.table.basics (kind_index kind) type };
      },
    )

unfoldable pub type_basic_shared : TypeKind → ℕ → ℕ → Types → ℕ × Types
type_basic_shared kind size alignment st =
    let found = get_or st.table.basics (kind_index kind) 0 in
    if not (found == 0) then (found, st) else type_basic_new kind size alignment st

-- Every enumerator is below the number of slots, so the test for that is left out.
unfoldable pub type_basic : TypeKind → Types → ℕ × Types
type_basic kind st = elim (basic_layout kind) [
  | none ↦ (0, st)
  | some (size, alignment) ↦
      if is_record_kind kind
      then type_alloc st kind size alignment
      else type_basic_shared kind size alignment (type_table_select st)
]

unfoldable pub pointer_at : ℕ → ℕ → ℕ → CType
pointer_at base qualifiers at = record (fresh_type pointer 8 8 at) {
  base = base;
  qualifiers = qualifiers;
}

-- The end of `type_pointer`: a new record, put into an empty slot if it is to be shared.
unfoldable pub type_pointer_new : ℕ → ℕ → Bool → ℕ → Types → ℕ × Types
type_pointer_new base qualifiers shared slot st =
    let (type, st') = store_new st (pointer_at base qualifiers) in
    if type == 0
    then (0, st')
    else if shared && get_or st'.table.pointers slot 0 == 0
    then (
      type,
      record st' { table = record st'.table { pointers = set st'.table.pointers slot type } },
    )
    else (type, st')

-- `existing != NULL && existing->base == base`
unfoldable pub points_at : Option CType → ℕ → Bool
points_at none base = false
points_at (some t) base = t.base == base

unfoldable pub type_pointer_shared : ℕ → ℕ → Types → ℕ × Types
type_pointer_shared base slot st =
    let existing = get_or st.table.pointers slot 0 in
    if points_at (deref st.store existing) base
    then (existing, st)
    else type_pointer_new base 0 true slot st

unfoldable pub type_pointer : ℕ → ℕ → Types → ℕ × Types
type_pointer base qualifiers st = elim (deref st.store base) [
  | none ↦ (0, st)
  | some t ↦
      if qualifiers == 0 && not (is_record_kind t.kind)
      then type_pointer_shared base (kind_index t.kind) (type_table_select st)
      else type_pointer_new base qualifiers false (kind_index t.kind) st
]

unfoldable pub function_at : ℕ → List ℕ → ℕ → Bool → ℕ → CType
function_at return_type parameters parameter_count variadic at =
    record (fresh_type function 0 1 at) {
      return_type = return_type;
      parameters = parameters;
      parameter_count = parameter_count;
      variadic = variadic;
    }

unfoldable pub type_function : ℕ → List ℕ → ℕ → Bool → Types → ℕ × Types
type_function return_type parameters parameter_count variadic st =
    if return_type == 0
    then (0, st)
    else store_new st (function_at return_type parameters parameter_count variadic)

unfoldable pub copy_of : ℕ → CType → ℕ → CType
copy_of source t qualifiers = record t {
  qualifiers = qualifiers;
  next = 0;
  origin = if not (t.origin == 0) then t.origin else source;
}

unfoldable pub type_copy : ℕ → ℕ → Types → ℕ × Types
type_copy source qualifiers st = elim (deref st.store source) [
  | none ↦ (0, st)
  | some t ↦ store_new st (λ at. copy_of source t qualifiers)
]
