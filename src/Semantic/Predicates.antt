-- ===== src/Semantic/Predicates.antt =====
-- The tests on types of src/semantic/semantic.c, and the functions that use them. The argument of a
-- test that only looks at one record is what the pointer points to, `none` for NULL.
use cc.Base.{ℕ, zero, suc, ◌*◌, ◌/◌, ◌%◌, Bool, true, false, not, ◌&&◌, ◌||◌}
use cc.Base.{Option, none, some, List, [], ◌∷◌, ◌==◌, ltb, if◌then◌else◌, size_max, ◌>>=◌}
use cc.Semantic.Kind.{TypeKind, void_type, float, double, pointer, array, function, struct, union}
use cc.Semantic.Kind.{enum, int, void_expr, is_integer_kind, signed_switch, rank_of_kind, same_kind}
use cc.Semantic.Kind.{is_record_kind}
use cc.Semantic.Store.{CType, Types, deref, store_new, fresh_type}

unfoldable pub type_is_integer : Option CType → Bool
type_is_integer none = false
type_is_integer (some t) = is_integer_kind t.kind

unfoldable pub is_floating_kind : TypeKind → Bool
is_floating_kind float = true
is_floating_kind double = true
is_floating_kind _ = false

unfoldable pub type_is_arithmetic : Option CType → Bool
unfolding type_is_integer
type_is_arithmetic none = false
type_is_arithmetic (some t) = is_integer_kind t.kind || is_floating_kind t.kind

unfoldable pub type_is_pointer : Option CType → Bool
type_is_pointer none = false
type_is_pointer (some t) = same_kind t.kind pointer

unfoldable pub type_is_scalar : Option CType → Bool
type_is_scalar t = type_is_arithmetic t || type_is_pointer t

unfoldable pub type_is_void : Option CType → Bool
type_is_void none = false
type_is_void (some t) = same_kind t.kind void_type || same_kind t.kind void_expr

unfoldable pub type_is_signed : Option CType → Bool
type_is_signed none = false
type_is_signed (some t) = if not (is_integer_kind t.kind) then false else signed_switch t.kind

unfoldable pub type_size : Option CType → ℕ
type_size none = 0
type_size (some t) = t.size

unfoldable pub type_alignment : Option CType → ℕ
type_alignment none = 1
type_alignment (some t) = t.alignment

-- `integer_rank` reads through its argument, so NULL is a fault.
unfoldable pub integer_rank : Option CType → Option ℕ
integer_rank none = none
integer_rank (some t) = some (rank_of_kind t.kind)

-- `type_is_complete` calls itself on the base of an array; `none` is a call that did not return
-- within the fuel.
unfoldable pub type_is_complete : ℕ → List CType → ℕ → Option Bool
type_is_complete zero store p = none
type_is_complete (suc fuel) store p = elim (deref store p) [
  | none ↦ some false
  | some t ↦
      let rest = type_is_complete fuel store t.base in
      if same_kind t.kind void_type
      then some false
      else if is_record_kind t.kind
      then some (not t.incomplete)
      else if same_kind t.kind array
      then (if t.incomplete then some false else rest)
      else some true
]

-- The bit of `const`.
abbrev pub is_const : ℕ → Bool
is_const qualifiers = qualifiers % 2 == 1

unfoldable pub type_has_const : ℕ → List CType → ℕ → Option Bool
type_has_const zero store p = none
type_has_const (suc fuel) store p = elim (deref store p) [
  | none ↦ some false
  | some t ↦
      let rest = type_has_const fuel store t.base in
      if is_const t.qualifiers
      then some true
      else if same_kind t.kind array
      then rest
      else some false
]

-- `type_origin`, on a pointer.
unfoldable pub type_origin : List CType → ℕ → ℕ
type_origin store p = elim (deref store p) [
  | none ↦ p
  | some t ↦ if not (t.origin == 0) then t.origin else p
]

unfoldable pub array_at : ℕ → ℕ → ℕ → ℕ → Bool → ℕ → CType
array_at base size alignment count known at = record (fresh_type array size alignment at) {
  base = base;
  array_count = count;
  incomplete = not known;
}

-- The two tests of `type_array` on the size: is the array refused?
unfoldable pub array_too_big : ℕ → ℕ → Bool → Bool
array_too_big base_size count known =
    if base_size == 0 then known && not (count == 0) else known && ltb (size_max / base_size) count

unfoldable pub type_array : ℕ → ℕ → ℕ → Bool → Types → Option (ℕ × Types)
type_array fuel base count known st = elim (deref st.store base) [
  | none ↦ some (0, st)
  | some t ↦ type_is_complete fuel st.store base >>= λ complete. some (
      if not complete || array_too_big t.size count known
      then (0, st)
      else store_new st
          (array_at base (if known then count * t.size else 0) t.alignment count known))
]

-- The kind by which an enumeration is compared.
abbrev pub compared_kind : TypeKind → TypeKind
compared_kind k = if same_kind k enum then int else k

-- `strcmp(left->tag, right->tag) == 0`, where both are there.
unfoldable pub same_bytes : List ℕ → List ℕ → Bool
same_bytes [] [] = true
same_bytes [] (y ∷ ys) = false
same_bytes (x ∷ xs) [] = false
same_bytes (x ∷ xs) (y ∷ ys) = x == y && same_bytes xs ys

unfoldable pub same_tag : Option (List ℕ) → Option (List ℕ) → Bool
same_tag none r = false
same_tag (some x) none = false
same_tag (some x) (some y) = same_bytes x y

-- The loop over two parameter lists, by the test for one pair.
unfoldable pub all_compatible : (ℕ → ℕ → Option Bool) → List ℕ → List ℕ → Option Bool
all_compatible test [] [] = some true
all_compatible test [] (y ∷ ys) = some false
all_compatible test (x ∷ xs) [] = some false
all_compatible test (x ∷ xs) (y ∷ ys) =
    test x y >>= λ same. if same then all_compatible test xs ys else some false

-- `a && b` where both are calls.
abbrev pub and_then : Option Bool → Option Bool → Option Bool
and_then a b = a >>= λ x. if x then b else some false

-- The switch of `type_compatible` on two records of one kind, by the calls it makes.
unfoldable pub compatible_switch :
    (ℕ → ℕ → Option Bool) → List CType → ℕ → ℕ → CType → CType → TypeKind → Option Bool
compatible_switch test store p q l r pointer = test l.base r.base
compatible_switch test store p q l r array =
    and_then (test l.base r.base)
      (some (l.incomplete || r.incomplete || l.array_count == r.array_count))
compatible_switch test store p q l r function = and_then (test l.return_type r.return_type) (
    if l.parameter_count == r.parameter_count && (if l.variadic then r.variadic else not r.variadic)
    then all_compatible test l.parameters r.parameters
    else some false)
compatible_switch test store p q l r struct =
    some (type_origin store p == type_origin store q || same_tag l.tag r.tag)
compatible_switch test store p q l r union =
    some (type_origin store p == type_origin store q || same_tag l.tag r.tag)
compatible_switch test store p q l r _ = some true

-- The records behind two pointers.
unfoldable pub compatible_records :
    (ℕ → ℕ → Option Bool) → List CType → ℕ → ℕ → Option CType → Option CType → Option Bool
compatible_records test store p q none r = some false
compatible_records test store p q (some l) none = some false
compatible_records test store p q (some l) (some r) =
    if same_kind l.kind enum || same_kind r.kind enum
    then some (same_kind (compared_kind l.kind) (compared_kind r.kind))
    else if not (same_kind l.kind r.kind)
    then some false
    else compatible_switch test store p q l r l.kind

unfoldable pub type_compatible : ℕ → List CType → ℕ → ℕ → Option Bool
type_compatible zero store p q = none
type_compatible (suc fuel) store p q =
    compatible_records (type_compatible fuel store) store p q (deref store p) (deref store q)
