-- ===== src/Tests/Types.antt =====
-- The types of src/semantic/semantic.c on a small store.
use cc.Base.{ℕ, zero, suc, ◌≡◌, refl, arith, some, [], ◌∷◌, replicate}
use cc.Base.{get_or-replicate, subst}
use mathlib.Core.Option.{some-injective}
use cc.Arena.{Arena}
use cc.Semantic.Kind.{
  int, unsigned_long, long_long, kind_index, basic_layout, is_record_kind, is_integer_kind,
}
use cc.Semantic.Store.{CType, Types, deref, fresh_type}
use cc.Semantic.Build.{type_basic}
use cc.Semantic.Predicates.{type_is_arithmetic}
use cc.Semantic.Arithmetic.{type_usual_arithmetic}
use cc.Semantic.Valid.{IsType, IsTypes}
use cc.Semantic.Basic.{GivesBasic, fresh-IsType, type_basic-GivesBasic}
use cc.Semantic.Usual.{Chooses, type_usual_arithmetic-Chooses}

abbrev pub empty_arena : Arena
empty_arena = record { head = []; total = 0; limit = 65536; generation = 1; made = 0 }

-- `unsigned long` at 1 and `long long` at 2, and an empty table.
abbrev two_types : Types
two_types = record {
  address = 4096;
  arena = empty_arena;
  store = fresh_type unsigned_long 8 8 1 ∷ fresh_type long_long 8 8 2 ∷ [];
  table = record { arena = 0; generation = 0; basics = replicate 32 0; pointers = replicate 32 0 };
}

two_types-IsType : (p : ℕ) (t : CType) → deref two_types.store p ≡ some t → IsType p t
unfolding basic_layout is_record_kind
two_types-IsType zero t e = cc
two_types-IsType (suc zero) t e =
    subst (IsType 1) (some-injective _ _ e)
      (fresh-IsType unsigned_long 8 8 refl refl 1 (omega arith))
two_types-IsType (suc (suc zero)) t e =
    subst (IsType 2) (some-injective _ _ e) (fresh-IsType long_long 8 8 refl refl 2 (omega arith))
two_types-IsType (suc (suc (suc p))) t e = cc

two_types-IsTypes : IsTypes two_types
two_types-IsTypes = record {
  arena = omega arith;
  types = two_types-IsType;
  basics = λ k h. absurd (h (get_or-replicate 32 (kind_index k) 0));
  pointers = λ i h. absurd (h (get_or-replicate 32 i 0));
  slots = refl;
}

type_basic-GivesBasic_example : GivesBasic two_types int (type_basic int two_types)
unfolding basic_layout is_record_kind
type_basic-GivesBasic_example =
    type_basic-GivesBasic int 4 4 two_types refl refl two_types-IsTypes (omega arith)

type_usual_arithmetic-Chooses_example :
    Chooses two_types unsigned_long long_long (type_usual_arithmetic 1 2 two_types)
unfolding type_is_arithmetic is_integer_kind
type_usual_arithmetic-Chooses_example =
    type_usual_arithmetic-Chooses two_types 1 2 (fresh_type unsigned_long 8 8 1)
      (fresh_type long_long 8 8 2) refl refl refl refl two_types-IsTypes (omega arith)
