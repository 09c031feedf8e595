-- ===== src/Tests/Abi.antt =====
-- Arguments of src/backend/abi.c on a small store: a structure of two doubles and an `int`.
use cc.Base.{
  ◌%◌, ◌+◌, ◌≤◌, ℕ, zero, suc, ◌≡◌, ◌<◌, refl, arith, true, some, List, [], ◌∷◌, All, subst,
}
use mathlib.Core.Option.{some-injective}
use cc.Semantic.Kind.{int, double, struct, array, is_record_kind, same_kind}
use cc.Semantic.Store.{CType, Member, deref, fresh_type}
use cc.Abi.Flat.{IsFlat}
use cc.Abi.Classify.{abi_aggregate_pieces}
use cc.Abi.Flat.Classes.{ClassifiesSome, abi_aggregate_pieces-Classifies}
use cc.Abi.Assign.{no_pieces, abi_assign_arguments}
use cc.Abi.Walks.{Nested, FieldBelow}
use cc.Abi.Slots.{AssignsSome, abi_assign_arguments-Assigns}

-- `double` at 1, `struct { double x, y; }` at 2, `int` at 3.
abbrev double_at : ℕ → Member
double_at offset = record { name = 120 ∷ []; field = 1; offset = offset }

abbrev pair_type : CType
pair_type = record (fresh_type struct 16 8 2) { members = double_at 0 ∷ double_at 8 ∷ [] }

abbrev pair_store : List CType
pair_store = fresh_type double 8 8 1 ∷ pair_type ∷ fresh_type int 4 4 3 ∷ []

abbrev pair_rank : ℕ → ℕ
pair_rank zero = 0
pair_rank (suc zero) = 0
pair_rank (suc (suc p)) = 1

pair_rank-lt : (p : ℕ) → pair_rank p < 2
pair_rank-lt zero = omega arith
pair_rank-lt (suc zero) = omega arith
pair_rank-lt (suc (suc p)) = omega arith

member_below : (m : Member) → m.field ≡ 1 → FieldBelow pair_store pair_rank 1 m
unfolding is_record_kind same_kind
member_below m at f e =
    subst
      (λ t.
        (is_record_kind t.kind ≡ true → pair_rank m.field < 1)
        × (same_kind t.kind array ≡ true → pair_rank t.base < 1))
      (some-injective (fresh_type double 8 8 1) f (cc (at, e))) (λ r. cc, λ a. cc)

pair_store-below :
    (p : ℕ) (t : CType)
    → deref pair_store p ≡ some t
    → All (FieldBelow pair_store pair_rank (pair_rank p)) t.members
pair_store-below zero t e = cc
pair_store-below (suc zero) t e =
    subst (λ t. All (FieldBelow pair_store pair_rank 0) t.members) (some-injective _ _ e) tt
pair_store-below (suc (suc zero)) t e =
    subst (λ t. All (FieldBelow pair_store pair_rank 1) t.members) (some-injective _ _ e)
      (member_below (double_at 0) refl, (member_below (double_at 8) refl, tt))
pair_store-below (suc (suc (suc zero))) t e =
    subst (λ t. All (FieldBelow pair_store pair_rank 1) t.members) (some-injective _ _ e) tt
pair_store-below (suc (suc (suc (suc p)))) t e = cc

pair_store-Nested : Nested pair_store pair_rank
pair_store-Nested = record { below = pair_store-below }

abi_assign_arguments-Assigns_example :
    AssignsSome 1 (abi_assign_arguments 2 pair_store (2 ∷ 3 ∷ 1 ∷ []) true)
abi_assign_arguments-Assigns_example =
    abi_assign_arguments-Assigns pair_store pair_rank 2 (2 ∷ 3 ∷ 1 ∷ []) true pair_store-Nested
      pair_rank-lt

pair_member-IsFlat :
    (offset : ℕ) → offset % 8 + 8 ≤ 8 → offset < 16 → IsFlat pair_store (double_at offset)
unfolding is_record_kind same_kind
pair_member-IsFlat offset h k = (fresh_type double 8 8 1, refl, refl, refl, refl, h, k)

abi_aggregate_pieces-Classifies_example :
    ClassifiesSome pair_store pair_type (abi_aggregate_pieces 2 pair_store 2 no_pieces)
unfolding is_record_kind
abi_aggregate_pieces-Classifies_example =
    abi_aggregate_pieces-Classifies 1 2 pair_store pair_type refl refl refl (omega arith)
      (omega arith)
      (
        pair_member-IsFlat 0 (omega arith) (omega arith),
        (pair_member-IsFlat 8 (omega arith) (omega arith), tt),
      )
