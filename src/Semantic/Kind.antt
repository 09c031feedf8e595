-- ===== src/Semantic/Kind.antt =====
-- `enum TypeKind` of src/semantic/semantic.h, and the switches of src/semantic/semantic.c that look
-- at the kind alone.
use cc.Base.{ℕ, ◌<◌, ◌≡◌, refl, arith, Bool, true, false, ◌&&◌, ◌==◌}
use cc.Base.{Option, none, some, List, [], ◌∷◌, ==_iff, ◌↔◌, get_or, sym, ap, ◌∙◌}

pub data TypeKind : Type 0 where
  void_type bool char signed_char unsigned_char short unsigned_short : TypeKind
  int unsigned_int long unsigned_long long_long unsigned_long_long : TypeKind
  float double pointer array function struct union enum uint128 void_expr : TypeKind

-- The value of the enumerator.
unfoldable pub kind_index : TypeKind → ℕ
kind_index void_type = 0
kind_index bool = 1
kind_index char = 2
kind_index signed_char = 3
kind_index unsigned_char = 4
kind_index short = 5
kind_index unsigned_short = 6
kind_index int = 7
kind_index unsigned_int = 8
kind_index long = 9
kind_index unsigned_long = 10
kind_index long_long = 11
kind_index unsigned_long_long = 12
kind_index float = 13
kind_index double = 14
kind_index pointer = 15
kind_index array = 16
kind_index function = 17
kind_index struct = 18
kind_index union = 19
kind_index enum = 20
kind_index uint128 = 21
kind_index void_expr = 22

abbrev pub kinds : List TypeKind
kinds =
    void_type ∷ bool ∷ char ∷ signed_char ∷ unsigned_char ∷ short ∷ unsigned_short ∷ int
    ∷ unsigned_int ∷ long ∷ unsigned_long ∷ long_long ∷ unsigned_long_long ∷ float ∷ double
    ∷ pointer ∷ array ∷ function ∷ struct ∷ union ∷ enum ∷ uint128 ∷ void_expr ∷ []

-- `a == b` on kinds.
unfoldable pub same_kind : TypeKind → TypeKind → Bool
unfolding kind_index
same_kind a b = kind_index a == kind_index b

unfoldable pub is_integer_kind : TypeKind → Bool
is_integer_kind bool = true
is_integer_kind char = true
is_integer_kind signed_char = true
is_integer_kind unsigned_char = true
is_integer_kind short = true
is_integer_kind unsigned_short = true
is_integer_kind int = true
is_integer_kind unsigned_int = true
is_integer_kind long = true
is_integer_kind unsigned_long = true
is_integer_kind long_long = true
is_integer_kind unsigned_long_long = true
is_integer_kind uint128 = true
is_integer_kind enum = true
is_integer_kind _ = false

-- The second switch of `type_is_signed`, on integer types.
unfoldable pub signed_switch : TypeKind → Bool
signed_switch bool = false
signed_switch unsigned_char = false
signed_switch unsigned_short = false
signed_switch unsigned_int = false
signed_switch unsigned_long = false
signed_switch unsigned_long_long = false
signed_switch _ = true

unfoldable pub rank_of_kind : TypeKind → ℕ
rank_of_kind bool = 1
rank_of_kind char = 1
rank_of_kind signed_char = 1
rank_of_kind unsigned_char = 1
rank_of_kind short = 2
rank_of_kind unsigned_short = 2
rank_of_kind int = 3
rank_of_kind unsigned_int = 3
rank_of_kind enum = 3
rank_of_kind long = 4
rank_of_kind unsigned_long = 4
rank_of_kind long_long = 5
rank_of_kind unsigned_long_long = 5
rank_of_kind uint128 = 6
rank_of_kind _ = 0

-- The switch of `type_basic`: size and alignment, or NULL for a kind that is built otherwise.
unfoldable pub basic_layout : TypeKind → Option (ℕ × ℕ)
basic_layout void_type = some (1, 1)
basic_layout bool = some (1, 1)
basic_layout char = some (1, 1)
basic_layout signed_char = some (1, 1)
basic_layout unsigned_char = some (1, 1)
basic_layout short = some (2, 2)
basic_layout unsigned_short = some (2, 2)
basic_layout int = some (4, 4)
basic_layout unsigned_int = some (4, 4)
basic_layout enum = some (4, 4)
basic_layout struct = some (0, 1)
basic_layout union = some (0, 1)
basic_layout long = some (8, 8)
basic_layout unsigned_long = some (8, 8)
basic_layout long_long = some (8, 8)
basic_layout unsigned_long_long = some (8, 8)
basic_layout float = some (4, 4)
basic_layout double = some (8, 8)
basic_layout uint128 = some (16, 16)
basic_layout void_expr = some (0, 1)
basic_layout pointer = none
basic_layout array = none
basic_layout function = none

unfoldable pub is_record_kind : TypeKind → Bool
is_record_kind struct = true
is_record_kind union = true
is_record_kind _ = false

-- Every kind is met by a check over the list of all.
all_of : (TypeKind → Bool) → List TypeKind → Bool
all_of p [] = true
all_of p (k ∷ ks) = p k && all_of p ks

unfoldable pub all_kinds : (TypeKind → Bool) → Bool
unfolding all_of
all_kinds p = all_of p kinds

pub all_kinds_sound : (p : TypeKind → Bool) → all_kinds p ≡ true → (k : TypeKind) → p k ≡ true
unfolding all_kinds
all_kinds_sound p h k = sound k
  where
    sound : (k : TypeKind) → p k ≡ true
    sound void_type = ground arith
    sound _ = ground arith

pub same_kind_iff : (a b : TypeKind) → (same_kind a b ≡ true) ↔ (a ≡ b)
unfolding same_kind
same_kind_iff a b = (to a b, λ e. rw e (reflexive b))
  where
    reflexive : (k : TypeKind) → same_kind k k ≡ true
    reflexive void_type = refl
    reflexive _ = refl

    from_index : (n : ℕ) → TypeKind
    from_index n = get_or kinds n void_type

    round_trip : (k : TypeKind) → from_index (kind_index k) ≡ k
    round_trip void_type = refl
    round_trip _ = refl

    to : (a b : TypeKind) → same_kind a b ≡ true → a ≡ b
    to a b h =
        sym (round_trip a)
        ∙ ap from_index ((==_iff (kind_index a) (kind_index b)).0 h)
        ∙ round_trip b

pub kind_index-lt : (k : TypeKind) → kind_index k < 32
unfolding kind_index
kind_index-lt void_type = omega arith
kind_index-lt _ = omega arith

pub kind_index-injective : (a b : TypeKind) → kind_index a ≡ kind_index b → a ≡ b
unfolding same_kind
kind_index-injective a b e = (same_kind_iff a b).0 ((==_iff (kind_index a) (kind_index b)).1 e)
