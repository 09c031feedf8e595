-- ===== src/Tests/Links.antt =====
-- The linker's ranges and words, src/linker/linker.c, on a file of twelve bytes.
use cc.Base.{inl, inr}
use cc.Base.{ℕ, ◌↔◌, get_elem?, ◌≡◌, refl, arith, true, none, some, List, [], ◌∷◌}
use cc.Linker.Bytes.{put_u64}
use cc.Linker.RoundTrip.{WritesBackSome, read_u64-put_u64}
use cc.Linker.Ranges.{LinkObject, object_range_add, object_uncovered_bytes_are_zero}
use cc.Linker.Ranges.{range_ok, overlaps_any, cover_ranges, cover_range, uncovered_zero}
use cc.Linker.Disjoint.{AreRanges, InAny, AccountsSome, object_range_add-Accounts}
use cc.Linker.Covered.{object_uncovered_bytes_are_zero_iff}

abbrev twelve : List ℕ
twelve = 1 ∷ 2 ∷ 3 ∷ 4 ∷ 0 ∷ 0 ∷ 0 ∷ 0 ∷ 9 ∷ 9 ∷ 9 ∷ 9 ∷ []

read_u64-put_u64_example :
    WritesBackSome twelve 2 72623859790382856 (put_u64 twelve 2 72623859790382856)
read_u64-put_u64_example = read_u64-put_u64 twelve 2 72623859790382856 (omega arith) (omega arith)

abbrev one_range : LinkObject
one_range = record {
  bytes = twelve;
  ranges = record { offset = 0; extent = 4 } ∷ [];
  range_capacity = 16;
}

one_range-AreRanges : AreRanges 12 one_range.ranges
one_range-AreRanges = (omega arith, omega arith, (λ i h k. k), tt)

overlapping : object_range_add one_range 3 2 ≡ none
unfolding object_range_add range_ok overlaps_any
overlapping = refl

object_range_add-Accounts_example : AccountsSome one_range 8 4 (object_range_add one_range 8 4)
object_range_add-Accounts_example =
    object_range_add-Accounts one_range 8 4 (omega arith) one_range-AreRanges

abbrev whole_file : LinkObject
whole_file = record one_range {
  ranges = record { offset = 0; extent = 4 } ∷ record { offset = 8; extent = 4 } ∷ [];
}

gap_is_zero : object_uncovered_bytes_are_zero true whole_file ≡ some true
unfolding object_uncovered_bytes_are_zero cover_ranges cover_range uncovered_zero
gap_is_zero = refl

whole_file-AreRanges : AreRanges 12 whole_file.ranges
whole_file-AreRanges = (
  omega arith,
  omega arith,
  λ i a b. elim b [ inl k ↦ omega (arith, a.0, a.1, k.0, k.1) | inr k ↦ absurd k ],
  (omega arith, omega arith, (λ i a b. absurd b), tt),
)

object_uncovered_bytes_are_zero_iff_example :
    (object_uncovered_bytes_are_zero true whole_file ≡ some true) ↔ (
      (true ≡ true)
      × ((i b : ℕ) → get_elem? twelve i ≡ some b → (InAny i whole_file.ranges → ⊥) → b ≡ 0))
object_uncovered_bytes_are_zero_iff_example =
    object_uncovered_bytes_are_zero_iff true whole_file whole_file-AreRanges
