-- ===== src/Tests/Runtime/Sorting.antt =====
-- `qsort` of src/runtime/target_stdlib.c on numbers.
use cc.Base.{ℕ, ◌%◌, ◌≡◌, refl, arith, Bool, true, some, [], ◌∷◌, ltb}
use cc.Runtime.Sort.{qsort, sort_loop, sift}
use cc.Runtime.Sort.Laws.{IsWeakOrder, SortsIf, qsort-Sorts}

-- Numbers by their last digit.
abbrev last_digit_greater : ℕ → ℕ → Bool
last_digit_greater a b = ltb (b % 10) (a % 10)

last_digit_greater-IsWeakOrder : IsWeakOrder last_digit_greater
last_digit_greater-IsWeakOrder = record {
  asym = λ a b h. ground (arith, h);
  trans = λ a b c h k. ground (arith, h, k);
}

sorted_numbers :
    qsort last_digit_greater true 4 (23 ∷ 11 ∷ 3 ∷ 40 ∷ []) ≡ some (40 ∷ 11 ∷ 23 ∷ 3 ∷ [])
unfolding qsort sort_loop sift
sorted_numbers = refl

qsort-Sorts_example :
    SortsIf last_digit_greater true
      (23 ∷ 11 ∷ 3 ∷ 40 ∷ [])
      (qsort last_digit_greater true 4 (23 ∷ 11 ∷ 3 ∷ 40 ∷ []))
qsort-Sorts_example =
    qsort-Sorts last_digit_greater last_digit_greater-IsWeakOrder true 4 (23 ∷ 11 ∷ 3 ∷ 40 ∷ [])
      (omega arith)
