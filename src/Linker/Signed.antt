-- ===== src/Linker/Signed.antt =====
-- checked_add_signed of src/linker/linker.c against the sum of integers.
use cc.Base.{ℕ, ◌+◌, ◌-◌, ◌%◌, ◌^◌, ◌≤◌, ◌<◌, ◌≡◌, refl, arith, ◌⊎◌, inl, inr, Option, none, some}
use cc.Base.{ltb, size_max, ℤ, pos, negsuc, pos_part, neg_part, int64_max}
use cc.Base.{Bool-cases, true, false}
use cc.Linker.Relocate.{checked_add_signed}

-- The sum is given where it is from 0 to INT64_MAX. It is refused where it is below 0, and where it is
-- above INT64_MAX and the addend is not below 0; with an addend below 0 it is given less 2 ^ 63 there.
abbrev pub Sums : ℕ → ℤ → Option ℤ → Type 0
Sums value addend none =
    (value + pos_part addend < neg_part addend)
    ⊎ ((neg_part addend ≡ 0) × (int64_max < value + pos_part addend))
Sums value addend (some (pos t)) =
    ((t + neg_part addend ≡ value + pos_part addend) × (t ≤ int64_max))
    ⊎ ((0 < neg_part addend)
        × (int64_max + neg_part addend < value)
        × (t + neg_part addend + 2 ^ 63 ≡ value))
Sums value addend (some (negsuc t)) = ⊥

-- For every word and every addend of 64 bits, checked_add_signed gives the sum where it is from 0 to
-- INT64_MAX, refuses it below 0, and above INT64_MAX refuses it when the addend is not below 0 and else
-- gives it less 2 ^ 63.
pub checked_add_signed-Sums :
    (value : ℕ) (addend : ℤ)
    → value < 2 ^ 64
    → pos_part addend ≤ int64_max
    → neg_part addend ≤ 2 ^ 63
    → Sums value addend (checked_add_signed value addend)
unfolding checked_add_signed
checked_add_signed-Sums value (pos extra) v p n = elim (Bool-cases (ltb (size_max - extra) value)) [
  | inl e ↦ rw e (inr (refl, ground arith))
  | inr e ↦ elim (Bool-cases (ltb int64_max (value + extra))) [
    | inl f ↦ rw (e, f) (inr (refl, ground arith))
    | inr f ↦ rw (e, f) (inl (omega arith, ground arith))
  ]
]
checked_add_signed-Sums value (negsuc below) v p n = elim (Bool-cases (ltb value (below + 1))) [
  | inl e ↦
      let dead : ltb (int64_max + 1) value ≡ false = ground arith in
      rw (e, dead) (inl (ground arith))
  | inr e ↦ elim (Bool-cases (ltb int64_max (value - (below + 1)))) [
    | inl f ↦
        let small : ltb (value - (below + 1) - 2 ^ 63) (2 ^ 63) ≡ true = ground arith in
        rw (e, f, small) (inr (omega arith, ground arith, ground arith))
    | inr f ↦
        let small : ltb (value - (below + 1)) (2 ^ 63) ≡ true = ground arith in
        rw (e, f, small) (inl (ground arith, ground arith))
  ]
]

-- Whatever is given is the sum modulo 2 ^ 32.
pub checked_add_signed-mod :
    (value : ℕ) (addend : ℤ) (r : ℤ)
    → Sums value addend (some r)
    → (neg_part r ≡ 0)
      × ((pos_part r + neg_part addend) % 2 ^ 32 ≡ (value + pos_part addend) % 2 ^ 32)
checked_add_signed-mod value addend (pos t) (inl (e, le)) = (refl, omega arith)
checked_add_signed-mod value (negsuc below) (pos t) (inr (below_zero, large, e)) =
    (refl, omega arith)
checked_add_signed-mod value (pos extra) (pos t) (inr (below_zero, large, e)) = absurd (omega arith)
checked_add_signed-mod value addend (negsuc t) h = absurd h
