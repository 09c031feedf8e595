-- ===== src/Linker/Align.antt =====
-- Alignment by masks in src/linker/linker.c is rounding up to a multiple of a power of two.
use native.Mathlib.Nat.{
  suc-mul, mod-eq_of_lt, one-le-pow, div-lt_iff_lt-mul, lt-div-mul-add, div-mul-le_self,
  mul-mod_left,
}
use cc.Base.{
  ℕ, zero, suc, ◌+◌, ◌-◌, ◌*◌, ◌/◌, ◌%◌, ◌^◌, ◌≤◌, ◌<◌, bit_and, ◌≡◌, refl, ap, ◌∙◌, arith,
}
use cc.Base.Bits.{bit_and_high, bit_and_mask, power_add}
use cc.Linker.Outputs.{complement}

-- `r` is the first multiple of `p` that is not below `v`.
pub record AlignsTo (p v r : ℕ) : Type 0 where
  pub lower : v ≤ r
  pub upper : r < v + p
  pub aligned : r % p ≡ 0

pred_mul : (m p : ℕ) → 0 < m → (m - 1) * p ≡ m * p - p
pred_mul zero p h = absurd (omega arith)
pred_mul (suc m) p h =
    ap (λ (t : ℕ). t * p) {x = suc m - 1} {y = m} (omega arith) ∙ omega (arith, suc-mul m p)

complement_mask : (k : ℕ) → k ≤ 15 → complement (2 ^ k - 1) ≡ (2 ^ (64 - k) - 1) * 2 ^ k
complement_mask k h = omega (
  arith,
  pred_mul (2 ^ (64 - k)) (2 ^ k) (one-le-pow (64 - k) 2 (omega arith)),
  power_add (64 - k) k,
  one-le-pow k 2 (omega arith),
  ap (λ (t : ℕ). 2 ^ t) {x = k + (64 - k)} {y = 64} (omega arith),
)

whole_word : (k : ℕ) → k ≤ 15 → 2 ^ (64 - k) * 2 ^ k ≡ 2 ^ 64
whole_word k h =
    power_add (64 - k) k ∙ ap (λ (t : ℕ). 2 ^ t) {x = k + (64 - k)} {y = 64} (omega arith)

pub bit_and-complement :
    (k v : ℕ) → k ≤ 15 → v < 2 ^ 64 → bit_and v (complement (2 ^ k - 1)) ≡ v / 2 ^ k * 2 ^ k
bit_and-complement k v h small =
    rw
      (
        complement_mask k h,
        bit_and_high k v (2 ^ (64 - k) - 1),
        bit_and_mask (64 - k) (v / 2 ^ k),
        mod-eq_of_lt below,
      )
      refl
  where
    below : v / 2 ^ k < 2 ^ (64 - k)
    below = (div-lt_iff_lt-mul (one-le-pow k 2 (omega arith))).1 (rw (whole_word k h) small)

rounded-AlignsTo : (p v : ℕ) → 0 < p → AlignsTo p v ((v + (p - 1)) / p * p)
rounded-AlignsTo p v h = record {
  lower = omega (arith, lt-div-mul-add {a = v + (p - 1)} {b = p} h);
  upper = omega (arith, div-mul-le_self (v + (p - 1)) p);
  aligned = mul-mod_left ((v + (p - 1)) / p) p;
}

-- The mask rounds up.
pub align-AlignsTo :
    (k v : ℕ)
    → k ≤ 15
    → v + 2 ^ k ≤ 2 ^ 64
    → AlignsTo (2 ^ k) v (bit_and (v + (2 ^ k - 1)) (complement (2 ^ k - 1)))
align-AlignsTo k v h room =
    let positive : 0 < 2 ^ k = one-le-pow k 2 (omega arith) in
    rw (bit_and-complement k (v + (2 ^ k - 1)) h (omega arith))
      (rounded-AlignsTo (2 ^ k) v positive)
