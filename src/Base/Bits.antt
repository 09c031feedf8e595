-- ===== src/Base/Bits.antt =====
-- `&` with a low mask and `|` of disjoint fields as arithmetic, at every width.
use Prim.Native.Nat.{
  ℕ, zero, suc, ◌+◌, ◌-◌, ◌*◌, ◌/◌, ◌%◌, ◌^◌, ◌<◌, ◌≤◌, bit_and, bit_or, min, max,
}
use Prim.Native.Nat.{digits, bitwise, bit_and-bitwise, bit_or-bitwise}
use mathlib.Core.Path.{◌≡◌, refl, ap, ◌∙◌}
use native.Mathlib.Omega.{arith}
use native.Mathlib.Nat.{pow-suc, one-le-pow, div-div-eq-div-mul}

-- The library's digit recursion runs on fuel; any two amounts that suffice agree.
module _ (at_zero : ℕ → ℕ) (on_digit : ℕ → ℕ → ℕ) where
  digits-fuel :
      (f g a b : ℕ) → a ≤ f → a ≤ g → digits at_zero on_digit f a b ≡ digits at_zero on_digit g a b
  digits-fuel zero zero a b p q = refl
  digits-fuel zero (suc g) zero b p q = refl
  digits-fuel zero (suc g) (suc a) b p q = absurd (omega arith)
  digits-fuel (suc f) zero zero b p q = refl
  digits-fuel (suc f) zero (suc a) b p q = absurd (omega arith)
  digits-fuel (suc f) (suc g) zero b p q = refl
  digits-fuel (suc f) (suc g) (suc a) b p q =
      rw (digits-fuel f g (suc a / 2) (b / 2) (omega arith) (omega arith))

  lowest_digit :
      (a b : ℕ)
      → bitwise at_zero on_digit (suc a) b
        ≡ bitwise at_zero on_digit (suc a / 2) (b / 2) * 2 + on_digit (suc a % 2) (b % 2)
  lowest_digit a b =
      omega (arith, digits-fuel a (suc a / 2) (suc a / 2) (b / 2) (omega arith) (omega arith))

pub bit_or_digit : (a b : ℕ) → bit_or a b ≡ bit_or (a / 2) (b / 2) * 2 + max (a % 2) (b % 2)
bit_or_digit zero b = simp bit_or-bitwise (omega arith)
bit_or_digit (suc a) b = simp bit_or-bitwise (lowest_digit (λ y. y) max a b)

pub bit_and_digit : (a b : ℕ) → bit_and a b ≡ bit_and (a / 2) (b / 2) * 2 + min (a % 2) (b % 2)
bit_and_digit zero b = simp bit_and-bitwise (omega arith)
bit_and_digit (suc a) b = simp bit_and-bitwise (lowest_digit (λ y. 0) min a b)

bit_and-zero_below : (k a : ℕ) → a < k → bit_and a 0 ≡ 0
bit_and-zero_below zero a h = absurd (omega arith)
bit_and-zero_below (suc k) zero h = refl
bit_and-zero_below (suc k) (suc a) h =
    omega (arith, bit_and_digit (suc a) 0, bit_and-zero_below k (suc a / 2) (omega arith))

pub bit_and-zero : (a : ℕ) → bit_and a 0 ≡ 0
bit_and-zero a = bit_and-zero_below (suc a) a (omega arith)

bit_or-zero_below : (k a : ℕ) → a < k → bit_or a 0 ≡ a
bit_or-zero_below zero a h = absurd (omega arith)
bit_or-zero_below (suc k) zero h = refl
bit_or-zero_below (suc k) (suc a) h =
    omega (arith, bit_or_digit (suc a) 0, bit_or-zero_below k (suc a / 2) (omega arith))

pub bit_or-zero : (a : ℕ) → bit_or a 0 ≡ a
bit_or-zero a = bit_or-zero_below (suc a) a (omega arith)

double_shift : (q k : ℕ) → q * 2 ^ suc k ≡ 2 * (q * 2 ^ k)
double_shift q k = omega (arith, ap (λ (t : ℕ). q * t) (pow-suc 2 k))

-- `(hi << k) | lo` is a sum when `lo` fits in `k` bits.
pub bit_or_join : (k hi lo : ℕ) → lo < 2 ^ k → bit_or (hi * 2 ^ k) lo ≡ hi * 2 ^ k + lo
bit_or_join zero hi lo h = ground (arith, bit_or-zero hi)
bit_or_join (suc k) hi lo h = ground (
  arith,
  double_shift hi k,
  bit_or_digit (hi * 2 ^ suc k) lo,
  bit_or_join k hi (lo / 2) (omega arith),
)

bit_and_low : (k hi lo : ℕ) → lo < 2 ^ k → bit_and (hi * 2 ^ k + lo) (2 ^ k - 1) ≡ lo
bit_and_low zero hi lo h = ground (arith, bit_and-zero hi)
bit_and_low (suc k) hi lo h = ground (
  arith,
  double_shift hi k,
  pow-suc 2 k,
  bit_and_digit (hi * 2 ^ suc k + lo) (2 ^ suc k - 1),
  bit_and_low k hi (lo / 2) (omega arith),
)

-- A mask of the `k` lowest bits is the remainder by `2 ^ k`.
pub bit_and_mask : (k a : ℕ) → bit_and a (2 ^ k - 1) ≡ a % 2 ^ k
bit_and_mask k a = ground (arith, one-le-pow k 2, bit_and_low k (a / 2 ^ k) (a % 2 ^ k))

div_twice : (a k : ℕ) → a / 2 ^ suc k ≡ a / 2 / 2 ^ k
div_twice a k =
    rw (div-div-eq-div-mul a 2 (2 ^ k)) (ap (λ (t : ℕ). a / t) (omega (arith, pow-suc 2 k)))

-- A mask whose low `k` bits are clear only sees the bits above.
pub bit_and_high : (k a m : ℕ) → bit_and a (m * 2 ^ k) ≡ bit_and (a / 2 ^ k) m * 2 ^ k
bit_and_high zero a m = ground arith
bit_and_high (suc k) a m = ground (
  arith,
  double_shift m k,
  double_shift (bit_and (a / 2 ^ suc k) m) k,
  pow-suc 2 k,
  div_twice a k,
  bit_and_digit a (m * 2 ^ suc k),
  bit_and_high k (a / 2) m,
)

bit_or-comm_below : (k a b : ℕ) → a < k → b < k → bit_or a b ≡ bit_or b a
bit_or-comm_below zero a b h h' = absurd (omega arith)
bit_or-comm_below (suc zero) a b h h' = ground (arith, h, h')
bit_or-comm_below (suc (suc k)) a b h h' = omega (
  arith,
  bit_or_digit a b,
  bit_or_digit b a,
  bit_or-comm_below (suc k) (a / 2) (b / 2) (omega arith) (omega arith),
)

-- `lo | (hi << k)` is a sum when `lo` fits in `k` bits.
pub bit_or_low : (k lo hi : ℕ) → lo < 2 ^ k → bit_or lo (hi * 2 ^ k) ≡ lo + hi * 2 ^ k
bit_or_low k lo hi h =
    bit_or-comm_below (suc (lo + hi * 2 ^ k)) lo (hi * 2 ^ k) (omega arith) (omega arith)
    ∙ bit_or_join k hi lo h
    ∙ omega arith

pub power_add : (n k : ℕ) → 2 ^ n * 2 ^ k ≡ 2 ^ (k + n)
power_add n zero = omega (arith, ap (λ (t : ℕ). 2 ^ t) {x = 0 + n} {y = n} (omega arith))
power_add n (suc k) = omega (
  arith,
  ap (λ (t : ℕ). 2 ^ n * t) (pow-suc 2 k),
  power_add n k,
  pow-suc 2 (k + n),
  ap (λ (t : ℕ). 2 ^ t) {x = suc k + n} {y = suc (k + n)} (omega arith),
)
