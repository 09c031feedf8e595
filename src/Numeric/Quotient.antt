-- ===== src/Numeric/Quotient.antt =====
-- `wide_divide` of src/frontend/numeric.c is the exact division with remainder.
use cc.Base.{
  ℕ, zero, suc, ◌+◌, ◌-◌, ◌*◌, ◌/◌, ◌%◌, ◌^◌, ◌≤◌, ◌<◌, ◌≡◌, refl, arith, sym, ap, subst, ◌∙◌,
}
use cc.Base.{Bool, true, false, ◌==◌, ltb, leb, if◌then◌else◌, Bool-cases, inl, inr}
use cc.Base.{◌<<<◌, bit_and, bit_or}
use native.Mathlib.Nat.{
  div-add-mod, div-div-eq-div-mul, pow-suc, one-le-pow, mod-lt, add-mul-div_right, zero-mod,
}
use native.Mathlib.Nat.{add-mul-mod_self_right}
use cc.Base.Bits.{bit_and_mask, bit_or_join, power_add}
use cc.Numeric.Wide.{Wide, wide_divide, divide_loop, wide_bit, shifted_rest, takes, set_bit, less}
use cc.Numeric.Product.{wide_value, IsWide}

-- The remainder before it is taken off, without its wrap, and the carry.
shifted_rest-eq :
    (rest source : ℕ)
    → rest < 2 ^ 64
    → source < 2
    → shifted_rest rest source ≡ (rest * 2 + source) % 2 ^ 64
unfolding shifted_rest
shifted_rest-eq rest source h k =
    ap (λ (t : ℕ). bit_or t source) {y = rest % 2 ^ 63 * 2} (omega arith)
    ∙ bit_or_join 1 (rest % 2 ^ 63) source k
    ∙ omega arith

takes-eq :
    (rest source divisor : ℕ)
    → rest < 2 ^ 64
    → source < 2
    → divisor < 2 ^ 64
    → takes rest source divisor ≡ leb divisor (rest * 2 + source)
unfolding takes
takes-eq rest source divisor h k m = ground (arith, shifted_rest-eq rest source h k)

mod_digit : (v p : ℕ) → 0 < p → v % (p * 2) ≡ v / p % 2 * p + v % p
mod_digit v p h = omega (
  arith,
  div-add-mod v p,
  div-add-mod v (p * 2),
  ap (λ (t : ℕ). p * 2 * t) (div-div-eq-div-mul v p 2),
  ap (λ (t : ℕ). p * t) (div-add-mod (v / p) 2),
)

-- The bits of the value.
module _ (value : Wide) (fits : IsWide value) where
  high_bit : (c : ℕ) → value.high / 2 ^ c ≡ wide_value value / 2 ^ (64 + c)
  high_bit c =
      ap (λ (t : ℕ). t / 2 ^ c) {y = wide_value value / 2 ^ 64} (omega (arith, fits.low_fits))
      ∙ div-div-eq-div-mul (wide_value value) (2 ^ 64) (2 ^ c)
      ∙ ap (λ (t : ℕ). wide_value value / t)
          (power_add 64 c ∙ ap (λ (t : ℕ). 2 ^ t) {x = c + 64} {y = 64 + c} (omega arith))

  low_bit : (b c : ℕ) → b + suc c ≡ 64 → value.low / 2 ^ b % 2 ≡ wide_value value / 2 ^ b % 2
  low_bit b c e =
      let p = one-le-pow b 2 in
      let whole : 2 ^ 64 ≡ 2 * 2 ^ c * 2 ^ b = omega (
        arith,
        ap (λ (t : ℕ). 2 ^ t) e,
        power_add (suc c) b,
        ap (λ (t : ℕ). t * 2 ^ b) (pow-suc 2 c),
      ) in
      let split : wide_value value ≡ value.low + value.high * (2 * 2 ^ c) * 2 ^ b =
        omega (arith, ap (λ (t : ℕ). value.high * t) whole) in
      let quotient : wide_value value / 2 ^ b ≡ value.low / 2 ^ b + value.high * (2 * 2 ^ c) =
        ap (λ (t : ℕ). t / 2 ^ b) split
        ∙ add-mul-div_right value.low (value.high * (2 * 2 ^ c)) (omega (arith, p)) in
      omega (arith, quotient)

  wide_bit-value : (b : ℕ) → b < 128 → wide_bit value b ≡ wide_value value / 2 ^ b % 2
  unfolding wide_bit
  wide_bit-value b h = elim (Bool-cases (leb 64 b)) [
    | inl upper ↦ rw upper (
        bit_and_mask 1 (value.high / 2 ^ bit_and b 63)
        ∙ ap (λ (t : ℕ). value.high / 2 ^ t % 2) {y = b - 64}
            (ground (arith, bit_and_mask 6 b, upper))
        ∙ ap (λ (t : ℕ). t % 2) (high_bit (b - 64))
        ∙ ap (λ (t : ℕ). wide_value value / 2 ^ t % 2) {x = 64 + (b - 64)} {y = b}
            (ground (arith, upper)))
    | inr lower ↦ rw lower (
        bit_and_mask 1 (value.low / 2 ^ bit_and b 63)
        ∙ ap (λ (t : ℕ). value.low / 2 ^ t % 2) {y = b} (ground (arith, bit_and_mask 6 b, lower))
        ∙ low_bit b (63 - b) (ground (arith, lower)))
  ]

  wide_bit-eq :
      (b : ℕ)
      → b < 128
      → wide_value value % 2 ^ suc b ≡ wide_bit value b * 2 ^ b + wide_value value % 2 ^ b
  wide_bit-eq b h =
      ap (λ (t : ℕ). wide_value value % t) {y = 2 ^ b * 2} (omega (arith, pow-suc 2 b))
      ∙ mod_digit (wide_value value) (2 ^ b) (omega (arith, one-le-pow b 2))
      ∙ ap (λ (t : ℕ). t * 2 ^ b + wide_value value % 2 ^ b) (sym (wide_bit-value b h))

  wide_bit-lt : (b : ℕ) → b < 128 → wide_bit value b < 2
  wide_bit-lt b h = omega (arith, wide_bit-value b h)

-- The bits of a result below `b` are clear.
abbrev Clear : ℕ → Wide → Type 0
Clear b r = (b ≤ 64 → r.low % 2 ^ b ≡ 0) × (64 ≤ b → (r.low ≡ 0) × (r.high % 2 ^ (b - 64) ≡ 0))

clear_step : (v b : ℕ) → v % 2 ^ suc b ≡ 0 → v % 2 ^ b ≡ 0
clear_step v b h =
    let d = mod_digit v (2 ^ b) (omega (arith, one-le-pow b 2)) in
    let e = ap (λ (t : ℕ). v % t) {x = 2 ^ suc b} {y = 2 ^ b * 2} (omega (arith, pow-suc 2 b)) in
    omega (arith, h, d, e)

-- A clear bit that is set.
or_bit : (v b : ℕ) → v % 2 ^ suc b ≡ 0 → bit_or v (1 <<< b) ≡ v + 2 ^ b
or_bit v b h =
    let w = div-add-mod v (2 ^ suc b) in
    let p = pow-suc 2 b in
    let q = one-le-pow b 2 in
    ap (λ (t : ℕ). bit_or t (1 * 2 ^ b)) {y = v / 2 ^ suc b * 2 ^ suc b} (omega (arith, w, h))
    ∙ bit_or_join (suc b) (v / 2 ^ suc b) (1 * 2 ^ b) (omega (arith, p, q))
    ∙ omega (arith, w, h)

zero_rest : (v b : ℕ) → v ≡ 0 → v % 2 ^ b ≡ 0
zero_rest v b h = ap (λ (t : ℕ). t % 2 ^ b) h ∙ zero-mod (2 ^ b)

Clear-step : (r : Wide) (b : ℕ) → Clear (suc b) r → Clear b r
Clear-step r b c = (
  λ h. elim (Bool-cases (b == 64)) [
    | inl whole ↦ zero_rest r.low b (c.1 (ground (arith, whole))).0
    | inr part ↦ clear_step r.low b (c.0 (ground (arith, part, h)))
  ],
  λ h. (
    (c.1 (omega arith)).0,
    clear_step r.high (b - 64) (
        ap (λ (t : ℕ). r.high % 2 ^ t) {x = suc (b - 64)} {y = suc b - 64} (omega arith)
        ∙ (c.1 (omega arith)).1),
  ),
)

added_rest : (v b : ℕ) → v % 2 ^ b ≡ 0 → (v + 2 ^ b) % 2 ^ b ≡ 0
added_rest v b h =
    ap (λ (t : ℕ). t % 2 ^ b) {y = v + 1 * 2 ^ b} (omega arith)
    ∙ add-mul-mod_self_right v 1 (2 ^ b)
    ∙ h

record SetsBit (r : Wide) (b : ℕ) (r' : Wide) : Type 0 where
  adds : wide_value r' ≡ wide_value r + 2 ^ b
  clear : Clear b r'

set_bit-SetsBit : (r : Wide) (b : ℕ) → Clear (suc b) r → SetsBit r b (set_bit r b)
unfolding set_bit
set_bit-SetsBit r b c = elim (Bool-cases (ltb b 64)) [
  | inl lower ↦
      let low : r.low % 2 ^ suc b ≡ 0 = c.0 (ground (arith, lower)) in
      let e = or_bit r.low b low in
      rw lower (record {
        adds = omega (arith, e);
        clear = (
          λ h. ap (λ (t : ℕ). t % 2 ^ b) e ∙ added_rest r.low b (clear_step r.low b low),
          λ h. absurd (ground (arith, lower, h)),
        );
      })
  | inr upper ↦
      let at : 64 ≤ b = ground (arith, upper) in
      let k = b - 64 in
      let high : r.high % 2 ^ suc k ≡ 0 =
        ap (λ (t : ℕ). r.high % 2 ^ t) {x = suc k} {y = suc b - 64} (omega arith)
        ∙ (c.1 (omega arith)).1 in
      let e = or_bit r.high k high in
      let power : 2 ^ k * 2 ^ 64 ≡ 2 ^ b =
        power_add k 64 ∙ ap (λ (t : ℕ). 2 ^ t) {x = 64 + k} {y = b} (omega arith) in
      rw upper (record {
        adds = omega (arith, e, power);
        clear = (
          λ h. zero_rest r.low b (c.1 (omega arith)).0,
          λ h. (
            (c.1 (omega arith)).0,
            ap (λ (t : ℕ). t % 2 ^ k) e ∙ added_rest r.high k (clear_step r.high k high),
          ),
        );
      })
]

-- The quotient and the remainder of a loop, from what it began with.
pub record Divides (total divisor : ℕ) (result : Wide × ℕ) : Type 0 where
  pub exact : wide_value (result.0) * divisor + result.1 ≡ total
  pub remainder : result.1 < divisor

module _ (value : Wide) (fits : IsWide value) (divisor : ℕ) (word : divisor < 2 ^ 64) where
  -- The number that the loop still describes.
  abbrev described : ℕ → Wide → ℕ → ℕ
  described left result rest =
      wide_value result * divisor + rest * 2 ^ left + wide_value value % 2 ^ left

  -- The state behind a round that takes the divisor off, or does not.
  Round : ℕ → ℕ → Wide → Bool → Type 0
  Round b rest result take =
      (described b (if take then set_bit result b else result) (
          if take
          then less (shifted_rest rest (wide_bit value b)) divisor
          else shifted_rest rest (wide_bit value b))
        ≡ described (suc b) result rest)
      × ((if take
            then less (shifted_rest rest (wide_bit value b)) divisor
            else shifted_rest rest (wide_bit value b))
          < divisor)
      × Clear b (if take then set_bit result b else result)

  round :
      (b rest : ℕ) (result : Wide) (take : Bool)
      → b < 128
      → rest < divisor
      → Clear (suc b) result
      → takes rest (wide_bit value b) divisor ≡ take
      → Round b rest result take
  unfolding Round
  round b rest result true h small c taken =
      let source = wide_bit value b in
      let bit = wide_bit-lt value fits b h in
      let t = takes-eq rest source divisor (omega arith) bit word in
      let n = shifted_rest-eq rest source (omega arith) bit in
      let s = set_bit-SetsBit result b c in
      let q : less (shifted_rest rest source) divisor + divisor ≡ rest * 2 + source =
        ground (arith, t, n, taken) in
      (
        omega (
          arith,
          ap (λ (x : ℕ). x * divisor) s.adds,
          ap (λ (x : ℕ). x * 2 ^ b) q,
          wide_bit-eq value fits b h,
          ap (λ (t : ℕ). rest * t) (pow-suc 2 b),
        ),
        omega (arith, q, small, bit),
        s.clear,
      )
  round b rest result false h small c passed =
      let source = wide_bit value b in
      let bit = wide_bit-lt value fits b h in
      let t = takes-eq rest source divisor (omega arith) bit word in
      let n = shifted_rest-eq rest source (omega arith) bit in
      let q : shifted_rest rest source ≡ rest * 2 + source = ground (arith, t, n, passed) in
      (
        omega (
          arith,
          ap (λ (x : ℕ). x * 2 ^ b) q,
          wide_bit-eq value fits b h,
          ap (λ (t : ℕ). rest * t) (pow-suc 2 b),
        ),
        ground (arith, q, t, passed),
        Clear-step result b c,
      )

  divide_loop-Divides :
      (left rest : ℕ) (result : Wide)
      → left ≤ 128
      → rest < divisor
      → Clear left result
      → Divides (described left result rest) divisor (divide_loop left value divisor result rest)
  unfolding divide_loop Round
  divide_loop-Divides zero rest result h small c = record {
    exact = omega (arith, mod-lt (wide_value value) {m = 1} (omega arith));
    remainder = small;
  }
  divide_loop-Divides (suc b) rest result h small c =
      let r =
        round b rest result (takes rest (wide_bit value b) divisor) (omega arith) small c refl in
      subst (λ total. Divides total divisor (divide_loop (suc b) value divisor result rest)) r.0
        (divide_loop-Divides b _ _ (omega arith) r.1 r.2)

  -- For a divisor that is a word and not 0, the division of a 128-bit word gives the quotient and the
  -- remainder: together they are the value, and the remainder is below the divisor.
  pub wide_divide-Divides :
      0 < divisor → Divides (wide_value value) divisor (wide_divide value divisor)
  unfolding wide_divide
  wide_divide-Divides pos =
      subst (λ total. Divides total divisor (wide_divide value divisor))
        (omega (arith, fits.high_fits, fits.low_fits))
        (divide_loop-Divides 128 0 (record { high = 0; low = 0 }) (omega arith) pos
          ((λ h. refl), (λ h. (refl, refl))))
