-- ===== src/Numeric/Product.antt =====
-- `wide_multiply` of src/frontend/numeric.c is the exact product.
use cc.Base.{ℕ, ◌+◌, ◌*◌, ◌/◌, ◌%◌, ◌^◌, ◌≤◌, ◌<◌, ◌≡◌, arith, sym, ap, ◌∙◌}
use cc.Base.{u64, bit_or}
use native.Mathlib.Nat.{mul-le-mul}
use cc.Base.Bits.{bit_and_mask, bit_or_low}
use cc.Numeric.Wide.{
  Wide, wide_multiply, low_word, middle_sum, middle_carry, low_product, high_product,
}
use cc.Numeric.Wide.{join_products}

-- The number that a wide word stands for.
abbrev pub wide_value : Wide → ℕ
wide_value w = w.high * 2 ^ 64 + w.low

low_word-mod : (v : ℕ) → low_word v ≡ v % 2 ^ 32
low_word-mod v = bit_and_mask 32 v

small_product : (a b : ℕ) → a < 2 ^ 32 → b < 2 ^ 32 → a * b ≤ 18446744065119617025
small_product a b h k =
    mul-le-mul {n₁ = a} {m₁ = b} {n₂ = 4294967295} {m₂ = 4294967295} (omega arith) (omega arith)

-- The halves of the product by the four small ones.
join_words : (lo hi : ℕ) → lo < 2 ^ 32 → bit_or lo (hi * 2 ^ 32) ≡ lo + hi * 2 ^ 32
join_words lo hi h = bit_or_low 32 lo hi h

product_parts :
    (a b c d : ℕ)
    → (a + b * 2 ^ 32) * (c + d * 2 ^ 32) ≡ a * c + (a * d + b * c) * 2 ^ 32 + b * d * 2 ^ 64
product_parts a b c d = grind arith

-- A product of two 32-bit words is at most (2 ^ 32 - 1) ^ 2.
abbrev most : ℕ
most = 18446744065119617025

middle_sum-eq :
    (p0 p1 p2 : ℕ) → p0 ≤ most → middle_sum p0 p1 p2 ≡ p1 % 2 ^ 32 + p2 % 2 ^ 32 + p0 / 2 ^ 32
unfolding middle_sum
middle_sum-eq p0 p1 p2 h = omega (arith, low_word-mod p1, low_word-mod p2)

middle_carry-eq :
    (p1 p2 sum : ℕ)
    → p1 ≤ most
    → p2 ≤ most
    → sum < 2 ^ 34
    → middle_carry p1 p2 sum ≡ p1 / 2 ^ 32 + p2 / 2 ^ 32 + sum / 2 ^ 32
unfolding middle_carry
middle_carry-eq p1 p2 sum h k m = omega arith

low_product-eq : (p0 sum : ℕ) → low_product p0 sum ≡ p0 % 2 ^ 32 + sum % 2 ^ 32 * 2 ^ 32
unfolding low_product
low_product-eq p0 sum =
    ap (λ (t : ℕ). bit_or (low_word p0) t) {y = sum % 2 ^ 32 * 2 ^ 32}
      (omega (arith, low_word-mod sum))
    ∙ join_words (low_word p0) (sum % 2 ^ 32) (omega (arith, low_word-mod p0))
    ∙ omega (arith, low_word-mod p0)

high_product-eq : (p3 carry : ℕ) → p3 + carry < 2 ^ 64 → high_product p3 carry ≡ p3 + carry
unfolding high_product
high_product-eq p3 carry h =
    let sum = u64 (low_word p3 + carry) in
    let low : sum ≡ p3 % 2 ^ 32 + carry = omega (arith, low_word-mod p3) in
    ap (λ (t : ℕ). bit_or (low_word sum) t) {y = (p3 / 2 ^ 32 + sum / 2 ^ 32) * 2 ^ 32}
      (omega (arith, low))
    ∙ join_words (low_word sum) (p3 / 2 ^ 32 + sum / 2 ^ 32) (omega (arith, low_word-mod sum))
    ∙ omega (arith, low_word-mod sum, low)

join_products-value :
    (p0 p1 p2 p3 : ℕ)
    → p0 ≤ most
    → p1 ≤ most
    → p2 ≤ most
    → p3 ≤ most
    → wide_value (join_products p0 p1 p2 p3) ≡ p0 + (p1 + p2) * 2 ^ 32 + p3 * 2 ^ 64
unfolding join_products
join_products-value p0 p1 p2 p3 h0 h1 h2 h3 =
    let sum = middle_sum p0 p1 p2 in
    let s = middle_sum-eq p0 p1 p2 h0 in
    let c = middle_carry-eq p1 p2 sum h1 h2 (omega arith) in
    omega (
      arith,
      s,
      c,
      low_product-eq p0 sum,
      high_product-eq p3 (middle_carry p1 p2 sum) (omega arith),
    )

-- The words of the result are words.
join_products-low : (p0 p1 p2 p3 : ℕ) → (join_products p0 p1 p2 p3).low < 2 ^ 64
unfolding join_products
join_products-low p0 p1 p2 p3 = omega (arith, low_product-eq p0 (middle_sum p0 p1 p2))

join_products-high :
    (p0 p1 p2 p3 : ℕ)
    → p0 ≤ most
    → p1 ≤ most
    → p2 ≤ most
    → p3 ≤ most
    → (join_products p0 p1 p2 p3).high < 2 ^ 64
unfolding join_products
join_products-high p0 p1 p2 p3 h0 h1 h2 h3 =
    let sum = middle_sum p0 p1 p2 in
    let s = middle_sum-eq p0 p1 p2 h0 in
    let c = middle_carry-eq p1 p2 sum h1 h2 (omega arith) in
    omega (arith, s, c, high_product-eq p3 (middle_carry p1 p2 sum) (omega arith))

pub record IsWide (w : Wide) : Type 0 where
  pub high_fits : w.high < 2 ^ 64
  pub low_fits : w.low < 2 ^ 64

-- The product of two 64-bit words is exact, and its two words are words.
pub wide_multiply-value :
    (left right : ℕ)
    → left < 2 ^ 64
    → right < 2 ^ 64
    → (wide_value (wide_multiply left right) ≡ left * right) × IsWide (wide_multiply left right)
unfolding wide_multiply
wide_multiply-value left right h k =
    let a = low_word left in
    let b = left / 2 ^ 32 in
    let c = low_word right in
    let d = right / 2 ^ 32 in
    let al : a < 2 ^ 32 = omega (arith, low_word-mod left) in
    let cl : c < 2 ^ 32 = omega (arith, low_word-mod right) in
    let p0 = small_product a c al cl in
    let p1 = small_product a d al (omega arith) in
    let p2 = small_product b c (omega arith) cl in
    let p3 = small_product b d (omega arith) (omega arith) in
    (
      join_products-value (u64 (a * c)) (u64 (a * d)) (u64 (b * c)) (u64 (b * d)) (omega arith)
            (omega arith) (omega arith) (omega arith)
          ∙ omega arith
          ∙ sym (product_parts a b c d)
          ∙ ap (λ (t : ℕ). t * (c + d * 2 ^ 32)) {y = left} (omega (arith, low_word-mod left))
          ∙ ap (λ (t : ℕ). left * t) {y = right} (omega (arith, low_word-mod right)),
      record {
        high_fits =
            join_products-high (u64 (a * c)) (u64 (a * d)) (u64 (b * c)) (u64 (b * d)) (omega arith)
              (omega arith) (omega arith) (omega arith);
        low_fits = join_products-low (u64 (a * c)) (u64 (a * d)) (u64 (b * c)) (u64 (b * d));
      },
    )
