-- ===== src/Runtime/Convert/Unsigned.antt =====
-- `convert_unsigned` and `strtoul` of src/runtime/target_stdlib.c against the value of a numeral.
use cc.Base.{ℕ, ◌+◌, ◌-◌, ◌*◌, ◌/◌, ◌%◌, ◌^◌, ◌≤◌, ◌<◌, ◌≡◌, ◌↔◌, refl, arith, ap}
use cc.Base.{true, false, ltb, if◌then◌else◌, Bool-cases, inl, inr}
use cc.Base.{none, some, List, [], ◌∷◌, u64, Option-cases}
use native.Mathlib.Nat.{div-add-mod, le-div_iff_mul-le}
use cc.Runtime.Convert.{next_digit, convert_digits, passes, strtoul, ulong_max, digit_of}
use cc.Runtime.Convert.{skip_spaces, skip_plus, choose_base, convert_unsigned}

-- The bytes are digits of the base with these values, and then comes a byte that is none.
pub data Digits (base : ℕ) : List ℕ → List ℕ → List ℕ → Type 0 where
  stop : (c : ℕ) (rest : List ℕ) → next_digit base c ≡ none → Digits base (c ∷ rest) [] (c ∷ rest)
  digit :
      (c d : ℕ) {text ds rest : List ℕ}
      → next_digit base c ≡ some d
      → Digits base text ds rest
      → Digits base (c ∷ text) (d ∷ ds) rest

-- The number that the digits stand for, behind the number `acc`.
abbrev pub numeral : ℕ → ℕ → List ℕ → ℕ
numeral base acc [] = acc
numeral base acc (d ∷ ds) = numeral base (acc * base + d) ds

le_step : (base acc d : ℕ) → 1 ≤ base → acc ≤ acc * base + d
le_step base acc d h = grind arith

numeral-le : (base acc : ℕ) (ds : List ℕ) → 1 ≤ base → acc ≤ numeral base acc ds
numeral-le base acc [] h = omega arith
numeral-le base acc (d ∷ ds) h =
    omega (arith, numeral-le base (acc * base + d) ds h, le_step base acc d h)

wrap_step : (base acc d : ℕ) → u64 (u64 (u64 acc * base) + d) ≡ u64 (acc * base + d)
wrap_step base acc d = omega (arith, ap (λ (t : ℕ). t * base) (div-add-mod acc (2 ^ 64)))

-- The division in the test asks whether the next value passes the ceiling.
passes-ltb :
    (base ceiling acc d : ℕ)
    → 1 ≤ base
    → d ≤ ceiling
    → passes base ceiling acc d ≡ ltb ceiling (acc * base + d)
passes-ltb base ceiling acc d h k =
    let fits : (acc ≤ (ceiling - d) / base) ↔ (acc * base ≤ ceiling - d) = le-div_iff_mul-le h in
    ground (arith, fits.0, fits.1)

digit_value-le : (c d : ℕ) → digit_of c ≡ some d → d ≤ 35
unfolding digit_of
digit_value-le c d e = ground arith

next_digit-le : (base c d : ℕ) → next_digit base c ≡ some d → d ≤ 35
unfolding next_digit
next_digit-le base c d e = elim (Option-cases (digit_of c)) [
  | inl out ↦ cc (rw (out, next_digit) at e)
  | inr (v, is) ↦ ground (arith, digit_value-le c v is, rw (is, next_digit) at e)
]

step_overflow :
    (base ceiling acc d : ℕ)
    → 1 ≤ base
    → d ≤ ceiling
    → ceiling < 2 ^ 64
    → (if passes base ceiling (u64 acc) d then true else ltb ceiling acc)
      ≡ ltb ceiling (acc * base + d)
step_overflow base ceiling acc d h k m = elim (Bool-cases (ltb ceiling acc)) [
  | inl over ↦ ground (arith, le_step base acc d h)
  | inr fits ↦
      let same : u64 acc ≡ acc = ground arith in
      rw (same, fits) (ground (arith, passes-ltb base ceiling acc d h k))
]

-- The loop gives the numeral cut to 64 bits, and has seen an overflow when it passes the ceiling.
convert_digits-numeral :
    (base ceiling acc : ℕ) {text ds rest : List ℕ}
    → 1 ≤ base
    → 35 ≤ ceiling
    → ceiling < 2 ^ 64
    → Digits base text ds rest
    → convert_digits base ceiling (u64 acc) (ltb ceiling acc) text
      ≡ some (record {
        value = u64 (numeral base acc ds);
        rest = rest;
        overflow = ltb ceiling (numeral base acc ds);
      })
unfolding convert_digits
convert_digits-numeral base ceiling acc h k m (stop c rest e) = rw (e, convert_digits) refl
convert_digits-numeral base ceiling acc h k m (digit c d {text} {ds} {rest} e more) =
    rw
      (
        e,
        convert_digits,
        wrap_step base acc d,
        step_overflow base ceiling acc d h (omega (arith, next_digit-le base c d e)) m,
      )
      (convert_digits-numeral base ceiling (acc * base + d) h k m more)

-- How a text is read: spaces, a plus sign, a base, digits of the base, and what is left.
pub record Reads (text : List ℕ) (base chosen : ℕ) (ds rest : List ℕ) : Type 0 where
  pub cursor : List ℕ
  pub unsigned : List ℕ
  pub first : List ℕ
  pub spaces : skip_spaces text ≡ some cursor
  pub plus : skip_plus cursor ≡ some unsigned
  pub based : choose_base base unsigned ≡ some (chosen, first)
  pub some_base : 1 ≤ chosen
  pub digits : Digits chosen first ds rest

pub convert_unsigned-numeral :
    (text : List ℕ) (base chosen ceiling : ℕ) (ds rest : List ℕ)
    → Reads text base chosen ds rest
    → 35 ≤ ceiling
    → ceiling < 2 ^ 64
    → convert_unsigned text base ceiling
      ≡ some (record {
        value = u64 (numeral chosen 0 ds);
        rest = rest;
        overflow = ltb ceiling (numeral chosen 0 ds);
      })
unfolding convert_unsigned
convert_unsigned-numeral text base chosen ceiling ds rest r h k =
    rw (r.spaces, r.plus, r.based)
      (rw (none_yet ceiling h) at
        (convert_digits-numeral chosen ceiling 0 r.some_base h k r.digits))
  where
    none_yet : (ceiling : ℕ) → 35 ≤ ceiling → ltb ceiling 0 ≡ false
    none_yet ceiling h = ground arith

-- `strtoul` gives the numeral that the text holds, cut to 64 bits and not saturated, the place where
-- the digits end, and ERANGE exactly when the numeral does not fit.
pub strtoul-numeral :
    (text : List ℕ) (base chosen : ℕ) (ds rest : List ℕ)
    → Reads text base chosen ds rest
    → strtoul text base
      ≡ some (record {
        value = numeral chosen 0 ds % 2 ^ 64;
        rest = rest;
        erange = ltb ulong_max (numeral chosen 0 ds);
      })
unfolding strtoul
strtoul-numeral text base chosen ds rest r =
    rw (convert_unsigned-numeral text base chosen ulong_max ds rest r (omega arith) (omega arith))
      refl
