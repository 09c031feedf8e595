-- ===== src/Runtime/Convert/Signed.antt =====
-- `strtol` of src/runtime/target_stdlib.c.
use cc.Base.{ℕ, ◌+◌, ◌≡◌, refl, arith}
use cc.Base.{true, false, ◌==◌, ltb, if◌then◌else◌}
use cc.Base.{some, List, [], ◌∷◌}
use cc.Runtime.Convert.{Result, strtol, signed_result, sign_of, long_max, long_min}
use cc.Runtime.Convert.{skip_spaces, skip_plus, choose_base, convert_unsigned, convert_digits}
use cc.Runtime.Convert.{next_digit, digit_of, hex_prefix}
use cc.Runtime.Convert.Unsigned.{Reads, numeral, convert_unsigned-numeral}

-- The value that a signed conversion gives for a numeral with no minus sign.
abbrev pub clamped : ℕ → List ℕ → Result
clamped n rest =
    if ltb long_max n
    then record { value = long_max; rest = rest; erange = true }
    else record { value = n; rest = rest; erange = false }

-- Without a minus sign `strtol` gives the numeral of the text where it is at most LONG_MAX, and
-- else LONG_MAX with ERANGE.
pub strtol-clamped :
    (text : List ℕ) (base chosen : ℕ) (ds rest : List ℕ)
    → (r : Reads text base chosen ds rest) → sign_of r.cursor ≡ false
    → strtol text base ≡ some (clamped (numeral chosen 0 ds) rest)
unfolding strtol signed_result
strtol-clamped text base chosen ds rest r plain =
    rw
      (
        r.spaces,
        plain,
        convert_unsigned-numeral text base chosen (long_max + 1) ds rest r (omega arith)
            (omega arith),
      )
      (ground arith)

minus_base :
    (base : ℕ) (rest : List ℕ) → (b : ℕ) × (choose_base base (b'-' ∷ rest) ≡ some (b, b'-' ∷ rest))
unfolding choose_base hex_prefix
minus_base base [] = ((if base == 0 then 10 else base), ground arith)
minus_base base (c ∷ cs) = ((if base == 0 then 10 else base), ground arith)

-- A text that begins with a minus sign, behind its spaces, is never converted: whatever follows,
-- `strtol` answers the most negative value without ERANGE, and its end pointer is at the sign.
pub strtol-minus :
    (text rest : List ℕ) (base : ℕ)
    → skip_spaces text ≡ some (b'-' ∷ rest)
    → strtol text base ≡ some (record { value = long_min; rest = b'-' ∷ rest; erange = false })
unfolding strtol signed_result sign_of convert_unsigned skip_plus convert_digits next_digit digit_of
strtol-minus text rest base e = let (b, chosen) = minus_base base rest in rw (e, chosen) refl
