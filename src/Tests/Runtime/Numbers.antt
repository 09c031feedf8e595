-- ===== src/Tests/Runtime/Numbers.antt =====
-- The integer conversions of src/runtime/target_stdlib.c on short texts.
use cc.Base.{ℕ, ◌≡◌, refl, arith, false, some, List, [], ◌∷◌}
use cc.Runtime.Convert.{strtoul, strtol, sign_of, long_min}
use cc.Runtime.Convert.{
  skip_spaces, isspace, choose_base, hex_prefix, next_digit, digit_of, skip_plus,
}
use cc.Runtime.Convert.Unsigned.{stop, digit, Reads, numeral, strtoul-numeral}
use cc.Runtime.Convert.Signed.{clamped, strtol-clamped, strtol-minus}

-- ` 0x1F;`
abbrev hex_text : List ℕ
hex_text = 32 ∷ 48 ∷ 120 ∷ 49 ∷ 70 ∷ 59 ∷ 0 ∷ []

hex_reading : Reads hex_text 0 16 (1 ∷ 15 ∷ []) (59 ∷ 0 ∷ [])
unfolding skip_spaces isspace choose_base hex_prefix next_digit digit_of skip_plus
hex_reading = record {
  cursor = 48 ∷ 120 ∷ 49 ∷ 70 ∷ 59 ∷ 0 ∷ [];
  unsigned = 48 ∷ 120 ∷ 49 ∷ 70 ∷ 59 ∷ 0 ∷ [];
  first = 49 ∷ 70 ∷ 59 ∷ 0 ∷ [];
  spaces = refl;
  plus = refl;
  based = refl;
  some_base = omega arith;
  digits = digit 49 1 refl (digit 70 15 refl (stop 59 (0 ∷ []) refl));
}

strtoul-numeral_example :
    strtoul hex_text 0 ≡ some (record { value = 31; rest = 59 ∷ 0 ∷ []; erange = false })
strtoul-numeral_example = strtoul-numeral hex_text 0 16 (1 ∷ 15 ∷ []) (59 ∷ 0 ∷ []) hex_reading

strtol-clamped_example :
    strtol hex_text 0 ≡ some (clamped (numeral 16 0 (1 ∷ 15 ∷ [])) (59 ∷ 0 ∷ []))
unfolding hex_reading sign_of
strtol-clamped_example = strtol-clamped hex_text 0 16 (1 ∷ 15 ∷ []) (59 ∷ 0 ∷ []) hex_reading refl

-- ` -5`
abbrev minus_five : List ℕ
minus_five = 32 ∷ 45 ∷ 53 ∷ 0 ∷ []

minus_five_spaces : skip_spaces minus_five ≡ some (45 ∷ 53 ∷ 0 ∷ [])
unfolding skip_spaces isspace
minus_five_spaces = refl

strtol-minus_example :
    strtol minus_five 10
    ≡ some (record { value = long_min; rest = 45 ∷ 53 ∷ 0 ∷ []; erange = false })
strtol-minus_example = strtol-minus minus_five (53 ∷ 0 ∷ []) 10 minus_five_spaces
