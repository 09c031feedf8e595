-- ===== src/Runtime/Convert.antt =====
-- Character classes and integer conversions: src/runtime/target_ctype.c, and the `strtoul` family and
-- the generator of src/runtime/target_stdlib.c. Text is the list of bytes from the pointer on, with a
-- terminator; the end pointer is what is left of it, and `none` is a read past the list.
pub mod Unsigned
pub mod Signed
use cc.Base.{ℕ, zero, suc, ◌+◌, ◌-◌, ◌*◌, ◌/◌, ◌%◌, ◌^◌, Bool, true, false, not, ◌&&◌, ◌||◌}
use cc.Base.{
  Option, none, some, List, [], ◌∷◌, ◌==◌, ltb, leb, if◌then◌else◌, ◌>>=◌, u32, u64, ◌>>>◌,
}
use cc.Base.{bit_and}

abbrev pub within : ℕ → ℕ → ℕ → Bool
within lo hi c = leb lo c && leb c hi

unfoldable pub isdigit : ℕ → Bool
isdigit c = within b'0' b'9' c

unfoldable pub isxdigit : ℕ → Bool
isxdigit c =
    if within b'0' b'9' c
    then true
    else if within b'a' b'f' c
    then true
    else if within b'A' b'F' c
    then true
    else false

unfoldable pub islower : ℕ → Bool
islower c = within b'a' b'z' c

unfoldable pub isupper : ℕ → Bool
isupper c = within b'A' b'Z' c

unfoldable pub isalpha : ℕ → Bool
unfolding islower isupper
isalpha c = islower c || isupper c

unfoldable pub isalnum : ℕ → Bool
unfolding isalpha isdigit
isalnum c = isalpha c || isdigit c

-- Space, tab, newline, return, vertical tab, form feed.
unfoldable pub isspace : ℕ → Bool
isspace c = c == 32 || c == 9 || c == 10 || c == 13 || c == 11 || c == 12

unfoldable pub isblank : ℕ → Bool
isblank c = c == 32 || c == 9

-- On characters, which are not negative.
unfoldable pub iscntrl : ℕ → Bool
iscntrl c = ltb c 32 || c == 127

unfoldable pub isprint : ℕ → Bool
isprint c = leb 32 c && ltb c 127

unfoldable pub isgraph : ℕ → Bool
isgraph c = ltb 32 c && ltb c 127

unfoldable pub ispunct : ℕ → Bool
unfolding isgraph isalnum
ispunct c = isgraph c && not (isalnum c)

unfoldable pub tolower : ℕ → ℕ
unfolding isupper
tolower c = if isupper c then c + 32 else c

unfoldable pub toupper : ℕ → ℕ
unfolding islower
toupper c = if islower c then c - 32 else c

-- The chain of tests on a byte; `none` is the digit -1.
unfoldable pub digit_of : ℕ → Option ℕ
digit_of byte =
    if within b'0' b'9' byte
    then some (byte - b'0')
    else if within b'a' b'z' byte
    then some (byte - b'a' + 10)
    else if within b'A' b'Z' byte
    then some (byte - b'A' + 10)
    else none

pub record Conversion : Type 0 where
  pub value : ℕ
  pub rest : List ℕ
  pub overflow : Bool

-- `value > (ceiling - digit) / base`
abbrev pub passes : ℕ → ℕ → ℕ → ℕ → Bool
passes base ceiling value digit = ltb ((ceiling - digit) / base) value

-- A digit below the base, or `none` to leave the loop.
unfoldable pub next_digit : ℕ → ℕ → Option ℕ
next_digit base byte = elim (digit_of byte) [
  | none ↦ none
  | some digit ↦ if leb base digit then none else some digit
]

-- The loop over the digits.
unfoldable pub convert_digits : ℕ → ℕ → ℕ → Bool → List ℕ → Option Conversion
convert_digits base ceiling value overflow [] = none
convert_digits base ceiling value overflow (byte ∷ rest) = elim (next_digit base byte) [
  | none ↦ some (record { value = value; rest = byte ∷ rest; overflow = overflow })
  | some digit ↦
      convert_digits base ceiling (u64 (u64 (value * base) + digit))
        (if passes base ceiling value digit then true else overflow) rest
]

unfoldable pub skip_spaces : List ℕ → Option (List ℕ)
skip_spaces [] = none
skip_spaces (c ∷ cs) = let more = skip_spaces cs in if isspace c then more else some (c ∷ cs)

unfoldable pub skip_plus : List ℕ → Option (List ℕ)
skip_plus [] = none
skip_plus (c ∷ cs) = some (if c == b'+' then cs else c ∷ cs)

-- `cursor[0] == '0' && (cursor[1] == 'x' || cursor[1] == 'X')`
unfoldable pub hex_prefix : List ℕ → Option Bool
hex_prefix [] = none
hex_prefix (c ∷ []) = if c == b'0' then none else some false
hex_prefix (c ∷ x ∷ cs) = some (c == b'0' && (x == b'x' || x == b'X'))

abbrev pub drop_two : List ℕ → List ℕ
drop_two [] = []
drop_two (c ∷ []) = []
drop_two (c ∷ x ∷ cs) = cs

-- `cursor[0] == '0' ? 8 : 10`
abbrev pub leading_base : List ℕ → ℕ
leading_base [] = 10
leading_base (c ∷ cs) = if c == b'0' then 8 else 10

-- The base that holds and where the digits begin.
unfoldable pub choose_base : ℕ → List ℕ → Option (ℕ × List ℕ)
choose_base base cursor =
    (if base == 0 || base == 16 then hex_prefix cursor else some false) >>= λ hex. some (
      if hex
      then (16, drop_two cursor)
      else if base == 0
      then (leading_base cursor, cursor)
      else (base, cursor))

unfoldable pub convert_unsigned : List ℕ → ℕ → ℕ → Option Conversion
convert_unsigned text base ceiling = skip_spaces text >>= λ cursor. skip_plus cursor >>= λ cursor'.
    choose_base base cursor' >>= λ chosen. convert_digits chosen.0 ceiling 0 false chosen.1

abbrev pub ulong_max : ℕ
ulong_max = 0xffff_ffff_ffff_ffff

abbrev pub long_max : ℕ
long_max = 0x7fff_ffff_ffff_ffff

-- The bit pattern of the most negative value.
abbrev pub long_min : ℕ
long_min = 0x8000_0000_0000_0000

-- A value as 64 bits, the end pointer, and whether `errno` was set to ERANGE.
pub record Result : Type 0 where
  pub value : ℕ
  pub rest : List ℕ
  pub erange : Bool

unfoldable pub strtoul : List ℕ → ℕ → Option Result
strtoul text base = convert_unsigned text base ulong_max >>= λ c.
    some (record { value = c.value; rest = c.rest; erange = c.overflow })

unfoldable pub sign_of : List ℕ → Bool
sign_of [] = false
sign_of (c ∷ cs) = c == b'-'

-- The end of `strtol`, on what `convert_unsigned` gave.
unfoldable pub signed_result : Bool → Conversion → Result
signed_result negative c =
    if c.overflow
    then record { value = if negative then long_min else long_max; rest = c.rest; erange = true }
    else if negative
    then (if ltb (long_max + 1) c.value
        then record { value = long_min; rest = c.rest; erange = true }
        else record { value = u64 (long_min + c.value); rest = c.rest; erange = false })
    else if ltb long_max c.value
    then record { value = long_max; rest = c.rest; erange = true }
    else record { value = c.value; rest = c.rest; erange = false }

unfoldable pub strtol : List ℕ → ℕ → Option Result
strtol text base = skip_spaces text >>= λ cursor.
    convert_unsigned text base (long_max + 1) >>= λ c. some (signed_result (sign_of cursor) c)

-- `(int)strtol(text, NULL, 10)`, as 32 bits.
unfoldable pub atoi : List ℕ → Option ℕ
atoi text = strtol text 10 >>= λ r. some (u32 r.value)

-- The value and the state `next_random`.
unfoldable pub rand : ℕ → ℕ × ℕ
rand next_random =
    let next = u64 (u64 (next_random * 1103515245) + 12345) in (bit_and (next >>> 16) 0x7fff, next)

unfoldable pub srand : ℕ → ℕ
srand seed = seed
