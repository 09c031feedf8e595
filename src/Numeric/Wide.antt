-- ===== src/Numeric/Wide.antt =====
-- The 128-bit words of src/frontend/numeric.c.
use cc.Base.{ℕ, zero, suc, ◌+◌, ◌-◌, ◌*◌, ◌^◌, Bool, not, ◌||◌, ◌==◌}
use cc.Base.{ltb, leb, if◌then◌else◌, u64, ◌<<<◌, ◌>>>◌, bit_and, bit_or}

pub record Wide : Type 0 where
  pub high : ℕ
  pub low : ℕ

-- The loop, with `fuel` rounds to go; a word has at most 64.
unfoldable pub bit_length_from : ℕ → ℕ → ℕ
bit_length_from zero value = 0
bit_length_from (suc fuel) value =
    let more = bit_length_from fuel (value >>> 1) in if value == 0 then 0 else suc more

unfoldable pub bit_length : ℕ → ℕ
bit_length value = bit_length_from 64 value

unfoldable pub wide_from_u64 : ℕ → Wide
wide_from_u64 value = record { high = 0; low = value }

unfoldable pub wide_shift_left : Wide → ℕ → Wide
wide_shift_left value bits =
    if bits == 0
    then value
    else if leb 128 bits
    then record { high = 0; low = 0 }
    else if leb 64 bits
    then record { high = u64 (value.low <<< (bits - 64)); low = 0 }
    else record {
      high = bit_or (u64 (value.high <<< bits)) (value.low >>> (64 - bits));
      low = u64 (value.low <<< bits);
    }

unfoldable pub wide_bit : Wide → ℕ → ℕ
wide_bit value bit = bit_and ((if leb 64 bit then value.high else value.low) >>> bit_and bit 63) 1

-- A round of the division at `bit`: the remainder before it is taken off, and whether it is.
unfoldable pub shifted_rest : ℕ → ℕ → ℕ
shifted_rest rest source = bit_or (u64 (rest <<< 1)) source

unfoldable pub takes : ℕ → ℕ → ℕ → Bool
takes rest source divisor = not (rest >>> 63 == 0) || leb divisor (shifted_rest rest source)

-- `rest -= divisor`, modulo 2 ^ 64.
abbrev pub less : ℕ → ℕ → ℕ
less rest divisor = u64 (rest + (2 ^ 64 - divisor))

unfoldable pub set_bit : Wide → ℕ → Wide
set_bit result bit =
    if ltb bit 64
    then record result { low = bit_or result.low (1 <<< bit) }
    else record result { high = bit_or result.high (1 <<< (bit - 64)) }

-- The loop with `left` bits to go, down from bit `left - 1`.
unfoldable pub divide_loop : ℕ → Wide → ℕ → Wide → ℕ → Wide × ℕ
divide_loop zero value divisor result rest = (result, rest)
divide_loop (suc bit) value divisor result rest =
    let source = wide_bit value bit in
    let shifted = shifted_rest rest source in
    let take = takes rest source divisor in
    divide_loop bit value divisor (if take then set_bit result bit else result)
      (if take then less shifted divisor else shifted)

unfoldable pub wide_divide : Wide → ℕ → Wide × ℕ
wide_divide value divisor = divide_loop 128 value divisor (record { high = 0; low = 0 }) 0

abbrev pub low_word : ℕ → ℕ
low_word value = bit_and value 0xffff_ffff

-- The middle column, and what is carried out of it into the upper word.
unfoldable pub middle_sum : ℕ → ℕ → ℕ → ℕ
middle_sum p0 p1 p2 = u64 (u64 (low_word p1 + low_word p2) + (p0 >>> 32))

unfoldable pub middle_carry : ℕ → ℕ → ℕ → ℕ
middle_carry p1 p2 sum = u64 (u64 ((p1 >>> 32) + (p2 >>> 32)) + (sum >>> 32))

unfoldable pub low_product : ℕ → ℕ → ℕ
low_product p0 sum = bit_or (low_word p0) (u64 (low_word sum <<< 32))

unfoldable pub high_product : ℕ → ℕ → ℕ
high_product p3 carry =
    let sum = u64 (low_word p3 + carry) in
    bit_or (low_word sum) (u64 (u64 ((p3 >>> 32) + (sum >>> 32)) <<< 32))

-- The four products of 32-bit words put together.
unfoldable pub join_products : ℕ → ℕ → ℕ → ℕ → Wide
join_products p0 p1 p2 p3 =
    let sum = middle_sum p0 p1 p2 in
    record { low = low_product p0 sum; high = high_product p3 (middle_carry p1 p2 sum) }

unfoldable pub wide_multiply : ℕ → ℕ → Wide
wide_multiply left right =
    join_products (u64 (low_word left * low_word right)) (u64 (low_word left * (right >>> 32)))
      (u64 ((left >>> 32) * low_word right)) (u64 ((left >>> 32) * (right >>> 32)))
