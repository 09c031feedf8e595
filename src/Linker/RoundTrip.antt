-- ===== src/Linker/RoundTrip.antt =====
-- What the writer of src/backend/object.c puts is what the linker of src/linker/linker.c reads.
use cc.Base.{ℕ, zero, suc, ◌+◌, ◌*◌, ◌/◌, ◌%◌, ◌^◌, ◌≤◌, ◌<◌, ◌≡◌, refl, arith, sym, ap, ◌∙◌, subst}
use cc.Base.{Option, none, some, List, length, get_elem?, set, u8, u64, ◌<<<◌, ◌>>>◌, bit_or}
use cc.Base.{
  length-set, get_elem?-set_self, get_elem?-set_ne, lt→ltb, ◌⊎◌, Bool-cases, inl, inr, ◌==◌,
}
use native.Mathlib.Nat.{
  div-add-mod, div-div-eq-div-mul, mul-le-mul, pow-le-pow_right, one-le-pow, mod-lt,
}
use cc.Base.Bits.{bit_or_low, power_add}
use cc.Runtime.Memory.{store}
use cc.Linker.Bytes.{put_bytes, put_u64, read_bytes, read_u64}

-- The bytes of a value from `at` on; nothing else has changed.
pub record Puts (file : List ℕ) (at value from count : ℕ) (file' : List ℕ) : Type 0 where
  pub same_length : length file' ≡ length file
  pub bytes :
      (j : ℕ)
      → from ≤ j
      → j < from + count
      → get_elem? file' (at + j) ≡ some (u8 (value >>> (j * 8)))
  pub others :
      (j : ℕ)
      → (j < at + from → get_elem? file' j ≡ get_elem? file j)
        × (at + from + count ≤ j → get_elem? file' j ≡ get_elem? file j)

abbrev pub PutsSome : List ℕ → ℕ → ℕ → ℕ → ℕ → Option (List ℕ) → Type 0
PutsSome file at value from count none = ⊥
PutsSome file at value from count (some file') = Puts file at value from count file'

put_step :
    (file : List ℕ) (at value i left : ℕ) (o : Option (List ℕ))
    → at + i < length file
    → PutsSome (set file (at + i) (u8 (value >>> (i * 8)))) at value (suc i) left o
    → PutsSome file at value i (suc left) o
put_step file at value i left none room h = h
put_step file at value i left (some file') room h =
    let byte = u8 (value >>> (i * 8)) in
    record {
      same_length = h.same_length ∙ length-set file (at + i) byte;
      bytes = λ j lo hi. elim (Bool-cases (j == i)) [
        | inl here ↦
            let p : j ≡ i = ground arith in
            subst (λ n. get_elem? file' (at + n) ≡ some (u8 (value >>> (n * 8)))) (sym p)
              ((h.others (at + i)).0 (omega arith) ∙ get_elem?-set_self file (at + i) byte room)
        | inr later ↦ h.bytes j (ground (arith, later, lo)) (omega arith)
      ];
      others = λ j. (
        λ below.
            (h.others j).0 (omega arith)
            ∙ get_elem?-set_ne file (at + i) j byte (λ e. omega (arith, e)),
        λ above.
            (h.others j).1 (omega arith)
            ∙ get_elem?-set_ne file (at + i) j byte (λ e. omega (arith, e)),
      );
    }

pub put_bytes-Puts :
    (left i : ℕ) (file : List ℕ) (at value : ℕ)
    → at + i + left ≤ length file
    → PutsSome file at value i left (put_bytes left i file at value)
unfolding put_bytes store
put_bytes-Puts zero i file at value room = record {
  same_length = refl;
  bytes = λ j lo hi. absurd (omega arith);
  others = λ j. (λ b. refl, λ b. refl);
}
put_bytes-Puts (suc left) i file at value room =
    let inside : at + i < length file = omega arith in
    rw (lt→ltb (at + i) (length file) inside) (
      put_step file at value i left _ inside (
        put_bytes-Puts left (suc i) (set file (at + i) (u8 (value >>> (i * 8)))) at value
          (omega (arith, length-set file (at + i) (u8 (value >>> (i * 8)))))))

-- The low bytes of a value grow by one byte.
mod_step : (v p : ℕ) → 0 < p → v % (p * 256) ≡ v % p + u8 (v / p) * p
mod_step v p h = omega (
  arith,
  div-add-mod v p,
  div-add-mod v (p * 256),
  ap (λ (t : ℕ). p * 256 * t) (div-div-eq-div-mul v p 256),
  ap (λ (t : ℕ). p * t) (div-add-mod (v / p) 256),
)

byte_fits : (b i : ℕ) → b < 256 → i < 8 → u64 (b <<< (i * 8)) ≡ b <<< (i * 8)
byte_fits b i h k = omega (
  arith,
  mul-le-mul {n₁ = b} {m₁ = 2 ^ (i * 8)} {n₂ = 255} {m₂ = 2 ^ 56} (omega arith)
      (pow-le-pow_right {n = 2} (omega arith) {i = i * 8} {j = 56} (omega arith)),
)

next_power : (i : ℕ) → 2 ^ (i * 8) * 256 ≡ 2 ^ (suc i * 8)
next_power i =
    power_add (i * 8) 8 ∙ ap (λ (t : ℕ). 2 ^ t) {x = 8 + i * 8} {y = suc i * 8} (omega arith)

read_step :
    (v i : ℕ)
    → i < 8
    → bit_or (v % 2 ^ (i * 8)) (u64 (u8 (v >>> (i * 8)) <<< (i * 8))) ≡ v % 2 ^ (suc i * 8)
read_step v i h =
    let p = one-le-pow (i * 8) 2 in
    ap (bit_or (v % 2 ^ (i * 8))) (byte_fits (u8 (v >>> (i * 8))) i (omega arith) h)
    ∙ bit_or_low (i * 8) (v % 2 ^ (i * 8)) (u8 (v >>> (i * 8))) (mod-lt v (omega (arith, p)))
    ∙ sym (mod_step v (2 ^ (i * 8)) (omega (arith, p)))
    ∙ ap (λ (t : ℕ). v % t) (next_power i)

read_bytes-value :
    (left i : ℕ) (file : List ℕ) (at v : ℕ)
    → i + left ≤ 8
    → ((j : ℕ) → i ≤ j → j < i + left → get_elem? file (at + j) ≡ some (u8 (v >>> (j * 8))))
    → read_bytes left i file at (v % 2 ^ (i * 8)) ≡ some (v % 2 ^ ((i + left) * 8))
unfolding read_bytes
read_bytes-value zero i file at v h bytes =
    ap (λ (n : ℕ). some (v % 2 ^ (n * 8))) {y = i + 0} (omega arith)
read_bytes-value (suc left) i file at v h bytes =
    rw (bytes i (omega arith) (omega arith), read_step v i (omega arith))
      (read_bytes-value left (suc i) file at v (omega arith)
          (λ j lo hi. bytes j (omega arith) (omega arith))
        ∙ ap (λ (n : ℕ). some (v % 2 ^ (n * 8))) {x = suc i + left} {y = i + suc left}
            (omega arith))

-- The result of writing a value: it is read back, and the rest of the file is as it was.
pub record WritesBack (file : List ℕ) (at value : ℕ) (file' : List ℕ) : Type 0 where
  pub reads : read_u64 file' at ≡ some value
  pub same_length : length file' ≡ length file
  pub others : (j : ℕ) → (j < at) ⊎ (at + 8 ≤ j) → get_elem? file' j ≡ get_elem? file j

abbrev pub WritesBackSome : List ℕ → ℕ → ℕ → Option (List ℕ) → Type 0
WritesBackSome file at value none = ⊥
WritesBackSome file at value (some file') = WritesBack file at value file'

written_back :
    (file : List ℕ) (at value : ℕ) (o : Option (List ℕ))
    → value < 2 ^ 64
    → PutsSome file at value 0 8 o
    → WritesBackSome file at value o
unfolding read_u64
written_back file at value none small h = h
written_back file at value (some file') small h = record {
  reads =
      ap (read_bytes 8 0 file' at) {x = 0} {y = value % 2 ^ (0 * 8)} (omega arith)
      ∙ read_bytes-value 8 0 file' at value (omega arith) h.bytes
      ∙ ap some (omega arith);
  same_length = h.same_length;
  others = λ j where_. elim where_ [
    | inl below ↦ (h.others j).0 (omega arith)
    | inr above ↦ (h.others j).1 (omega arith)
  ];
}

-- Where eight bytes are inside the file, `put_u64` of the writer is done, `read_u64` of the linker then
-- reads the value at the same place, and every other byte is as it was.
pub read_u64-put_u64 :
    (file : List ℕ) (at value : ℕ)
    → at + 8 ≤ length file
    → value < 2 ^ 64
    → WritesBackSome file at value (put_u64 file at value)
unfolding put_u64
read_u64-put_u64 file at value room small =
    written_back file at value (put_bytes 8 0 file at value) small
      (put_bytes-Puts 8 0 file at value (omega arith))
