-- ===== src/Linker/Word.antt =====
-- The word that a PC-relative relocation of src/linker/linker.c leaves in the payload.
use cc.Base.{ℕ, ◌+◌, ◌-◌, ◌%◌, ◌^◌, ◌≤◌, ◌<◌, ◌≡◌, refl, arith, inl, inr}
use cc.Base.{Option, none, some, List, length, ltb, leb, if◌then◌else◌, not, true, false}
use cc.Base.{
  Bool, Bool-cases, leb→le, subst, sym, u64, ℤ, pos, negsuc, pos_part, neg_part, sub_ℕ, ◌-ℤ◌,
  to_int64,
}
use cc.Base.{int64_max, int32_max}
use cc.Linker.Bytes.{write_u32}
use cc.Linker.RoundTrip.{Puts, PutsSome, put_bytes-Puts}
use cc.Linker.Objects.{LinkRelocation, Link, failed, stray, done}
use cc.Linker.Relocate.{Applied, checked_add_signed, word_of, written, fits_int32, pc_target}
use cc.Linker.Signed.{Sums, checked_add_signed-Sums, checked_add_signed-mod}

-- A difference that fits in 32 bits, as a word.
word_of-sub :
    (t p : ℕ)
    → fits_int32 (sub_ℕ (t + 0) (0 + p)) ≡ true
    → (word_of (sub_ℕ (t + 0) (0 + p)) + p) % 2 ^ 32 ≡ t % 2 ^ 32
word_of-sub t p h = elim (Bool-cases (leb (0 + p) (t + 0))) [
  | inl e ↦ rw e (omega (arith, leb→le (0 + p) (t + 0) e))
  | inr e ↦
      let f : leb (0 + p - (t + 0) - 1) int32_max ≡ true = rw e at h in
      let g : t < p = ground arith in rw e (omega (arith, leb→le _ _ f))
]

-- From the place to the sum it is at most 2 ^ 31 - 1 forward, or 2 ^ 31 back.
abbrev pub Near : ℕ → ℕ → Type 0
Near s place = (s < place + 2 ^ 31) × (place ≤ s + 2 ^ 31)

fits_int32-Near : (s p : ℕ) → fits_int32 (sub_ℕ (s + 0) (0 + p)) ≡ true → Near s p
fits_int32-Near s p h = elim (Bool-cases (leb (0 + p) (s + 0))) [
  | inl e ↦
      let f : leb (s + 0 - (0 + p)) int32_max ≡ true = rw e at h in
      (omega (arith, leb→le _ _ e, leb→le _ _ f), omega (arith, leb→le _ _ e))
  | inr e ↦
      let f : leb (0 + p - (s + 0) - 1) int32_max ≡ true = rw e at h in
      let g : s < p = ground arith in (omega (arith, g), omega (arith, g, leb→le _ _ f))
]

Near-fits_int32 : (s p : ℕ) → Near s p → fits_int32 (sub_ℕ (s + 0) (0 + p)) ≡ true
Near-fits_int32 s p (a, b) = elim (Bool-cases (leb (0 + p) (s + 0))) [
  | inl e ↦ rw e (ground arith)
  | inr e ↦ rw e (ground arith)
]

-- No sum from 0 to INT64_MAX is within 32 bits of the place.
abbrev pub OutOfReach : ℕ → ℤ → ℕ → Type 0
OutOfReach value addend place =
    (s : ℕ) → s + neg_part addend ≡ value + pos_part addend → s ≤ int64_max → Near s place → ⊥

-- The step is refused where it has to be, or leaves the difference of a sum, as checked_add_signed gives
-- it, and the place behind the word, which fits in a signed word of 32 bits.
abbrev pub Links : ℕ → ℤ → ℕ → Applied → Link Applied → Type 0
Links value addend position a (failed id) = (id ≡ 5024) × OutOfReach value addend (position + 4)
Links value addend position a stray = ⊥
Links value addend position a (done b) =
    (word : ℕ) × Puts a.payload position word 0 4 b.payload
    × ((word + (position + 4) + neg_part addend) % 2 ^ 32 ≡ (value + pos_part addend) % 2 ^ 32)
    × ((sum : ℕ) × Sums value addend (some (pos sum))
        × Near sum (position + 4)
        × ((word + (position + 4)) % 2 ^ 32 ≡ sum % 2 ^ 32))
    × (b.table ≡ a.table)

written-Links :
    (value : ℕ) (addend : ℤ) (position word sum : ℕ) (a : Applied) (o : Option (List ℕ))
    → PutsSome a.payload position word 0 4 o
    → ((word + (position + 4) + neg_part addend) % 2 ^ 32 ≡ (value + pos_part addend) % 2 ^ 32)
    → Sums value addend (some (pos sum))
    → Near sum (position + 4)
    → ((word + (position + 4)) % 2 ^ 32 ≡ sum % 2 ^ 32)
    → Links value addend position a (written a o)
unfolding written
written-Links value addend position word sum a none h e s n w = absurd h
written-Links value addend position word sum a (some b) h e s n w =
    (word, h, e, (sum, s, n, w), refl)

target-Links :
    (value : ℕ) (addend : ℤ) (position : ℕ) (a : Applied) (reloc : LinkRelocation)
    (target : Option ℤ)
    → reloc.width ≡ 4
    → position + 4 ≤ length a.payload
    → length a.payload < 2 ^ 63
    → Sums value addend target
    → Links value addend position a (pc_target a reloc position target)
unfolding pc_target write_u32
target-Links value addend position a reloc none w room small sums =
    (refl, λ s e le k. elim sums [ inl h ↦ omega arith | inr h ↦ omega arith ])
target-Links value addend position a reloc (some (negsuc t)) w room small sums = absurd sums
target-Links value addend position a reloc (some (pos t)) w room small sums =
    subst
      (λ r. Links value addend position a (
        if not (fits_int32 r)
        then failed 5024
        else written a (write_u32 a.payload position (word_of r))))
      (sym result) (in_range _ refl)
  where
    place : u64 (position + reloc.width) ≡ position + 4
    place = omega arith

    result : pos t -ℤ to_int64 (u64 (position + reloc.width)) ≡ sub_ℕ (t + 0) (0 + (position + 4))
    result = let e : ltb (position + 4) (2 ^ 63) ≡ true = ground arith in rw (place, e) refl

    in_range :
        (b : Bool)
        → fits_int32 (sub_ℕ (t + 0) (0 + (position + 4))) ≡ b
        → Links value addend position a (
            if not b
            then failed 5024
            else written a
                (write_u32 a.payload position (word_of (sub_ℕ (t + 0) (0 + (position + 4))))))
    in_range false e = (
      refl,
      λ s f le k. elim sums [
        | inl h ↦
            let same : s ≡ t = omega arith in
            let g : fits_int32 (sub_ℕ (s + 0) (0 + (position + 4))) ≡ false = rw same e in
            cc (g, Near-fits_int32 s (position + 4) k)
        | inr h ↦ omega arith
      ],
    )
    in_range true e =
        written-Links value addend position (word_of (sub_ℕ (t + 0) (0 + (position + 4)))) t a _
          (put_bytes-Puts 4 0 a.payload position (word_of (sub_ℕ (t + 0) (0 + (position + 4))))
            (omega arith))
          (omega (
            arith,
            word_of-sub t (position + 4) e,
            (checked_add_signed-mod value addend (pos t) sums).1,
          ))
          sums (fits_int32-Near t (position + 4) e) (word_of-sub t (position + 4) e)

-- At a place inside a payload below 2 ^ 63 bytes, a PC-relative relocation of a word and an addend of 64
-- bits puts the word there that is the sum of the value and the addend, as checked_add_signed gives it,
-- less the place behind the word, where that difference fits in a signed word of 32 bits, and changes
-- nothing else; or it is refused with the diagnostic 5024, and then no sum from 0 to INT64_MAX is within
-- 32 bits of that place.
pub pc_target-Links :
    (value position : ℕ) (a : Applied) (reloc : LinkRelocation)
    → reloc.width ≡ 4
    → position + 4 ≤ length a.payload
    → length a.payload < 2 ^ 63
    → value < 2 ^ 64
    → pos_part reloc.addend ≤ int64_max
    → neg_part reloc.addend ≤ 2 ^ 63
    → Links value reloc.addend position a
        (pc_target a reloc position (checked_add_signed value reloc.addend))
pc_target-Links value position a reloc w room small v p n =
    target-Links value reloc.addend position a reloc _ w room small
      (checked_add_signed-Sums value reloc.addend v p n)
