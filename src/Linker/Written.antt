-- ===== src/Linker/Written.antt =====
-- When write_linked_image of src/linker/linker.c makes an MZ64 image, and which.
use native.Mathlib.Nat.{mod-eq_of_lt}
use cc.Base.{ℕ, zero, suc, ◌+◌, ◌*◌, ◌^◌, ◌≤◌, ◌<◌, ◌≡◌, refl, arith, ap, ◌∙◌, ◌⊎◌, inl, inr}
use cc.Base.{Bool-cases, true, false, ◌||◌, some}
use cc.Base.{List, [], ◌∷◌, ◌++◌, length, ◌==◌, get_elem?, take, ltb, leb, u32, u32_max, u64}
use cc.Linker.Objects.{OutputSection, ImageRelocation, Link, failed, done}
use cc.Linker.Relocate.{image_mz64}
use cc.Linker.Image.{
  file_size_of, filled_image, sized_image, linked_image, linked_with, image_extents, wide_offset,
  image_limit,
}
use cc.Linker.Contents.{header, entries, zeros, put_image-fields}

-- The sizes that an MZ64 image may have.
pub record Fits (entry payload_size memory_size count : ℕ) : Type 0 where
  pub memory : memory_size ≤ 16 * 1024 * 1024
  pub inside : entry < payload_size
  pub file : 48 + payload_size + count * 16 < 2 ^ 32

abbrev pub fields : ℕ → List ℕ → ℕ → List ImageRelocation → List ℕ
fields entry payload memory_size rs =
    header (length payload) entry (length rs) (48 + length payload) memory_size
    ++ (payload ++ entries rs)

-- An image of these fields where the sizes fit, and a refusal where they do not.
abbrev pub Writes : ℕ → List ℕ → ℕ → List ImageRelocation → Link (List ℕ) → Type 0
Writes entry payload memory_size rs result =
    (Fits entry (length payload) memory_size (length rs)
      × (result ≡ done (fields entry payload memory_size rs)))
    ⊎ ((Fits entry (length payload) memory_size (length rs) → ⊥) × (result ≡ failed 5034))

filled_image-fields :
    (entry : ℕ) (payload : List ℕ) (memory_size : ℕ) (rs : List ImageRelocation)
    → Fits entry (length payload) memory_size (length rs)
    → filled_image image_mz64
        (zeros (48 + length payload + length rs * 16))
        entry
        payload
        memory_size
        rs
      ≡ some (fields entry payload memory_size rs)
unfolding filled_image
filled_image-fields entry payload memory_size rs fits =
    let p = length payload in
    let h = fits.inside in
    let k = fits.file in
    let a : u32 entry ≡ entry = mod-eq_of_lt (omega arith) in
    let b : u32 (length rs) ≡ length rs = mod-eq_of_lt (omega arith) in
    let c : u32 (48 + p) ≡ 48 + p = mod-eq_of_lt (omega arith) in
    put_image-fields entry payload memory_size rs ∙ rw (a, b, c) refl

large-absurd :
    (entry p memory_size n : ℕ)
    → (ltb image_limit memory_size || ltb u32_max p || leb p entry) ≡ true
    → Fits entry p memory_size n
    → ⊥
large-absurd entry p memory_size n e fits =
    let a = fits.memory in let b = fits.inside in let c = fits.file in ground arith

over-absurd :
    (entry p memory_size n : ℕ)
    → (ltb (48 + p + n * 16) p || ltb u32_max (48 + p + n * 16)) ≡ true
    → Fits entry p memory_size n
    → ⊥
over-absurd entry p memory_size n e fits = let c = fits.file in ground arith

sized_image-Writes :
    (first : OutputSection) (payload : List ℕ) (memory_size : ℕ) (rs : List ImageRelocation)
    → length rs < 2 ^ 59
    → Writes first.output_offset payload memory_size rs
        (sized_image true image_mz64 first payload memory_size rs)
unfolding sized_image file_size_of wide_offset
sized_image-Writes first payload memory_size rs few =
    let p = length payload in
    let n = length rs in
    let entry = first.output_offset in
    let size = 48 + p + n * 16 in
    let large = ltb image_limit memory_size || ltb u32_max p || leb p entry in
    elim (Bool-cases large) [
      | inl e ↦ rw e (inr (λ fits. large-absurd entry p memory_size n e fits, refl))
      | inr e ↦
          let s : p ≤ u32_max = ground arith in
          let m : memory_size ≤ image_limit = ground arith in
          let i : entry < p = ground arith in
          let whole : u64 size ≡ size = mod-eq_of_lt (omega (arith, s, few)) in
          let countable : ltb 1152921504606846975 n ≡ false = ground arith in
          let over = ltb size p || ltb u32_max size in
          elim (Bool-cases over) [
            | inl f ↦
                rw (e, countable, whole, f)
                  (inr (λ fits. over-absurd entry p memory_size n f fits, refl))
            | inr f ↦
                let fits : Fits entry p memory_size n = record {
                  memory = m;
                  inside = i;
                  file = ground arith;
                } in
                let near : ltb u32_max (48 + p) ≡ false = ground arith in
                let some_bytes : (size == 0) ≡ false = ground arith in
                rw
                  (
                    e,
                    countable,
                    whole,
                    f,
                    near,
                    some_bytes,
                    filled_image-fields entry payload memory_size rs fits,
                  )
                  (inl (fits, refl))
          ]
    ]

take-all : (n : ℕ) (xs : List ℕ) → length xs ≡ n → take n xs ≡ xs
take-all zero [] h = refl
take-all (suc n) [] h = refl
take-all zero (x ∷ xs) h = absurd (omega (arith, h))
take-all (suc n) (x ∷ xs) h = ap (λ t. x ∷ t) (take-all n xs (omega (arith, h)))

-- Where memory is granted, the outputs have sizes, the payload is as long as they say and there are
-- fewer than 2 ^ 59 relocations: the image of MZ64 that is written has the header, the payload and the
-- relocations, in this order and nothing else, when the memory is at most 16 MiB, the entry is inside
-- of the payload and the file is shorter than 2 ^ 32 bytes; in every other case it is refused with 5034.
pub linked_image-Writes :
    (outputs : List OutputSection) (payload : List ℕ) (rs : List ImageRelocation) (p m : ℕ)
    (first : OutputSection)
    → image_extents outputs ≡ some (p, m)
    → get_elem? outputs 0 ≡ some first
    → length payload ≡ p
    → length rs < 2 ^ 59
    → Writes first.output_offset payload m rs (linked_image true image_mz64 outputs payload rs)
unfolding linked_image linked_with
linked_image-Writes outputs payload rs p m first sizes one whole few =
    rw (sizes, one, take-all p payload whole) (sized_image-Writes first payload m rs few)
