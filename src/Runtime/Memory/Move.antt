-- ===== src/Runtime/Memory/Move.antt =====
-- `memmove` and `memcpy` of src/runtime/target_string.c: what the destination holds after them.
use cc.Base.{ℕ, zero, suc, ◌+◌, ◌-◌, ◌≤◌, ◌<◌, ◌≡◌, refl, arith, ap, ◌∙◌, subst}
use cc.Base.{true, ◌&&◌, ◌||◌, if◌then◌else◌, Bool-cases, ◌⊎◌, inl, inr, ◌==◌, ltb, leb}
use cc.Base.{Option, none, some, List, [], ◌∷◌, length, get_elem?, set, length-set}
use cc.Base.{get_elem?-set_self, get_elem?-set_ne}
use cc.Runtime.Memory.{store, copy_up, copy_down, memcpy, memmove}

-- What stands at `j` once the bytes `lo ≤ i < hi` of the block at `source` were copied to `out`.
abbrev pub moved : List ℕ → ℕ → ℕ → ℕ → ℕ → ℕ → Option ℕ
moved mem out source lo hi j =
    if leb (out + lo) j && ltb j (out + hi)
    then get_elem? mem (source + (j - out))
    else get_elem? mem j

pub record Copied (mem : List ℕ) (out source lo hi : ℕ) (now : List ℕ) : Type 0 where
  pub same_length : length now ≡ length mem
  pub bytes : (j : ℕ) → get_elem? now j ≡ moved mem out source lo hi j

abbrev pub Copies : List ℕ → ℕ → ℕ → ℕ → ℕ → Option (List ℕ) → Type 0
Copies mem out source lo hi none = ⊥
Copies mem out source lo hi (some now) = Copied mem out source lo hi now

get_elem?-lt : (mem : List ℕ) (i : ℕ) → i < length mem → (b : ℕ) × (get_elem? mem i ≡ some b)
get_elem?-lt [] i h = absurd (omega arith)
get_elem?-lt (x ∷ xs) zero h = (x, refl)
get_elem?-lt (x ∷ xs) (suc i) h = get_elem?-lt xs i (omega arith)

module _ (mem : List ℕ) (out source : ℕ) where
  same_byte : (k : ℕ) → get_elem? mem (source + (out + k - out)) ≡ get_elem? mem (source + k)
  same_byte k = ap (get_elem? mem) (omega arith)

  -- One more byte at the upper end.
  extend_up :
      (now : List ℕ) (i byte : ℕ)
      → Copied mem out source 0 i now
      → out + i < length mem
      → get_elem? mem (source + i) ≡ some byte
      → Copied mem out source 0 (suc i) (set now (out + i) byte)
  extend_up now i byte c inside e = record {
    same_length = length-set now (out + i) byte ∙ c.same_length;
    bytes = λ j. elim (Bool-cases (j == out + i)) [
      | inl here ↦
          let p : j ≡ out + i = ground arith in
          rw p
            (ground (arith, get_elem?-set_self now (out + i) byte, e, same_byte i, c.same_length))
      | inr other ↦ ground (arith, get_elem?-set_ne now (out + i) j byte, c.bytes j)
    ];
  }

  -- One more byte at the lower end.
  extend_down :
      (now : List ℕ) (i hi byte : ℕ)
      → i < hi
      → Copied mem out source (suc i) hi now
      → out + i < length mem
      → get_elem? mem (source + i) ≡ some byte
      → Copied mem out source i hi (set now (out + i) byte)
  extend_down now i hi byte below c inside e = record {
    same_length = length-set now (out + i) byte ∙ c.same_length;
    bytes = λ j. elim (Bool-cases (j == out + i)) [
      | inl here ↦
          let p : j ≡ out + i = ground arith in
          rw p
            (ground (arith, get_elem?-set_self now (out + i) byte, e, same_byte i, c.same_length))
      | inr other ↦ ground (arith, get_elem?-set_ne now (out + i) j byte, c.bytes j)
    ];
  }

  -- Upwards nothing that is still to be read has been written, if the destination starts below or
  -- behind the source block.
  copy_up-Copies :
      (left i hi : ℕ) (now : List ℕ)
      → i + left ≡ hi
      → Copied mem out source 0 i now
      → source + hi ≤ length mem
      → out + hi ≤ length mem
      → (out ≤ source) ⊎ (source + hi ≤ out)
      → Copies mem out source 0 hi (copy_up left i out source now)
  unfolding copy_up store
  copy_up-Copies zero i hi now k c hs ho apart =
      subst (λ h. Copied mem out source 0 h now) {x = i} {y = hi} (omega arith) c
  copy_up-Copies (suc left) i hi now k c hs ho apart =
      let (byte, e) = get_elem?-lt mem (source + i) (omega arith) in
      let inside : ltb (out + i) (length now) ≡ true = ground (arith, c.same_length) in
      let read : get_elem? now (source + i) ≡ some byte = ground (arith, c.bytes (source + i), e) in
      rw (read, inside)
        (copy_up-Copies left (suc i) hi (set now (out + i) byte) (omega arith)
          (extend_up now i byte c (omega arith) e) hs ho apart)

  -- Downwards it is so if the destination starts above the source.
  copy_down-Copies :
      (i hi : ℕ) (now : List ℕ)
      → i ≤ hi
      → Copied mem out source i hi now
      → source + hi ≤ length mem
      → out + hi ≤ length mem
      → source ≤ out
      → Copies mem out source 0 hi (copy_down i out source now)
  unfolding copy_down store
  copy_down-Copies zero hi now k c hs ho above = c
  copy_down-Copies (suc i) hi now k c hs ho above =
      let (byte, e) = get_elem?-lt mem (source + i) (omega arith) in
      let inside : ltb (out + i) (length now) ≡ true = ground (arith, c.same_length) in
      let read : get_elem? now (source + i) ≡ some byte = ground (arith, c.bytes (source + i), e) in
      rw (read, inside)
        (copy_down-Copies i hi (set now (out + i) byte) (omega arith)
          (extend_down now i hi byte (omega arith) c (omega arith) e) hs ho above)

  unchanged-Copied : (k : ℕ) → Copied mem out source k k mem
  unchanged-Copied k = record { same_length = refl; bytes = λ j. ground arith }

-- Where both blocks lie in memory, `memmove` returns; the destination then holds what the source
-- held before, however the two overlap, and every other byte is unchanged.
pub memmove-Copies :
    (mem : List ℕ) (destination source size : ℕ)
    → source + size ≤ length mem
    → destination + size ≤ length mem
    → Copies mem destination source 0 size (memmove destination source size mem)
unfolding memmove
memmove-Copies mem destination source size hs hd =
    elim (Bool-cases (destination == source || size == 0)) [
      | inl trivial ↦ rw trivial (record { same_length = refl; bytes = λ j. unmoved j trivial })
      | inr work ↦ rw work (elim (Bool-cases (ltb destination source)) [
        | inl up ↦ rw up (
            copy_up-Copies mem destination source size 0 size mem (omega arith)
              (unchanged-Copied mem destination source 0) hs hd (inl (ground arith)))
        | inr down ↦ rw down (
            copy_down-Copies mem destination source size size mem (omega arith)
              (unchanged-Copied mem destination source size) hs hd (ground arith))
      ])
    ]
  where
    itself :
        (j : ℕ)
        → destination ≤ j
        → destination ≡ source
        → get_elem? mem (source + (j - destination)) ≡ get_elem? mem j
    itself j h e = ap (get_elem? mem) (omega arith)

    unmoved :
        (j : ℕ)
        → (destination == source || size == 0) ≡ true
        → get_elem? mem j ≡ moved mem destination source 0 size j
    unmoved j e = ground (arith, itself j)

-- `memcpy` does the same for blocks that do not overlap, or whose destination starts first.
memcpy-Copies :
    (mem : List ℕ) (destination source size : ℕ)
    → source + size ≤ length mem
    → destination + size ≤ length mem
    → (destination ≤ source) ⊎ (source + size ≤ destination)
    → Copies mem destination source 0 size (memcpy destination source size mem)
unfolding memcpy
memcpy-Copies mem destination source size hs hd apart =
    copy_up-Copies mem destination source size 0 size mem (omega arith)
      (unchanged-Copied mem destination source 0) hs hd apart
