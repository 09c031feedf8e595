-- ===== src/Linker/Image.antt =====
-- The image that src/linker/linker.c makes: image_extents, flatten_outputs and write_linked_image, up to
-- the bytes that it hands to cc64_write_file. `calloc_given` says whether an allocation of zeros is
-- granted.
use cc.Base.{ℕ, suc, ◌+◌, ◌-◌, ◌*◌, ◌/◌, ◌^◌, Bool, false, not, ◌&&◌, ◌||◌, Option, none, some}
use cc.Base.{List, [], ◌∷◌, ◌++◌, length, get_elem?, take, drop, replicate, ltb, leb, ◌==◌}
use cc.Base.{if◌then◌else◌, ◌>>=◌, u32, u64, size_max, u32_max, codes, from_int64}
use cc.Linker.Bytes.{write_u32, write_u64}
use cc.Linker.Objects.{OutputSection, ImageRelocation, Link, failed, stray, done, ◌>>L◌}
use cc.Linker.Relocate.{ImageFormat, image_raw_com, image_mz64}

-- The loop over the outputs at `i`, with what it has: the payload and the memory.
unfoldable pub extents_from : ℕ → List OutputSection → ℕ → ℕ → Option (ℕ × ℕ)
extents_from i [] payload memory = some (payload, memory)
extents_from i (o ∷ os) payload memory =
    let end = o.output_offset + o.size in
    let payload' = if not (i == 3) && ltb payload end then end else payload in
    let memory' = if ltb memory end then end else memory in
    let rest = extents_from (suc i) os payload' memory' in
    if ltb (size_max - o.size) o.output_offset then none else rest

unfoldable pub image_extents : List OutputSection → Option (ℕ × ℕ)
image_extents outputs = extents_from 0 outputs 0 0

-- `memcpy(image + at, bytes, length)`; none is a copy past the image.
unfoldable pub copy_into : List ℕ → ℕ → List ℕ → Option (List ℕ)
copy_into image at bytes =
    if leb (at + length bytes) (length image)
    then some (take at image ++ (bytes ++ drop (at + length bytes) image))
    else none

-- The loop over the outputs at `i`. An output without bytes has no data.
unfoldable pub flatten_from : ℕ → List OutputSection → List ℕ → Link (List ℕ)
flatten_from i [] image = done image
flatten_from i (o ∷ os) image =
    if i == 3 || o.size == 0 || length o.bytes == 0
    then flatten_from (suc i) os image
    else if ltb (u64 (length image + 2 ^ 64 - o.size)) o.output_offset
    then failed 0
    else (elim (copy_into image o.output_offset (take o.size o.bytes)) [
      | none ↦ stray
      | some image' ↦ done image'
    ]
        >>L λ image'. flatten_from (suc i) os image')

unfoldable pub flatten_outputs : List OutputSection → ℕ → Link (List ℕ)
flatten_outputs outputs payload_size =
    if payload_size == 0 then done [] else flatten_from 0 outputs (replicate payload_size 0)

abbrev pub image_limit : ℕ
image_limit = 16 * 1024 * 1024

abbrev pub header_bytes : ℕ
header_bytes = 48

-- The loop over the relocations, from the entry at `at` on.
unfoldable pub put_entries : List ImageRelocation → ℕ → List ℕ → Option (List ℕ)
put_entries [] at image = some image
put_entries (r ∷ rs) at image = write_u64 image at r.destination >>= λ a.
    write_u64 a (at + 8) (from_int64 r.addend) >>= λ b. put_entries rs (at + 16) b

-- The header of an MZ64 image, the payload and the relocations.
unfoldable pub put_image : List ℕ → ℕ → List ℕ → ℕ → List ImageRelocation → Option (List ℕ)
put_image image entry payload memory_size relocations = do
  a ← copy_into image 0 (codes "MZ64")
  b ← write_u32 a 4 header_bytes
  c ← write_u64 b 8 (length payload)
  d ← write_u32 c 16 (u32 entry)
  e ← write_u32 d 24 (u32 (length relocations))
  f ← write_u32 e 28 (u32 (header_bytes + length payload))
  g ← write_u64 f 32 memory_size
  h ← copy_into g header_bytes payload
  put_entries relocations (header_bytes + length payload) h

unfoldable pub file_size_of : ImageFormat → ℕ → ℕ → ℕ → ℕ
file_size_of image_raw_com payload_size memory_size relocation_bytes = memory_size
file_size_of image_mz64 payload_size memory_size relocation_bytes =
    u64 (header_bytes + payload_size + relocation_bytes)

-- The test of the MZ64 branch before the offset of the relocations is written.
unfoldable pub wide_offset : ImageFormat → ℕ → Bool
wide_offset image_raw_com payload_size = false
wide_offset image_mz64 payload_size = ltb u32_max (header_bytes + payload_size)

unfoldable pub filled_image :
    ImageFormat → List ℕ → ℕ → List ℕ → ℕ → List ImageRelocation → Option (List ℕ)
filled_image image_raw_com image entry payload memory_size relocations = copy_into image 0 payload
filled_image image_mz64 image entry payload memory_size relocations =
    put_image image entry payload memory_size relocations

abbrev pub linked : Option (List ℕ) → Link (List ℕ)
linked none = stray
linked (some image) = done image

-- The sizes are computed again from the outputs; the payload has as many bytes.
unfoldable pub sized_image :
    Bool → ImageFormat → OutputSection → List ℕ → ℕ → List ImageRelocation → Link (List ℕ)
sized_image calloc_given format first payload memory_size relocations =
    let payload_size = length payload in
    let file_size = file_size_of format payload_size memory_size (length relocations * 16) in
    let image = replicate (if file_size == 0 then 1 else file_size) 0 in
    if ltb image_limit memory_size
      || ltb u32_max payload_size
      || leb payload_size first.output_offset
    then failed 5034
    else if ltb (size_max / 16) (length relocations)
    then failed 0
    else if ltb file_size payload_size || ltb u32_max file_size
    then failed 5034
    else if not calloc_given || wide_offset format payload_size
    then failed 0
    else linked (filled_image format image first.output_offset payload memory_size relocations)

unfoldable pub linked_with :
    Bool
    → ImageFormat
    → List ℕ
    → List ImageRelocation
    → Option (ℕ × ℕ)
    → Option OutputSection
    → Link (List ℕ)
linked_with calloc_given format payload relocations none first = failed 0
linked_with calloc_given format payload relocations (some sizes) none = stray
linked_with calloc_given format payload relocations (some sizes) (some first) =
    sized_image calloc_given format first (take sizes.0 payload) sizes.1 relocations

unfoldable pub linked_image :
    Bool → ImageFormat → List OutputSection → List ℕ → List ImageRelocation → Link (List ℕ)
linked_image calloc_given format outputs payload relocations =
    linked_with calloc_given format payload relocations (image_extents outputs)
      (get_elem? outputs 0)
