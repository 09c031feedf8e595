-- ===== src/Tests/Images.antt =====
-- The image of src/linker/linker.c for a section of code, one of data and one of zeros.
use cc.Base.{◌≡◌, refl, arith, ℕ, true, some, List, [], ◌∷◌, negsuc}
use cc.Linker.Objects.{OutputSection, ImageRelocation, done, failed}
use cc.Linker.Relocate.{image_mz64, image_raw_com}
use cc.Linker.Image.{extents_from, image_extents, copy_into, flatten_from, flatten_outputs}
use cc.Linker.Image.{
  file_size_of, wide_offset, filled_image, sized_image, linked_with, linked_image,
}
use cc.Linker.Written.{Writes, linked_image-Writes}

abbrev output_at : ℕ → ℕ → List ℕ → ℕ → OutputSection
output_at kind output_offset bytes size = record {
  kind = kind;
  alignment = 8;
  bytes = bytes;
  size = size;
  capacity = 0;
  output_offset = output_offset;
}

abbrev code : OutputSection
code = output_at 0 0 (144 ∷ 195 ∷ []) 2

abbrev outputs : List OutputSection
outputs = code ∷ output_at 1 8 [] 0 ∷ output_at 2 8 (7 ∷ []) 1 ∷ output_at 3 16 [] 100 ∷ []

abbrev payload : List ℕ
payload = 144 ∷ 195 ∷ 0 ∷ 0 ∷ 0 ∷ 0 ∷ 0 ∷ 0 ∷ 7 ∷ []

abbrev one_entry : List ImageRelocation
one_entry = record { destination = 0; addend = negsuc 1 } ∷ []

extents : image_extents outputs ≡ some (9, 116)
unfolding image_extents extents_from
extents = refl

-- The output of the zeros has no place in the payload.
flattened : flatten_outputs outputs 9 ≡ done payload
unfolding flatten_outputs flatten_from copy_into
flattened = refl

-- An output past the payload is refused.
flattened_short : flatten_outputs outputs 8 ≡ failed 0
unfolding flatten_outputs flatten_from copy_into
flattened_short = refl

-- A raw image is as long as the memory, and here 16 bytes of it.
raw :
    linked_image true image_raw_com (code ∷ output_at 3 8 [] 4 ∷ []) (144 ∷ 195 ∷ []) []
    ≡ done (144 ∷ 195 ∷ 0 ∷ 0 ∷ 0 ∷ 0 ∷ 0 ∷ 0 ∷ 0 ∷ 0 ∷ 0 ∷ 0 ∷ [])
unfolding linked_image linked_with image_extents extents_from sized_image file_size_of wide_offset
    filled_image copy_into
raw = refl

linked_image-Writes_example :
    Writes 0 payload 116 one_entry (linked_image true image_mz64 outputs payload one_entry)
linked_image-Writes_example =
    linked_image-Writes outputs payload one_entry 9 116 code extents refl refl (omega arith)
