-- ===== src/Linker/Outputs.antt =====
-- The output sections of src/linker/linker.c: output_append, output_append_zeros, output_align_to and
-- align_output, and the loops of link_objects that place the sections and give the outputs their
-- offsets. `calloc_given` says whether an allocation of zeros is granted.
use cc.Base.{ℕ, ◌+◌, ◌-◌, bit_and, Bool, not, Option, none, some, List, []}
use cc.Base.{◌∷◌, ◌++◌, length, get_elem?, set, replicate, ltb, leb, ◌==◌, if◌then◌else◌, ◌>>=◌}
use cc.Base.{u64, size_max}
use cc.Object.Strings.{double_until}
use cc.Linker.Objects.{LinkSection, OutputSection}

unfoldable pub output_capacity : ℕ → ℕ → ℕ
output_capacity capacity needed =
    if ltb capacity needed
    then double_until 64 (if capacity == 0 then 256 else capacity) needed
    else capacity

unfoldable pub output_append : OutputSection → List ℕ → Option OutputSection
output_append section bytes =
    if ltb (size_max - section.size) (length bytes)
    then none
    else some (record section {
      bytes = section.bytes ++ bytes;
      size = section.size + length bytes;
      capacity = output_capacity section.capacity (section.size + length bytes);
    })

-- `~mask` at 64 bits.
abbrev pub complement : ℕ → ℕ
complement mask = size_max - mask

unfoldable pub output_append_zeros : Bool → OutputSection → ℕ → Option OutputSection
output_append_zeros calloc_given section size =
    if size == 0
    then some section
    else if not calloc_given
    then none
    else output_append section (replicate size 0)

unfoldable pub output_align_to : Bool → OutputSection → ℕ → Option OutputSection
output_align_to calloc_given section alignment =
    let mask = alignment - 1 in
    let target = bit_and (u64 (section.size + mask)) (complement mask) in
    if leb alignment 1
    then some section
    else if ltb target section.size
    then none
    else output_append_zeros calloc_given section (target - section.size)

unfoldable pub align_output : ℕ → ℕ → Option ℕ
align_output alignment offset =
    let mask = (if alignment == 0 then 1 else alignment) - 1 in
    if ltb (size_max - mask) offset then none else some (bit_and (offset + mask) (complement mask))

-- The bytes of a section, or its zeros.
unfoldable pub append_section : Bool → OutputSection → LinkSection → Option OutputSection
append_section calloc_given output section =
    if section.kind == 3
    then output_append_zeros calloc_given output section.size
    else output_append output section.bytes

-- `none` is false, or a kind with no output.
unfoldable pub place_section :
    Bool → List OutputSection → LinkSection → Option (List OutputSection × LinkSection)
place_section calloc_given outputs section = get_elem? outputs section.kind >>= λ output.
    output_align_to calloc_given output section.alignment >>= λ aligned.
    append_section calloc_given aligned section >>= λ full. some (
      set outputs section.kind full,
      record section { output_offset = aligned.size; output_kind = section.kind },
    )

-- The loop over the sections of all objects, one after the other.
unfoldable pub place_sections :
    Bool → List OutputSection → List LinkSection → Option (List OutputSection × List LinkSection)
place_sections calloc_given outputs [] = some (outputs, [])
place_sections calloc_given outputs (s ∷ ss) =
    place_section calloc_given outputs s >>= λ (outputs', s').
    place_sections calloc_given outputs' ss >>= λ (outputs'', ss'). some (outputs'', s' ∷ ss')

-- The loop that gives the outputs their offsets, from `base` on.
unfoldable pub assign_bases : ℕ → List OutputSection → Option (List OutputSection)
assign_bases base [] = some []
assign_bases base (o ∷ os) = align_output o.alignment base >>= λ at.
    let rest = assign_bases (at + o.size) os in
    if ltb (size_max - o.size) at
    then none
    else (rest >>= λ os'. some (record o { output_offset = at } ∷ os'))

abbrev pub first_output : ℕ → ℕ → OutputSection
first_output kind alignment = record {
  kind = kind;
  alignment = alignment;
  bytes = [];
  size = 0;
  capacity = 0;
  output_offset = 0;
}

abbrev pub first_outputs : List OutputSection
first_outputs = first_output 0 16 ∷ first_output 1 16 ∷ first_output 2 8 ∷ first_output 3 8 ∷ []
