-- ===== src/Linker/Relocate.antt =====
-- Relocation in src/linker/linker.c: checked_add_signed, append_image_relocation and apply_relocations.
use cc.Base.{
  ℕ, zero, suc, ◌+◌, ◌-◌, ◌*◌, ◌/◌, ◌^◌, bit_and, Bool, false, not, ◌&&◌, ◌||◌, Option, none, some,
}
use cc.Base.{List, [], ◌∷◌, length, get_elem?, ltb, leb, ◌==◌, if◌then◌else◌, u32, u64}
use cc.Base.{size_max, ℤ, pos, negsuc, ◌-ℤ◌, to_int64, int64_max, int32_max}
use cc.Linker.Bytes.{write_u32, write_u64}
use cc.Linker.Globals.{find_global}
use cc.Linker.Objects.{LinkRelocation, LinkSection, LinkSymbol, GlobalSymbol, OutputSection}
use cc.Linker.Objects.{ImageRelocation, Link, failed, stray, done, ◌>>L◌}

-- `none` is false. For an addend below zero `amount` is its negative.
unfoldable pub checked_add_signed : ℕ → ℤ → Option ℤ
checked_add_signed value (pos extra) =
    if ltb (size_max - extra) value
    then none
    else if ltb int64_max (value + extra)
    then none
    else some (pos (value + extra))
checked_add_signed value (negsuc below) =
    let amount = below + 1 in
    if ltb value amount
    then (if ltb (int64_max + 1) value then some (to_int64 (value + 2 ^ 64 - amount)) else none)
    else if ltb int64_max (value - amount)
    then some (to_int64 (value - amount - 2 ^ 63))
    else some (to_int64 (value - amount))

-- The relocations of the image, and the capacity of their array.
pub record ImageTable : Type 0 where
  pub items : List ImageRelocation
  pub capacity : ℕ

abbrev pub passes_destination : Option ImageRelocation → ℕ → Bool
passes_destination none destination = false
passes_destination (some r) destination = ltb destination r.destination

-- The loop that makes room from the end on: where the new entry goes, with `position` entries to look at.
unfoldable pub slot_for : List ImageRelocation → ℕ → ℕ → ℕ
slot_for items zero destination = zero
slot_for items (suc position) destination =
    let before = slot_for items position destination in
    if passes_destination (get_elem? items position) destination then before else suc position

unfoldable pub insert_at : ℕ → ImageRelocation → List ImageRelocation → List ImageRelocation
insert_at zero item items = item ∷ items
insert_at (suc position) item [] = item ∷ []
insert_at (suc position) item (r ∷ items) = r ∷ insert_at position item items

-- `sizeof(ImageRelocation)`.
abbrev pub image_relocation_bytes : ℕ
image_relocation_bytes = 16

unfoldable pub next_image_capacity : ℕ → ℕ
next_image_capacity capacity = if capacity == 0 then 8 else u64 (capacity * 2)

unfoldable pub append_image_relocation : ImageTable → ℕ → ℤ → Option ImageTable
append_image_relocation table destination addend =
    let next = next_image_capacity table.capacity in
    let full = length table.items == table.capacity in
    let position = slot_for table.items (length table.items) destination in
    if full && (ltb next table.capacity || ltb (size_max / image_relocation_bytes) next)
    then none
    else some (record {
      items =
          insert_at position (record { destination = destination; addend = addend }) table.items;
      capacity = (if full then next else table.capacity);
    })

abbrev pub rel_abs32 : ℕ
rel_abs32 = 1

abbrev pub rel_abs64 : ℕ
rel_abs64 = 2

abbrev pub rel_pc32 : ℕ
rel_pc32 = 3

abbrev pub rel_section32 : ℕ
rel_section32 = 4

abbrev pub rel_data64 : ℕ
rel_data64 = 5

-- What apply_relocations changes.
pub record Applied : Type 0 where
  pub payload : List ℕ
  pub table : ImageTable

pub data ImageFormat : Type 0 where
  image_raw_com image_mz64 : ImageFormat

abbrev pub width_wrong : LinkRelocation → Bool
width_wrong reloc =
    (reloc.type == rel_abs32 && not (reloc.width == 4))
    || (reloc.type == rel_abs64 && not (reloc.width == 8))
    || (reloc.type == rel_pc32 && not (reloc.width == 4))
    || (reloc.type == rel_section32 && not (reloc.width == 4))
    || (reloc.type == rel_data64 && not (reloc.width == 8))

unfoldable pub global_address : Option GlobalSymbol → Link ℕ
global_address none = failed 5021
global_address (some g) = if g.defined then done g.address else failed 5021

-- The value that a symbol stands for.
unfoldable pub symbol_value : List GlobalSymbol → LinkSymbol → Link ℕ
symbol_value globals symbol =
    if symbol.binding == 1
    then global_address (find_global globals symbol.name)
    else done symbol.value

-- Where the relocation writes, inside the payload.
unfoldable pub relocation_position : ℕ → OutputSection → LinkSection → LinkRelocation → Link ℕ
relocation_position payload_size output section reloc =
    let section_position = u64 (section.output_offset + reloc.offset) in
    let position = u64 (output.output_offset + section_position) in
    if ltb (size_max - section_position) output.output_offset
    then failed 5023
    else if ltb payload_size position || ltb (payload_size - position) reloc.width
    then failed 5023
    else done position

-- A write into the payload.
unfoldable pub written : Applied → Option (List ℕ) → Link Applied
written a none = stray
written a (some payload) = done (record a { payload = payload })

unfoldable pub data_table : Applied → Option ImageTable → ℕ → Link Applied
data_table a none position = failed 5033
data_table a (some table) position =
    written (record a { table = table }) (write_u64 a.payload position 0)

unfoldable pub data_target : Applied → ℕ → Option ℤ → Link Applied
data_target a position none = failed 5033
data_target a position (some target) =
    data_table a (append_image_relocation a.table position target) position

unfoldable pub apply_data64 : ImageFormat → Applied → ℕ → LinkRelocation → ℕ → Link Applied
apply_data64 image_raw_com a value reloc position = failed 5022
apply_data64 image_mz64 a value reloc position =
    if not (bit_and position 7 == 0)
    then failed 5032
    else data_target a position (checked_add_signed value reloc.addend)

-- `(uint32_t)(int32_t)result`
abbrev pub word_of : ℤ → ℕ
word_of (pos n) = u32 n
word_of (negsuc n) = 2 ^ 32 - 1 - u32 n

abbrev pub fits_int32 : ℤ → Bool
fits_int32 (pos n) = leb n int32_max
fits_int32 (negsuc n) = leb n int32_max

unfoldable pub pc_target : Applied → LinkRelocation → ℕ → Option ℤ → Link Applied
pc_target a reloc position none = failed 5024
pc_target a reloc position (some target) =
    let result = target -ℤ to_int64 (u64 (position + reloc.width)) in
    if not (fits_int32 result)
    then failed 5024
    else written a (write_u32 a.payload position (word_of result))

abbrev pub fits_u32 : ℤ → Bool
fits_u32 (pos n) = ltb n (2 ^ 32)
fits_u32 (negsuc n) = false

unfoldable pub section_target : Applied → ℕ → Option ℤ → Link Applied
section_target a position none = failed 5025
section_target a position (some result) =
    if not (fits_u32 result)
    then failed 5025
    else written a (write_u32 a.payload position (word_of result))

-- By the type, at the position found.
unfoldable pub apply_at : ImageFormat → Applied → LinkSymbol → ℕ → LinkRelocation → ℕ → Link Applied
apply_at format a symbol value reloc position =
    if reloc.type == rel_data64
    then apply_data64 format a value reloc position
    else if reloc.type == rel_abs32 || reloc.type == rel_abs64
    then failed 5022
    else if reloc.type == rel_pc32
    then pc_target a reloc position (checked_add_signed value reloc.addend)
    else if reloc.type == rel_section32
    then section_target a position (checked_add_signed symbol.original_value reloc.addend)
    else done a

unfoldable pub apply_relocation :
    ImageFormat
    → List GlobalSymbol
    → List LinkSymbol
    → OutputSection
    → LinkSection
    → LinkRelocation
    → Applied
    → Link Applied
apply_relocation format globals symbols output section reloc a =
    if width_wrong reloc then failed 5031 else elim (get_elem? symbols reloc.symbol_index) [
      | none ↦ stray
      | some symbol ↦ symbol_value globals symbol >>L λ value.
          relocation_position (length a.payload) output section reloc >>L λ position.
          apply_at format a symbol value reloc position
    ]

-- The loop over the relocations of a section.
unfoldable pub apply_section :
    ImageFormat
    → List GlobalSymbol
    → List LinkSymbol
    → OutputSection
    → LinkSection
    → List LinkRelocation
    → Applied
    → Link Applied
apply_section format globals symbols output section [] a = done a
apply_section format globals symbols output section (r ∷ rs) a =
    apply_relocation format globals symbols output section r a >>L λ b.
    apply_section format globals symbols output section rs b

-- The loop over the sections of an object.
unfoldable pub apply_sections :
    ImageFormat
    → List GlobalSymbol
    → List LinkSymbol
    → List OutputSection
    → List LinkSection
    → Applied
    → Link Applied
apply_sections format globals symbols outputs [] a = done a
apply_sections format globals symbols outputs (s ∷ ss) a = elim (get_elem? outputs s.output_kind) [
  | none ↦ stray
  | some output ↦ apply_section format globals symbols output s s.relocations a >>L λ b.
      apply_sections format globals symbols outputs ss b
]
