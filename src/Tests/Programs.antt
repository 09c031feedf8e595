-- ===== src/Tests/Programs.antt =====
-- The link of src/linker/linker.c for a program of two objects: the startup routine calls main.
use cc.Base.{◌≡◌, refl, ℕ, true, List, [], ◌∷◌, ◌++◌, pos, codes, length}
use cc.Base.{set, not, ◌==◌, u32_max, replicate}
use cc.Semantic.Predicates.{same_bytes}
use cc.Object.Strings.{double_until}
use cc.Runtime.Memory.{store}
use cc.Linker.Outputs.{
  output_capacity, output_append, output_append_zeros, output_align_to, align_output,
  append_section, place_section, place_sections, assign_bases,
}
use cc.Linker.Globals.{
  find_global, put_global, added, add_global, runtime_names, is_name_of, runtime_symbol_name,
  located, locate, commoned, place_common, both_tentative, define_global, bind_found, bind_symbol,
  resolve_symbol, resolve_object,
}
use cc.Linker.Relocate.{
  image_raw_com, image_mz64, checked_add_signed, slot_for, insert_at, next_image_capacity,
  append_image_relocation, global_address, symbol_value, relocation_position, written, data_table,
  data_target, apply_data64, pc_target, section_target, apply_at, apply_relocation, apply_section,
  apply_sections,
}
use cc.Linker.Image.{
  extents_from, image_extents, copy_into, flatten_from, flatten_outputs, put_entries, put_image,
  file_size_of, wide_offset, filled_image, sized_image, linked_with, linked_image,
}
use cc.Linker.Drive.{
  Loaded, place_objects, resolve_symbols, apply_relocations, entry_stub, stub_outputs, patch_entry,
  enter, flattened, link_placed, link_objects,
}
use cc.Linker.Bytes.{put_bytes, write_u32, write_u64}
use cc.Linker.Objects.{LinkRelocation, LinkSection, LinkSymbol, done, failed}

abbrev text : List ℕ → List LinkRelocation → LinkSection
text bytes relocations = record {
  name = codes ".text";
  kind = 0;
  alignment = 16;
  bytes = bytes;
  size = length bytes;
  relocations = relocations;
  output_offset = 0;
  output_kind = 0;
}

abbrev symbol : List ℕ → ℕ → LinkSymbol
symbol name section_index = record {
  name = name;
  value = 0;
  original_value = 0;
  section_index = section_index;
  binding = 1;
  kind = 2;
  size = 0;
  defined = not (section_index == u32_max);
}

-- `call main; ret`, and `ret`.
abbrev startup : Loaded
startup = record {
  sections =
      text (0xe8 ∷ 0 ∷ 0 ∷ 0 ∷ 0 ∷ 0xc3 ∷ [])
        (record { offset = 1; symbol_index = 1; type = 3; addend = pos 0; width = 4 } ∷ [])
      ∷ [];
  symbols = symbol (codes "cc64_start") 0 ∷ symbol (codes "main") u32_max ∷ [];
}

abbrev main_object : Loaded
main_object = record { sections = text (0xc3 ∷ []) [] ∷ []; symbols = symbol (codes "main") 0 ∷ [] }

-- The stub calls the startup at 48, and that calls main at 64; the memory is 80 bytes.
linked_program :
    link_objects true image_raw_com (startup ∷ main_object ∷ [])
    ≡ done (
        set entry_stub 18 26
        ++ (replicate 10 0
            ++ ((0xe8 ∷ 11 ∷ 0 ∷ 0 ∷ 0 ∷ 0xc3 ∷ [])
                ++ (replicate 10 0 ++ (0xc3 ∷ replicate 15 0)))))
unfolding output_capacity output_append output_append_zeros output_align_to align_output
    append_section place_section place_sections assign_bases find_global put_global added add_global
    runtime_names is_name_of runtime_symbol_name located locate commoned place_common both_tentative
    define_global bind_found bind_symbol resolve_symbol resolve_object checked_add_signed slot_for
    insert_at next_image_capacity append_image_relocation global_address symbol_value
    relocation_position written data_table data_target apply_data64 pc_target section_target
    apply_at apply_relocation apply_section apply_sections extents_from image_extents copy_into
    flatten_from flatten_outputs put_entries put_image file_size_of wide_offset filled_image
    sized_image linked_with linked_image place_objects resolve_symbols apply_relocations entry_stub
    stub_outputs patch_entry enter flattened link_placed link_objects put_bytes write_u32 write_u64
    store double_until same_bytes
linked_program = refl

-- A program without a startup routine is refused.
unstarted : link_objects true image_mz64 (main_object ∷ []) ≡ failed 5042
unfolding output_capacity output_append output_append_zeros output_align_to align_output
    append_section place_section place_sections assign_bases find_global put_global added add_global
    runtime_names is_name_of runtime_symbol_name located locate commoned place_common both_tentative
    define_global bind_found bind_symbol resolve_symbol resolve_object checked_add_signed slot_for
    insert_at next_image_capacity append_image_relocation global_address symbol_value
    relocation_position written data_table data_target apply_data64 pc_target section_target
    apply_at apply_relocation apply_section apply_sections extents_from image_extents copy_into
    flatten_from flatten_outputs put_entries put_image file_size_of wide_offset filled_image
    sized_image linked_with linked_image place_objects resolve_symbols apply_relocations entry_stub
    stub_outputs patch_entry enter flattened link_placed link_objects put_bytes write_u32 write_u64
    store double_until same_bytes
unstarted = refl

-- A program that defines main twice is refused.
twice : link_objects true image_mz64 (main_object ∷ main_object ∷ []) ≡ failed 5020
unfolding output_capacity output_append output_append_zeros output_align_to align_output
    append_section place_section place_sections assign_bases find_global put_global added add_global
    runtime_names is_name_of runtime_symbol_name located locate commoned place_common both_tentative
    define_global bind_found bind_symbol resolve_symbol resolve_object checked_add_signed slot_for
    insert_at next_image_capacity append_image_relocation global_address symbol_value
    relocation_position written data_table data_target apply_data64 pc_target section_target
    apply_at apply_relocation apply_section apply_sections extents_from image_extents copy_into
    flatten_from flatten_outputs put_entries put_image file_size_of wide_offset filled_image
    sized_image linked_with linked_image place_objects resolve_symbols apply_relocations entry_stub
    stub_outputs patch_entry enter flattened link_placed link_objects put_bytes write_u32 write_u64
    store double_until same_bytes
twice = refl
