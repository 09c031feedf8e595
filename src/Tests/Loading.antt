-- ===== src/Tests/Loading.antt =====
-- An object file with one section, one relocation and one symbol, read by src/linker/linker.c.
use cc.Base.{◌≡◌, refl, ℕ, true, List, [], ◌∷◌, ◌++◌, pos, codes, set}
use cc.Semantic.Predicates.{same_bytes}
use cc.Linker.Bytes.{read_u16, read_u32, read_u64, read_bytes}
use cc.Linker.Objects.{LinkRelocation, LinkSection, LinkSymbol, done, failed}
use cc.Linker.Ranges.{
  range_ok, overlaps_any, object_range_add, cover_range, cover_ranges, uncovered_zero,
}
use cc.Linker.Ranges.{object_uncovered_bytes_are_zero}
use cc.Linker.Checksum.{crc_bits, crc_bytes, crc32, file_crc32}
use cc.Linker.Read.{
  read_tables, bad_contract, any_nonzero, bad_checksum, cover_tables, checked_tables,
}
use cc.Linker.SectionEntries.{name_from, name_at, section_entry, named_before, read_relocations}
use cc.Linker.SectionEntries.{read_section, read_sections}
use cc.Linker.SymbolEntries.{
  symbol_entry, outside_section, outside_sections, read_symbol, read_symbols,
}
use cc.Linker.SymbolEntries.{read_object_file}
use cc.Linker.Stable.{IfDone}
use cc.Linker.Validated.{IsLoaded}
use cc.Linker.Loads.{read_object_file-IsLoaded}

abbrev header : List ℕ
header =
    67 ∷ 67 ∷ 54 ∷ 52 ∷ 79 ∷ 66 ∷ 74 ∷ 0 ∷ 1 ∷ 0 ∷ 51 ∷ 52 ∷ 1 ∷ 0 ∷ 62 ∷ 0 ∷ 96 ∷ 0 ∷ 0 ∷ 0 ∷ 180
    ∷ 0 ∷ 0 ∷ 0 ∷ 16 ∷ 0 ∷ 0 ∷ 0 ∷ 96 ∷ 0 ∷ 0 ∷ 0 ∷ 1 ∷ 0 ∷ 0 ∷ 0 ∷ 136 ∷ 0 ∷ 0 ∷ 0 ∷ 1 ∷ 0 ∷ 0 ∷ 0
    ∷ 168 ∷ 0 ∷ 0 ∷ 0 ∷ 28 ∷ 0 ∷ 0 ∷ 0 ∷ 0 ∷ 0 ∷ 0 ∷ 0 ∷ 0 ∷ 0 ∷ 0 ∷ 0 ∷ 0 ∷ 0 ∷ 0 ∷ 0 ∷ 194 ∷ 114
    ∷ 173 ∷ 40 ∷ 24 ∷ 88 ∷ 48 ∷ 129 ∷ 0 ∷ 0 ∷ 0 ∷ 0 ∷ 0 ∷ 0 ∷ 0 ∷ 0 ∷ 0 ∷ 0 ∷ 0 ∷ 0 ∷ 0 ∷ 0 ∷ 0 ∷ 0
    ∷ 0 ∷ 0 ∷ 0 ∷ 0 ∷ 0 ∷ 0 ∷ 0 ∷ 0 ∷ []

abbrev tables : List ℕ
tables =
    1 ∷ 0 ∷ 0 ∷ 0 ∷ 196 ∷ 0 ∷ 0 ∷ 0 ∷ 6 ∷ 0 ∷ 0 ∷ 0 ∷ 202 ∷ 0 ∷ 0 ∷ 0 ∷ 1 ∷ 0 ∷ 0 ∷ 0 ∷ 4 ∷ 0 ∷ 0
    ∷ 0 ∷ 0 ∷ 0 ∷ 0 ∷ 0 ∷ 0 ∷ 0 ∷ 0 ∷ 0 ∷ 0 ∷ 0 ∷ 0 ∷ 0 ∷ 70 ∷ 171 ∷ 184 ∷ 73 ∷ 7 ∷ 0 ∷ 0 ∷ 0 ∷ 0
    ∷ 0 ∷ 0 ∷ 0 ∷ 0 ∷ 0 ∷ 0 ∷ 0 ∷ 1 ∷ 2 ∷ 0 ∷ 0 ∷ 6 ∷ 0 ∷ 0 ∷ 0 ∷ 0 ∷ 0 ∷ 0 ∷ 0 ∷ 0 ∷ 0 ∷ 0 ∷ 0 ∷ 0
    ∷ 0 ∷ 0 ∷ 0 ∷ []

abbrev strings : List ℕ
strings =
    0 ∷ 46 ∷ 116 ∷ 101 ∷ 120 ∷ 116 ∷ 0 ∷ 109 ∷ 97 ∷ 105 ∷ 110 ∷ 0 ∷ 120 ∷ 56 ∷ 54 ∷ 95 ∷ 54 ∷ 52
    ∷ 45 ∷ 112 ∷ 99 ∷ 45 ∷ 100 ∷ 111 ∷ 115 ∷ 54 ∷ 52 ∷ 0 ∷ []

abbrev payload : List ℕ
payload = 232 ∷ 0 ∷ 0 ∷ 0 ∷ 0 ∷ 195 ∷ []

abbrev entries : List ℕ
entries =
    1 ∷ 0 ∷ 0 ∷ 0 ∷ 0 ∷ 0 ∷ 0 ∷ 0 ∷ 0 ∷ 0 ∷ 0 ∷ 0 ∷ 3 ∷ 0 ∷ 0 ∷ 0 ∷ 0 ∷ 0 ∷ 0 ∷ 0 ∷ 0 ∷ 0 ∷ 0 ∷ 0
    ∷ 4 ∷ 0 ∷ 0 ∷ 0 ∷ 0 ∷ 0 ∷ 0 ∷ 0 ∷ []

abbrev file : List ℕ
file = header ++ (tables ++ (strings ++ (payload ++ entries)))

abbrev call : LinkRelocation
call = record { offset = 1; symbol_index = 0; type = 3; addend = pos 0; width = 4 }

abbrev text : LinkSection
text = record {
  name = codes ".text";
  kind = 0;
  alignment = 16;
  bytes = payload;
  size = 6;
  relocations = call ∷ [];
  output_offset = 0;
  output_kind = 0;
}

abbrev main_symbol : LinkSymbol
main_symbol = record {
  name = codes "main";
  value = 0;
  original_value = 0;
  section_index = 0;
  binding = 1;
  kind = 2;
  size = 6;
  defined = true;
}

-- The check value of the polynomial.
check_value : crc32 (codes "123456789") ≡ 0xcbf4_3926
unfolding crc32 crc_bytes crc_bits
check_value = refl

file_reads :
    read_object_file true file ≡ done (record { sections = text ∷ []; symbols = main_symbol ∷ [] })
unfolding read_object_file checked_tables read_tables bad_contract any_nonzero bad_checksum
    cover_tables read_sections read_section section_entry name_at name_from named_before
    read_relocations symbol_entry outside_section outside_sections read_symbol read_symbols range_ok
    overlaps_any object_range_add cover_range cover_ranges uncovered_zero
    object_uncovered_bytes_are_zero crc_bits crc_bytes crc32 file_crc32 read_u16 read_u32 read_u64
    read_bytes same_bytes
file_reads = refl

-- A byte that is changed is found by the checksum of the file.
changed_byte : read_object_file true (set file 196 144) ≡ failed 5007
unfolding read_object_file checked_tables read_tables bad_contract any_nonzero bad_checksum
    cover_tables read_sections read_section section_entry name_at name_from named_before
    read_relocations symbol_entry outside_section outside_sections read_symbol read_symbols range_ok
    overlaps_any object_range_add cover_range cover_ranges uncovered_zero
    object_uncovered_bytes_are_zero crc_bits crc_bytes crc32 file_crc32 read_u16 read_u32 read_u64
    read_bytes same_bytes
changed_byte = refl

read_object_file-IsLoaded_example : IfDone IsLoaded (read_object_file true file)
read_object_file-IsLoaded_example = read_object_file-IsLoaded true file
