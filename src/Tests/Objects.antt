-- ===== src/Tests/Objects.antt =====
-- The string table, the builder and the symbol order of src/backend/object.c at concrete inputs.
use cc.Base.{refl, arith, true, false, some, [], ◌∷◌}
use cc.Object.Strings.{StringTable, string_add}
use cc.Object.Strings.Stands.{IsStringTable, AddsSome, string_add-Adds}
use cc.Object.Build.{
  ObjectBuilder, ObjectSection, ObjectSymbol, SourceSymbol, object_add_relocation,
}
use cc.Object.Build.Resolve.{RelocatesSome, object_add_relocation-Relocates}
use cc.Object.Order.{symbol_greater}
use cc.Object.Order.Weak.{object_symbols-Sorts}
use cc.Runtime.Sort.{qsort}
use cc.Runtime.Sort.Laws.{SortsIf}

-- The empty name and `ab`.
abbrev small_table : StringTable
small_table = record {
  bytes = 0 ∷ 97 ∷ 98 ∷ 0 ∷ [];
  capacity = 64;
  names = [] ∷ (97 ∷ 98 ∷ []) ∷ [];
  name_capacity = 16;
}

small_table-IsStringTable : IsStringTable small_table
small_table-IsStringTable = record {
  content = refl;
  capacity = omega arith;
  name_capacity = omega arith;
}

string_add-Adds_example : AddsSome small_table (98 ∷ []) (string_add small_table (98 ∷ []))
string_add-Adds_example =
    string_add-Adds small_table (98 ∷ []) small_table-IsStringTable (omega arith)

abbrev text_section : ObjectSection
text_section = record {
  name = 116 ∷ [];
  kind = 0;
  alignment = 16;
  bytes = 144 ∷ [];
  capacity = 64;
  relocations = [];
}

abbrev main_symbol : ObjectSymbol
main_symbol = record {
  name = 109 ∷ [];
  value = 0;
  section_index = 0;
  binding = 1;
  kind = 2;
  size = 1;
  defined = true;
  source_symbol = 64;
}

abbrev static_symbol : ObjectSymbol
static_symbol = record main_symbol { name = 115 ∷ []; binding = 0; source_symbol = 128 }

abbrev small_builder : ObjectBuilder
small_builder = record {
  sections = text_section ∷ [];
  section_capacity = 4;
  symbols = main_symbol ∷ [];
  symbol_capacity = 16;
}

abbrev puts_symbol : SourceSymbol
puts_symbol = record {
  address = 192;
  name = some (112 ∷ []);
  is_internal = false;
  is_function = true;
}

object_add_relocation-Relocates_example :
    RelocatesSome small_builder 0 text_section
      (record { offset = 1; symbol = puts_symbol; type = 3; addend = 0; width = 4 })
      (112 ∷ [])
      (object_add_relocation small_builder 0 1 (some puts_symbol) 3 0 4)
object_add_relocation-Relocates_example =
    object_add_relocation-Relocates small_builder 0 1 3 0 4 puts_symbol text_section (112 ∷ []) refl
      refl (omega arith)

object_symbols-Sorts_example :
    SortsIf symbol_greater true
      (main_symbol ∷ static_symbol ∷ [])
      (qsort symbol_greater true 48 (main_symbol ∷ static_symbol ∷ []))
object_symbols-Sorts_example =
    object_symbols-Sorts true 48 (main_symbol ∷ static_symbol ∷ []) (omega arith)
