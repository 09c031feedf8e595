-- ===== src/Linker/SymbolEntries.antt =====
-- read_object_file of src/linker/linker.c behind the sections: the symbols, and the whole of it.
use cc.Base.{ℕ, zero, suc, ◌+◌, ◌-◌, ◌*◌, Bool, false, not, ◌&&◌, ◌||◌, Option, none, some}
use cc.Base.{List, [], ◌∷◌, get_elem?, ltb, leb, ◌==◌, if◌then◌else◌}
use cc.Base.{u32, u32_max}
use cc.Linker.Bytes.{read_u16, read_u32, read_u64}
use cc.Linker.Objects.{LinkSection, LinkSymbol, Link, stray, done, ◌>>L◌}
use cc.Linker.Ranges.{object_uncovered_bytes_are_zero}
use cc.Linker.Drive.{Loaded}
use cc.Linker.Read.{Tables, symbol_size, inside, refuse, checked_tables}
use cc.Linker.SectionEntries.{name_at, read_sections}

-- The entry of a symbol with the words that have to be zero.
pub record SymbolEntry : Type 0 where
  pub name_offset : ℕ
  pub value : ℕ
  pub section_index : ℕ
  pub binding : ℕ
  pub kind : ℕ
  pub pad : ℕ
  pub size : ℕ
  pub reserved : ℕ
  pub reserved2 : ℕ

unfoldable pub symbol_entry : List ℕ → ℕ → Link SymbolEntry
symbol_entry bytes at = inside (read_u32 bytes at) >>L λ name_offset.
    inside (read_u32 bytes (at + 4)) >>L λ value. inside (read_u32 bytes (at + 8)) >>L λ index.
    inside (get_elem? bytes (at + 12)) >>L λ binding. inside (get_elem? bytes (at + 13)) >>L λ kind.
    inside (read_u16 bytes (at + 14)) >>L λ pad. inside (read_u64 bytes (at + 16)) >>L λ size.
    inside (read_u32 bytes (at + 24)) >>L λ reserved.
    inside (read_u32 bytes (at + 28)) >>L λ reserved2. done (record {
      name_offset = name_offset;
      value = value;
      section_index = index;
      binding = binding;
      kind = kind;
      pad = pad;
      size = size;
      reserved = reserved;
      reserved2 = reserved2;
    })

abbrev pub bad_symbol : Tables → SymbolEntry → Bool
bad_symbol t e =
    ltb 1 e.binding
    || ltb 4 e.kind
    || not (e.pad == 0)
    || not (e.reserved == 0)
    || not (e.reserved2 == 0)
    || (not (e.section_index == u32_max) && leb t.section_count e.section_index)

-- The value and the range of a symbol are inside of its section.
unfoldable pub outside_section : SymbolEntry → Option LinkSection → Link Bool
outside_section e none = stray
outside_section e (some section) = done (
    ltb section.size e.value
    || (leb 1 e.kind && leb e.kind 3 && ltb (section.size - e.value) e.size))

unfoldable pub outside_sections : List LinkSection → SymbolEntry → Link Bool
outside_sections sections e =
    if e.section_index == u32_max
    then done false
    else outside_section e (get_elem? sections e.section_index)

unfoldable pub read_symbol : List ℕ → Tables → List LinkSection → SymbolEntry → Link LinkSymbol
read_symbol bytes t sections e = refuse 5012 (leb t.string_size e.name_offset) (
    name_at 5013 bytes t e.name_offset >>L λ name. refuse 5014 (bad_symbol t e) (
      outside_sections sections e >>L λ outside. refuse 5014 outside (
        done (record {
          name = name;
          value = e.value;
          original_value = e.value;
          section_index = e.section_index;
          binding = e.binding;
          kind = e.kind;
          size = e.size;
          defined = not (e.section_index == u32_max);
        }))))

-- The loop over the symbols from the entry `i` on.
unfoldable pub read_symbols : ℕ → ℕ → List ℕ → Tables → List LinkSection → Link (List LinkSymbol)
read_symbols zero i bytes t sections = done []
read_symbols (suc left) i bytes t sections =
    symbol_entry bytes (t.symbol_offset + u32 (i * symbol_size)) >>L λ e.
    read_symbol bytes t sections e >>L λ symbol.
    read_symbols left (suc i) bytes t sections >>L λ rest. done (symbol ∷ rest)

unfoldable pub read_object_file : Bool → List ℕ → Link Loaded
read_object_file calloc_given bytes = checked_tables bytes >>L λ (t, object).
    read_sections t.section_count 0 bytes t object [] >>L λ (sections, object').
    read_symbols t.symbol_count 0 bytes t sections >>L λ symbols.
    inside (object_uncovered_bytes_are_zero calloc_given object') >>L λ zeros.
    refuse 5008 (not zeros) (done (record { sections = sections; symbols = symbols }))
