-- ===== src/Linker/Loads.antt =====
-- The symbols of an object that read_object_file of src/linker/linker.c lets pass, and the whole object.
use cc.Base.{ℕ, zero, suc, ◌+◌, ◌*◌, ◌≤◌, ◌≡◌, refl, arith, sym, ap, ◌⊎◌, inl, inr}
use cc.Base.{Bool, false, not, ◌==◌, leb, Option, none, some}
use cc.Base.{subst, List, [], length, get_elem?, All, u32, u32_max}
use cc.Linker.Objects.{LinkSection, LinkSymbol, done}
use cc.Linker.Ranges.{object_uncovered_bytes_are_zero}
use cc.Linker.Stable.{IfDone, IfDone-bind, IfDone-if}
use cc.Linker.Read.{Tables, symbol_size, checked_tables}
use cc.Linker.SectionEntries.{name_at, read_sections}
use cc.Linker.SymbolEntries.{
  SymbolEntry, symbol_entry, bad_symbol, outside_section, outside_sections, read_symbol,
  read_symbols, read_object_file,
}
use cc.Linker.Validated.{
  IsLoadedSection, Stands, IsLoaded, IfDone-inside, IfDone-then, IfDone-refuse, AllFirst,
  read_sections-AllFirst,
}

-- A symbol that is inside of its section.
abbrev StandsWith : List LinkSection → SymbolEntry → Type 0
StandsWith sections e =
    (e.section_index ≡ u32_max)
    ⊎ ((section : LinkSection) × (get_elem? sections e.section_index ≡ some section)
        × (e.value ≤ section.size))

outside_section-none_outside :
    (e : SymbolEntry) (sections : List LinkSection) (o : Option LinkSection)
    → get_elem? sections e.section_index ≡ o
    → IfDone (λ outside. outside ≡ false → StandsWith sections e) (outside_section e o)
unfolding outside_section
outside_section-none_outside e sections none h = tt
outside_section-none_outside e sections (some section) h = λ k. inr (section, h, ground arith)

outside_sections-none_outside :
    (sections : List LinkSection) (e : SymbolEntry)
    → IfDone (λ outside. outside ≡ false → StandsWith sections e) (outside_sections sections e)
unfolding outside_sections
outside_sections-none_outside sections e =
    let Q : Bool → Type 0 = λ outside. outside ≡ false → StandsWith sections e in
    IfDone-if Q (e.section_index == u32_max) (done false)
      (outside_section e (get_elem? sections e.section_index)) (λ k none_there. inl (ground arith))
      (λ k. outside_section-none_outside e sections _ refl)

read_symbol-Stands :
    (bytes : List ℕ) (t : Tables) (sections : List LinkSection) (e : SymbolEntry)
    → IfDone (Stands sections) (read_symbol bytes t sections e)
unfolding read_symbol
read_symbol-Stands bytes t sections e =
    let Q = Stands sections in
    IfDone-refuse Q 5012 (leb t.string_size e.name_offset) _ λ named.
      IfDone-then Q (name_at 5013 bytes t e.name_offset) _ λ name.
        IfDone-refuse Q 5014 (bad_symbol t e) _ λ good.
          IfDone-bind (λ outside. outside ≡ false → StandsWith sections e) Q
            (outside_sections sections e) _ (outside_sections-none_outside sections e)
            λ outside h. IfDone-refuse Q 5014 outside _ λ k. h k

abbrev Counted : ℕ → List LinkSection → List LinkSymbol → Type 0
Counted count sections symbols = (length symbols ≡ count) × All (Stands sections) symbols

read_symbols-Counted :
    (left i : ℕ) (bytes : List ℕ) (t : Tables) (sections : List LinkSection)
    → IfDone (Counted left sections) (read_symbols left i bytes t sections)
unfolding read_symbols
read_symbols-Counted zero i bytes t sections = (refl, tt)
read_symbols-Counted (suc left) i bytes t sections =
    let Q = Counted (suc left) sections in
    IfDone-then Q (symbol_entry bytes (t.symbol_offset + u32 (i * symbol_size))) _ λ e.
      IfDone-bind (Stands sections) Q (read_symbol bytes t sections e) _
        (read_symbol-Stands bytes t sections e)
        λ symbol s.
          IfDone-bind (Counted left sections) Q (read_symbols left (suc i) bytes t sections) _
            (read_symbols-Counted left (suc i) bytes t sections) λ rest h. (ap suc h.0, (s, h.1))

-- Whatever the bytes of a file are, an object that read_object_file gives has sections that can be placed,
-- in outputs that there are, relocations inside of their section, of a known type with its width, for
-- symbols that there are, and symbols that are undefined or inside of a section that there is.
pub read_object_file-IsLoaded :
    (calloc_given : Bool) (bytes : List ℕ) → IfDone IsLoaded (read_object_file calloc_given bytes)
unfolding read_object_file
read_object_file-IsLoaded calloc_given bytes =
    IfDone-then IsLoaded (checked_tables bytes) _ λ (t, object).
      IfDone-bind (AllFirst t.symbol_count) IsLoaded
        (read_sections t.section_count 0 bytes t object []) _
        (read_sections-AllFirst t.section_count 0 bytes t object [] tt)
        λ (sections, object') h.
          IfDone-bind (Counted t.symbol_count sections) IsLoaded
            (read_symbols t.symbol_count 0 bytes t sections) _
            (read_symbols-Counted t.symbol_count 0 bytes t sections)
            λ symbols k.
              IfDone-inside IsLoaded (object_uncovered_bytes_are_zero calloc_given object') _
                λ zeros. IfDone-refuse IsLoaded 5008 (not zeros) _ λ covered. record {
                  sections = subst (λ n. All (IsLoadedSection n) sections) (sym k.0) h;
                  symbols = k.1;
                }
