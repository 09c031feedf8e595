-- ===== src/Object/Build.antt =====
-- The builder of src/backend/object.c: sections, their data, symbols and relocations. `cc64_xrealloc`,
-- `cc64_xmalloc` and `cc64_xstrdup` give a block or end the process, so only the capacities are kept.
pub mod Finds
pub mod Resolve
use cc.Base.{
  ℕ, zero, suc, ◌+◌, ◌-◌, ◌*◌, Bool, true, false, not, ◌&&◌, ◌||◌, ◌==◌, ltb, if◌then◌else◌,
}
use cc.Base.{
  Option, none, some, List, [], ◌∷◌, ◌++◌, length, u32, u32_max, size_max, get_elem?, set, take,
}
use cc.Base.{bit_and, ◌>>=◌, ◌>>◌, guard}
use cc.Semantic.Predicates.{same_bytes}
use cc.Object.Strings.{grown_capacity}

-- What the builder reads of a `Symbol`: its address, its name, its linkage and its class.
pub record SourceSymbol : Type 0 where
  pub address : ℕ
  pub name : Option (List ℕ)
  pub is_internal : Bool
  pub is_function : Bool

-- `addend` is the 64-bit pattern.
pub record IrRelocation : Type 0 where
  pub offset : ℕ
  pub symbol : SourceSymbol
  pub type : ℕ
  pub addend : ℕ
  pub width : ℕ

-- The used bytes are `bytes`, whose length is the field `size`; the newest relocation comes first.
pub record ObjectSection : Type 0 where
  pub name : List ℕ
  pub kind : ℕ
  pub alignment : ℕ
  pub bytes : List ℕ
  pub capacity : ℕ
  pub relocations : List IrRelocation

-- `source_symbol` is the address of a `Symbol`, or 0 for NULL.
pub record ObjectSymbol : Type 0 where
  pub name : List ℕ
  pub value : ℕ
  pub section_index : ℕ
  pub binding : ℕ
  pub kind : ℕ
  pub size : ℕ
  pub defined : Bool
  pub source_symbol : ℕ

pub record ObjectBuilder : Type 0 where
  pub sections : List ObjectSection
  pub section_capacity : ℕ
  pub symbols : List ObjectSymbol
  pub symbol_capacity : ℕ

unfoldable pub object_builder_init : ObjectBuilder
object_builder_init = record {
  sections = [];
  section_capacity = 0;
  symbols = [];
  symbol_capacity = 0;
}

-- The capacity behind an element more; a full array is doubled, from `first` on. The test for an
-- overflow of the doubling has no effect below 2 ^ 63.
unfoldable pub next_capacity : ℕ → ℕ → ℕ → ℕ
next_capacity first count capacity =
    if count == capacity then (if capacity == 0 then first else capacity * 2) else capacity

-- The new section is the last one; `none` is NULL.
unfoldable pub object_add_section : ObjectBuilder → Option (List ℕ) → ℕ → ℕ → Option ObjectBuilder
object_add_section builder none kind alignment = none
object_add_section builder (some name) kind alignment =
    if ltb 3 kind
      || alignment == 0
      || not (bit_and alignment (alignment - 1) == 0)
      || ltb 32768 alignment
    then none
    else some (record builder {
      section_capacity = next_capacity 4 (length builder.sections) builder.section_capacity;
      sections =
          builder.sections
          ++ (record {
            name = name;
            kind = kind;
            alignment = alignment;
            bytes = [];
            capacity = 0;
            relocations = [];
          }
              ∷ []);
    })

abbrev pub data_limit : ℕ
data_limit = 268435456

-- The bytes at `data`, of which `size` are copied.
unfoldable pub object_append_data :
    Option ObjectSection → Option (List ℕ) → ℕ → Option ObjectSection
object_append_data none source size = none
object_append_data (some section) none size =
    if not (size == 0)
    then none
    else if ltb data_limit (length section.bytes)
    then none
    else some section
object_append_data (some section) (some source) size =
    if ltb data_limit (length section.bytes)
      || ltb (data_limit - length section.bytes) size
      || ltb (size_max - length section.bytes) size
    then none
    else some (record section {
      bytes = section.bytes ++ take size source;
      capacity = grown_capacity section.capacity (length section.bytes + size);
    })

unfoldable pub object_add_symbol :
    ObjectBuilder → Option (List ℕ) → ℕ → ℕ → ℕ → ℕ → ℕ → Bool → ℕ → Option ObjectBuilder
object_add_symbol builder none value section_index binding kind size defined source = none
object_add_symbol builder (some name) value section_index binding kind size defined source =
    if ltb 1 binding || ltb 4 kind
    then none
    else some (record builder {
      symbol_capacity = next_capacity 16 (length builder.symbols) builder.symbol_capacity;
      symbols =
          builder.symbols
          ++ (record {
            name = name;
            value = value;
            section_index = section_index;
            binding = binding;
            kind = kind;
            size = size;
            defined = defined;
            source_symbol = source;
          }
              ∷ []);
    })

unfoldable pub same_name : List ℕ → Option (List ℕ) → Bool
same_name name none = false
same_name name (some other) = same_bytes name other

-- The test of the loop on one symbol.
unfoldable pub is_symbol : ObjectSymbol → SourceSymbol → Bool
is_symbol entry symbol =
    entry.source_symbol == symbol.address
    || (entry.source_symbol == 0 && same_name entry.name symbol.name)

-- The loop of `find_symbol` at `index`.
unfoldable pub find_symbol_from : List ObjectSymbol → SourceSymbol → ℕ → ℕ
find_symbol_from [] symbol index = u32_max
find_symbol_from (entry ∷ entries) symbol index =
    let more = find_symbol_from entries symbol (suc index) in
    if is_symbol entry symbol then u32 index else more

unfoldable pub find_symbol : ObjectBuilder → SourceSymbol → ℕ
find_symbol builder symbol = find_symbol_from builder.symbols symbol 0

-- The tests on the arguments of a relocation.
unfoldable pub refuses_relocation : ℕ → ℕ → ℕ → Bool
refuses_relocation offset type width =
    ltb type 1
    || ltb 5 type
    || (not (width == 4) && not (width == 8))
    || (type == 1 && not (width == 4))
    || (type == 2 && not (width == 8))
    || (type == 3 && not (width == 4))
    || (type == 4 && not (width == 4))
    || (type == 5 && not (width == 8))
    || ltb data_limit offset
    || ltb (data_limit - offset) width

-- An undefined symbol for one that the table does not have; its source is set right behind.
unfoldable pub ensure_symbol : ObjectBuilder → SourceSymbol → Option ObjectBuilder
ensure_symbol builder symbol =
    if find_symbol builder symbol == u32_max
    then object_add_symbol builder symbol.name 0 u32_max (if symbol.is_internal then 0 else 1)
        (if symbol.is_function then 2 else 1) 0 false symbol.address
    else some builder

-- `reloc->next = section->relocations; section->relocations = reloc`
abbrev pub put_relocation : ℕ → ObjectSection → IrRelocation → ObjectBuilder → ObjectBuilder
put_relocation index section entry builder = record builder {
  sections =
      set builder.sections index (record section { relocations = entry ∷ section.relocations });
}

-- The section at an index of the builder.
unfoldable pub object_add_relocation :
    ObjectBuilder → ℕ → ℕ → Option SourceSymbol → ℕ → ℕ → ℕ → Option ObjectBuilder
object_add_relocation builder index offset none type addend width = none
object_add_relocation builder index offset (some symbol) type addend width =
    get_elem? builder.sections index >>= λ section.
    if refuses_relocation offset type width
    then none
    else (ensure_symbol builder symbol >>= λ builder'. some (
        put_relocation index section
          (record { offset = offset; symbol = symbol; type = type; addend = addend; width = width })
          builder'))
