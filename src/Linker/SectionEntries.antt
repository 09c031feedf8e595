-- ===== src/Linker/SectionEntries.antt =====
-- read_object_file of src/linker/linker.c behind the header: the sections with their relocations.
use cc.Base.{ℕ, zero, suc, ◌+◌, ◌-◌, ◌*◌, Bool, true, false, not, ◌&&◌, ◌||◌}
use cc.Base.{List, [], ◌∷◌, ◌++◌, length, take, drop, get_elem?, ltb, leb, ◌==◌, if◌then◌else◌}
use cc.Base.{u32, u16, ◌<<<◌, to_int64}
use cc.Semantic.Predicates.{same_bytes}
use cc.Linker.Bytes.{read_u16, read_u32, read_u64}
use cc.Linker.Objects.{LinkRelocation, LinkSection, Link, failed, stray, done, ◌>>L◌}
use cc.Linker.Ranges.{LinkObject, range_ok}
use cc.Linker.Checksum.{crc32}
use cc.Linker.Relocate.{width_wrong}
use cc.Linker.Read.{Tables, header_size, section_size, reloc_size, inside, refuse, cover_if}

-- The bytes up to a zero, with `left` bytes of the table; `id` is for a table that ends before.
unfoldable pub name_from : ℕ → ℕ → List ℕ → Link (List ℕ)
name_from id zero bytes = failed id
name_from id (suc left) [] = stray
name_from id (suc left) (b ∷ bs) =
    let rest = name_from id left bs in
    if b == 0 then done [] else (rest >>L λ name. done (b ∷ name))

unfoldable pub name_at : ℕ → List ℕ → Tables → ℕ → Link (List ℕ)
name_at id bytes t name_offset =
    name_from id (t.string_size - name_offset) (drop (t.string_offset + name_offset) bytes)

-- The entry of a section in its table.
pub record SectionEntry : Type 0 where
  pub name_offset : ℕ
  pub payload_offset : ℕ
  pub payload_size : ℕ
  pub reloc_offset : ℕ
  pub reloc_count : ℕ
  pub alignment : ℕ
  pub kind : ℕ
  pub pad : ℕ
  pub target_index : ℕ
  pub reserved : ℕ
  pub reserved2 : ℕ
  pub checksum : ℕ

unfoldable pub section_entry : List ℕ → ℕ → Link SectionEntry
section_entry bytes at = inside (read_u32 bytes at) >>L λ name_offset.
    inside (read_u32 bytes (at + 4)) >>L λ payload_offset.
    inside (read_u32 bytes (at + 8)) >>L λ payload_size.
    inside (read_u32 bytes (at + 12)) >>L λ reloc_offset.
    inside (read_u32 bytes (at + 16)) >>L λ reloc_count.
    inside (read_u32 bytes (at + 20)) >>L λ power. inside (get_elem? bytes (at + 24)) >>L λ kind.
    inside (get_elem? bytes (at + 25)) >>L λ pad. inside (read_u16 bytes (at + 26)) >>L λ index.
    inside (read_u32 bytes (at + 28)) >>L λ reserved.
    inside (read_u32 bytes (at + 32)) >>L λ reserved2.
    inside (read_u32 bytes (at + 36)) >>L λ checksum. done (record {
      name_offset = name_offset;
      payload_offset = payload_offset;
      payload_size = payload_size;
      reloc_offset = reloc_offset;
      reloc_count = reloc_count;
      alignment = if ltb 15 power then 0 else 1 <<< power;
      kind = kind;
      pad = pad;
      target_index = index;
      reserved = reserved;
      reserved2 = reserved2;
      checksum = checksum;
    })

abbrev pub bad_section : List ℕ → Tables → ℕ → SectionEntry → Bool
bad_section bytes t i e =
    leb t.string_size e.name_offset
    || ltb 3 e.kind
    || e.alignment == 0
    || not (e.target_index == u16 i)
    || not (e.pad == 0)
    || not (e.reserved == 0)
    || not (e.reserved2 == 0)
    || (not (e.kind == 3)
        && (not (range_ok e.payload_offset e.payload_size (length bytes))
            || ltb (256 * 1024 * 1024) e.payload_size))
    || (e.kind == 3 && not (e.payload_offset == 0))
    || (e.kind == 3 && not (e.checksum == 0))
    || (not (e.kind == 3)
        && not (e.checksum == crc32 (take e.payload_size (drop e.payload_offset bytes))))
    || (not (e.reloc_count == 0)
        && (not (range_ok e.reloc_offset (e.reloc_count * reloc_size) (length bytes))
            || ltb e.reloc_offset header_size))

-- A section of that name is there already.
unfoldable pub named_before : List ℕ → List LinkSection → Bool
named_before name [] = false
named_before name (s ∷ ss) =
    let more = named_before name ss in if same_bytes name s.name then true else more

abbrev pub bad_relocation : ℕ → ℕ → LinkRelocation → ℕ → Bool
bad_relocation symbol_count size reloc reserved =
    leb symbol_count reloc.symbol_index
    || not (reserved == 0)
    || width_wrong reloc
    || ltb reloc.type 1
    || ltb 5 reloc.type
    || ltb size reloc.offset
    || ltb (size - reloc.offset) reloc.width

-- The loop over the relocations of a section, the entry `j` and `left` of them in all.
unfoldable pub read_relocations : ℕ → ℕ → List ℕ → ℕ → ℕ → ℕ → Link (List LinkRelocation)
read_relocations zero j bytes table symbol_count size = done []
read_relocations (suc left) j bytes table symbol_count size =
    let at = table + u32 (j * reloc_size) in
    inside (read_u64 bytes at) >>L λ offset. inside (read_u32 bytes (at + 8)) >>L λ symbol_index.
    inside (read_u32 bytes (at + 12)) >>L λ type. inside (read_u64 bytes (at + 16)) >>L λ addend.
    inside (read_u32 bytes (at + 24)) >>L λ width. inside (read_u32 bytes (at + 28)) >>L λ reserved.
    let reloc : LinkRelocation = record {
      offset = offset;
      symbol_index = symbol_index;
      type = type;
      addend = to_int64 addend;
      width = width;
    } in
    refuse 5011 (bad_relocation symbol_count size reloc reserved)
      (read_relocations left (suc j) bytes table symbol_count size >>L λ rest. done (reloc ∷ rest))

unfoldable pub read_section :
    List ℕ
    → Tables
    → ℕ
    → SectionEntry
    → LinkObject
    → List LinkSection
    → Link (LinkSection × LinkObject)
read_section bytes t i e object prior = refuse 5009 (bad_section bytes t i e) (
    cover_if 5009 (not (e.kind == 3)) object e.payload_offset e.payload_size >>L λ a.
    cover_if 5009 (not (e.reloc_count == 0)) a e.reloc_offset (e.reloc_count * reloc_size) >>L λ b.
    name_at 5010 bytes t e.name_offset >>L λ name.
    refuse 5009 ((e.kind == 0 || e.kind == 1) && ltb e.alignment 16) (
      refuse 5009 (named_before name prior) (
        read_relocations e.reloc_count 0 bytes e.reloc_offset t.symbol_count e.payload_size
        >>L λ relocations. done (
          record {
            name = name;
            kind = e.kind;
            alignment = e.alignment;
            bytes = if e.kind == 3 then [] else take e.payload_size (drop e.payload_offset bytes);
            size = e.payload_size;
            relocations = relocations;
            output_offset = 0;
            output_kind = 0;
          },
          b,
        ))))

-- The loop over the sections from the entry `i` on, with those before it.
unfoldable pub read_sections :
    ℕ → ℕ → List ℕ → Tables → LinkObject → List LinkSection → Link (List LinkSection × LinkObject)
read_sections zero i bytes t object prior = done (prior, object)
read_sections (suc left) i bytes t object prior =
    section_entry bytes (t.section_offset + u32 (i * section_size)) >>L λ e.
    read_section bytes t i e object prior >>L λ (section, object').
    read_sections left (suc i) bytes t object' (prior ++ (section ∷ []))
