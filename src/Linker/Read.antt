-- ===== src/Linker/Read.antt =====
-- read_object_file of src/linker/linker.c, from the bytes of the file on: the header and its tables.
use cc.Base.{
  ℕ, ◌+◌, ◌-◌, ◌*◌, ◌^◌, Bool, true, false, not, ◌&&◌, ◌||◌, Option, none, some, List, [], ◌∷◌,
}
use cc.Base.{length, take, drop, get_elem?, ltb, leb, ◌==◌, if◌then◌else◌, codes, u32}
use cc.Semantic.Predicates.{same_bytes}
use cc.Linker.Bytes.{read_u16, read_u32}
use cc.Linker.Objects.{Link, failed, stray, done, ◌>>L◌}
use cc.Linker.Ranges.{LinkObject, range_ok, object_range_add}
use cc.Linker.Checksum.{crc32, file_crc32}

-- CC64O_HEADER_SIZE and the sizes of the entries.
abbrev pub header_size : ℕ
header_size = 96

abbrev pub section_size : ℕ
section_size = 40

abbrev pub symbol_size : ℕ
symbol_size = 32

abbrev pub reloc_size : ℕ
reloc_size = 32

-- CC64_TARGET.
abbrev pub target_name : List ℕ
target_name = codes "x86_64-pc-dos64"

-- A read past the file is outside of the array.
abbrev pub inside : {A : Type 0} → Option A → Link A
inside none = stray
inside (some a) = done a

abbrev pub refuse : {A : Type 0} → ℕ → Bool → Link A → Link A
refuse id bad next = if bad then failed id else next

-- The fields of the header that say where things are.
pub record Tables : Type 0 where
  pub target_offset : ℕ
  pub target_size : ℕ
  pub section_offset : ℕ
  pub section_count : ℕ
  pub symbol_offset : ℕ
  pub symbol_count : ℕ
  pub string_offset : ℕ
  pub string_size : ℕ
  pub source_map_offset : ℕ
  pub source_map_size : ℕ

unfoldable pub read_tables : List ℕ → Link Tables
read_tables bytes = inside (read_u32 bytes 20) >>L λ target_offset.
    inside (read_u32 bytes 24) >>L λ target_size. inside (read_u32 bytes 28) >>L λ section_offset.
    inside (read_u32 bytes 32) >>L λ section_count. inside (read_u32 bytes 36) >>L λ symbol_offset.
    inside (read_u32 bytes 40) >>L λ symbol_count. inside (read_u32 bytes 44) >>L λ string_offset.
    inside (read_u32 bytes 48) >>L λ string_size.
    inside (read_u32 bytes 52) >>L λ source_map_offset.
    inside (read_u32 bytes 56) >>L λ source_map_size. done (record {
      target_offset = target_offset;
      target_size = target_size;
      section_offset = section_offset;
      section_count = section_count;
      symbol_offset = symbol_offset;
      symbol_count = symbol_count;
      string_offset = string_offset;
      string_size = string_size;
      source_map_offset = source_map_offset;
      source_map_size = source_map_size;
    })

-- `memcmp(bytes + at, text, length of text) == 0`, of bytes that are there.
abbrev pub stands_at : List ℕ → ℕ → List ℕ → Bool
stands_at bytes at text = same_bytes (take (length text) (drop at bytes)) text

abbrev pub magic : List ℕ
magic = 67 ∷ 67 ∷ 54 ∷ 52 ∷ 79 ∷ 66 ∷ 74 ∷ 0 ∷ []

abbrev pub bad_magic : List ℕ → Bool
bad_magic bytes =
    ltb (length bytes) header_size
    || ltb (512 * 1024 * 1024) (length bytes)
    || not (stands_at bytes 0 magic)

unfoldable pub bad_contract : List ℕ → Link Bool
bad_contract bytes = inside (read_u16 bytes 8) >>L λ a. inside (read_u16 bytes 10) >>L λ b.
    inside (read_u16 bytes 12) >>L λ c. inside (read_u16 bytes 14) >>L λ d.
    inside (read_u32 bytes 16) >>L λ size. inside (read_u32 bytes 60) >>L λ flags. done (
      not (a == 1)
      || not (b == 0x3433)
      || not (c == 1)
      || not (d == 62)
      || not (size == header_size)
      || not (flags == 0))

unfoldable pub any_nonzero : List ℕ → Bool
any_nonzero [] = false
any_nonzero (b ∷ bs) = let more = any_nonzero bs in if not (b == 0) then true else more

abbrev pub differ : Bool → Bool → Bool
differ true b = not b
differ false b = b

abbrev pub bad_source_map : List ℕ → Tables → Bool
bad_source_map bytes t =
    differ (t.source_map_offset == 0) (t.source_map_size == 0)
    || (not (t.source_map_size == 0)
        && not (range_ok t.source_map_offset t.source_map_size (length bytes)))

abbrev pub is_zero : Option ℕ → Bool
is_zero none = false
is_zero (some b) = b == 0

abbrev pub bad_target : List ℕ → Tables → Bool
bad_target bytes t =
    not (range_ok t.target_offset t.target_size (length bytes))
    || not (t.target_size == length target_name + 1)
    || not (is_zero (get_elem? bytes (u32 (t.target_offset + t.target_size + 2 ^ 32 - 1))))
    || not (stands_at bytes t.target_offset target_name)

unfoldable pub bad_checksum : List ℕ → Link Bool
bad_checksum bytes = inside (read_u32 bytes 64) >>L λ header.
    inside (read_u32 bytes 68) >>L λ whole.
    done (not (crc32 (take 64 bytes) == header) || not (file_crc32 bytes == whole))

abbrev pub bad_tables : List ℕ → Tables → Bool
bad_tables bytes t =
    ltb 65535 t.section_count
    || ltb 1_000_000 t.symbol_count
    || t.string_size == 0
    || ltb (length bytes) t.string_size
    || ltb t.section_offset header_size
    || ltb t.symbol_offset header_size
    || ltb t.string_offset header_size
    || not (range_ok t.section_offset (t.section_count * section_size) (length bytes))
    || not (range_ok t.symbol_offset (t.symbol_count * symbol_size) (length bytes))
    || not (range_ok t.string_offset t.string_size (length bytes))

-- A range that is refused gives the diagnostic.
abbrev pub covering : ℕ → Option LinkObject → Link LinkObject
covering id none = failed id
covering id (some object) = done object

-- The range of a part that may be empty.
abbrev pub cover_if : ℕ → Bool → LinkObject → ℕ → ℕ → Link LinkObject
cover_if id wanted object offset extent =
    if wanted then covering id (object_range_add object offset extent) else done object

unfoldable pub cover_tables : Tables → LinkObject → Link LinkObject
cover_tables t object = covering 5008 (object_range_add object 0 header_size) >>L λ a.
    covering 5008 (object_range_add a t.section_offset (t.section_count * section_size)) >>L λ b.
    covering 5008 (object_range_add b t.symbol_offset (t.symbol_count * symbol_size)) >>L λ c.
    covering 5008 (object_range_add c t.string_offset t.string_size) >>L λ d.
    cover_if 5008 (not (t.source_map_size == 0)) d t.source_map_offset t.source_map_size >>L λ e.
    let in_string =
      leb t.string_offset t.target_offset
      && leb (u32 (t.target_offset + t.target_size)) (u32 (t.string_offset + t.string_size)) in
    cover_if 5008 (not in_string) e t.target_offset t.target_size

abbrev pub first_object : List ℕ → LinkObject
first_object bytes = record { bytes = bytes; ranges = []; range_capacity = 0 }

-- The checks before the sections are read.
unfoldable pub checked_tables : List ℕ → Link (Tables × LinkObject)
checked_tables bytes = refuse 5004 (bad_magic bytes) (
    bad_contract bytes >>L λ contract. refuse 5005 contract (
      refuse 5008 (any_nonzero (take 24 (drop 72 bytes))) (
        read_tables bytes >>L λ t. refuse 5008 (bad_source_map bytes t) (
          refuse 5006 (bad_target bytes t) (
            bad_checksum bytes >>L λ checksum. refuse 5007 checksum (
              refuse 5008 (bad_tables bytes t) (
                cover_tables t (first_object bytes) >>L λ object.
                refuse 5008
                  (not (
                    is_zero (get_elem? bytes (u32 (t.string_offset + t.string_size + 2 ^ 32 - 1)))))
                  (done (t, object)))))))))
