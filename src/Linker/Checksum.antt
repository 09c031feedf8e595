-- ===== src/Linker/Checksum.antt =====
-- The checksums of an object file: cc64_crc32 and cc64_file_crc32 of src/backend/object.c, and link_crc32
-- of src/linker/linker.c, which is the same loop.
use Prim.Native.Nat.{bit_xor}
use cc.Base.{ℕ, zero, suc, ◌-◌, ◌^◌, List, [], ◌∷◌, ◌++◌, length, take, drop, ltb, if◌then◌else◌}
use cc.Base.{u32, ◌>>>◌, bit_and}

-- `(uint32_t)-(int32_t)(crc & 1U)`.
abbrev pub low_mask : ℕ → ℕ
low_mask crc = u32 (2 ^ 32 - bit_and crc 1)

-- The loop over the bits of a byte, with `left` to go.
unfoldable pub crc_bits : ℕ → ℕ → ℕ
crc_bits zero crc = crc
crc_bits (suc left) crc = crc_bits left (bit_xor (crc >>> 1) (bit_and 0xedb88320 (low_mask crc)))

unfoldable pub crc_bytes : ℕ → List ℕ → ℕ
crc_bytes crc [] = crc
crc_bytes crc (b ∷ bs) = crc_bytes (crc_bits 8 (bit_xor crc b)) bs

-- `~` at 32 bits.
unfoldable pub crc32 : List ℕ → ℕ
crc32 bytes = 2 ^ 32 - 1 - crc_bytes 0xffff_ffff bytes

-- The checksum of a file whose four bytes at 68 count as zeros.
unfoldable pub file_crc32 : List ℕ → ℕ
file_crc32 bytes =
    if ltb (length bytes) 72
    then 0
    else crc32 (take 68 bytes ++ ((0 ∷ 0 ∷ 0 ∷ 0 ∷ []) ++ drop 72 bytes))
