-- ===== src/Linker/Bytes.antt =====
-- Words in files: the `put` functions of src/backend/object.c, and the `read` and `write` functions of
-- src/linker/linker.c. A pointer is an index of the list of bytes; `none` is an access past it.
use cc.Base.{ℕ, zero, suc, ◌+◌, ◌*◌, Option, some, List, get_elem?, ◌>>=◌}
use cc.Base.{u8, u16, u32, u64, ◌<<<◌, ◌>>>◌, bit_or}
use cc.Runtime.Memory.{store}

unfoldable pub put_u16 : List ℕ → ℕ → ℕ → Option (List ℕ)
put_u16 file at value =
    store file at (u8 value) >>= λ file'. store file' (at + 1) (u8 (value >>> 8))

unfoldable pub put_u32 : List ℕ → ℕ → ℕ → Option (List ℕ)
put_u32 file at value = store file at (u8 value) >>= λ a.
    store a (at + 1) (u8 (value >>> 8)) >>= λ b.
    store b (at + 2) (u8 (value >>> 16)) >>= λ c. store c (at + 3) (u8 (value >>> 24))

-- The loop at `i`, with `left` bytes to go; `write_u32` and `write_u64` run the same loop.
unfoldable pub put_bytes : ℕ → ℕ → List ℕ → ℕ → ℕ → Option (List ℕ)
put_bytes zero i file at value = some file
put_bytes (suc left) i file at value =
    store file (at + i) (u8 (value >>> (i * 8))) >>= λ file'. put_bytes left (suc i) file' at value

unfoldable pub put_u64 : List ℕ → ℕ → ℕ → Option (List ℕ)
put_u64 file at value = put_bytes 8 0 file at value

unfoldable pub write_u32 : List ℕ → ℕ → ℕ → Option (List ℕ)
write_u32 file at value = put_bytes 4 0 file at value

unfoldable pub write_u64 : List ℕ → ℕ → ℕ → Option (List ℕ)
write_u64 file at value = put_bytes 8 0 file at value

unfoldable pub read_u16 : List ℕ → ℕ → Option ℕ
read_u16 file at =
    get_elem? file at >>= λ a. get_elem? file (at + 1) >>= λ b. some (bit_or a (u16 (b <<< 8)))

unfoldable pub read_u32 : List ℕ → ℕ → Option ℕ
read_u32 file at = get_elem? file at >>= λ a. get_elem? file (at + 1) >>= λ b.
    get_elem? file (at + 2) >>= λ c. get_elem? file (at + 3) >>= λ d.
    some (bit_or (bit_or (bit_or a (u32 (b <<< 8))) (u32 (c <<< 16))) (u32 (d <<< 24)))

-- The loop of `read_u64`.
unfoldable pub read_bytes : ℕ → ℕ → List ℕ → ℕ → ℕ → Option ℕ
read_bytes zero i file at value = some value
read_bytes (suc left) i file at value = get_elem? file (at + i) >>= λ byte.
    read_bytes left (suc i) file at (bit_or value (u64 (byte <<< (i * 8))))

unfoldable pub read_u64 : List ℕ → ℕ → Option ℕ
read_u64 file at = read_bytes 8 0 file at 0
