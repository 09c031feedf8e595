-- ===== src/Runtime/Memory.antt =====
-- The byte routines of src/runtime/target_string.c. Memory is one list of bytes, a pointer is an
-- index, and `none` is an access out of range.
pub mod Move
use cc.Base.{ℕ, zero, suc, ◌+◌, ◌≡◌, Bool, true, false, ◌||◌, ◌==◌, ltb, u8, if◌then◌else◌}
use cc.Base.{Option, none, some, List, length, get_elem?, set, ◌>>=◌}

-- `out[i] = byte`
unfoldable pub store : List ℕ → ℕ → ℕ → Option (List ℕ)
store mem i byte = if ltb i (length mem) then some (set mem i byte) else none

-- The loop of `memcpy` and of the first branch of `memmove`, with `left` rounds to go.
unfoldable pub copy_up : ℕ → ℕ → ℕ → ℕ → List ℕ → Option (List ℕ)
copy_up zero index out in_ mem = some mem
copy_up (suc left) index out in_ mem = get_elem? mem (in_ + index) >>= λ byte.
    store mem (out + index) byte >>= λ mem'. copy_up left (suc index) out in_ mem'

-- The loop of the second branch of `memmove`.
unfoldable pub copy_down : ℕ → ℕ → ℕ → List ℕ → Option (List ℕ)
copy_down zero out in_ mem = some mem
copy_down (suc index) out in_ mem = get_elem? mem (in_ + index) >>= λ byte.
    store mem (out + index) byte >>= λ mem'. copy_down index out in_ mem'

unfoldable pub memcpy : ℕ → ℕ → ℕ → List ℕ → Option (List ℕ)
memcpy destination source size mem = copy_up size 0 destination source mem

unfoldable pub memmove : ℕ → ℕ → ℕ → List ℕ → Option (List ℕ)
memmove destination source size mem =
    if destination == source || size == 0
    then some mem
    else if ltb destination source
    then copy_up size 0 destination source mem
    else copy_down size destination source mem

unfoldable pub fill : ℕ → ℕ → ℕ → ℕ → List ℕ → Option (List ℕ)
fill zero index out byte mem = some mem
fill (suc left) index out byte mem =
    store mem (out + index) byte >>= λ mem'. fill left (suc index) out byte mem'

-- `(unsigned char)value` of a value that is not negative.
unfoldable pub memset : ℕ → ℕ → ℕ → List ℕ → Option (List ℕ)
memset destination value size mem = fill size 0 destination (u8 value) mem

-- The signs -1, 0 and 1.
pub data Sign : Type 0 where
  below same above : Sign

unfoldable pub compare_bytes : ℕ → ℕ → Sign
compare_bytes a b = if ltb a b then below else above

unfoldable pub memcmp_loop : ℕ → ℕ → ℕ → ℕ → List ℕ → Option Sign
memcmp_loop zero index left right mem = some same
memcmp_loop (suc rest) index left right mem = get_elem? mem (left + index) >>= λ a.
    get_elem? mem (right + index) >>= λ b.
    let more = memcmp_loop rest (suc index) left right mem in
    if a == b then more else some (compare_bytes a b)

unfoldable pub memcmp : ℕ → ℕ → ℕ → List ℕ → Option Sign
memcmp left right size mem = memcmp_loop size 0 left right mem
