-- ===== src/Arena.antt =====
-- The bump allocator of src/common/arena.c, with the state of `struct Arena` and `struct ArenaMark`
-- of src/cc64.h. A chain of blocks is a list, the newest first; a block is known by its number.
-- `cc64_xmalloc` gives a block or ends the process, so a call that returns has its block.
pub mod Invariant
pub mod Alloc
pub mod Marks
use cc.Base.{
  ℕ, zero, suc, ◌+◌, ◌-◌, ◌*◌, ◌/◌, ◌%◌, ◌^◌, bit_and, Bool, true, false, not, ◌&&◌, ◌||◌,
}
use cc.Base.{Option, none, some, List, [], ◌∷◌, ◌++◌, map, ltb, leb, ◌==◌, if◌then◌else◌}
use cc.Base.{◌>>=◌, ◌>>◌, guard, u64, size_max}

-- `serial` stands for the address of the block.
pub record Block : Type 0 where
  pub serial : ℕ
  pub used : ℕ
  pub capacity : ℕ

-- `made` counts the blocks that were taken from the heap; it numbers the next one.
pub record Arena : Type 0 where
  pub head : List Block
  pub total : ℕ
  pub limit : ℕ
  pub generation : ℕ
  pub made : ℕ

pub record ArenaMark : Type 0 where
  pub block : Option ℕ
  pub used : ℕ
  pub total : ℕ

-- What a pointer into the arena names: a block, and the offset inside it.
pub record Place : Type 0 where
  pub block : ℕ
  pub offset : ℕ

abbrev pub arena_alignment : ℕ
arena_alignment = 16

-- `sizeof(ArenaBlock)`.
abbrev pub block_header : ℕ
block_header = 32

abbrev pub block_size : ℕ
block_size = 65536

-- `~mask` at 64 bits for the mask of the alignment.
abbrev pub alignment_mask : ℕ
alignment_mask = 0xffff_ffff_ffff_fff0

unfoldable pub align_size : ℕ → Option ℕ
align_size value =
    if ltb (size_max - (arena_alignment - 1)) value
    then none
    else some (bit_and (value + (arena_alignment - 1)) alignment_mask)

unfoldable pub size_add : ℕ → ℕ → Option ℕ
size_add left right = if ltb (size_max - left) right then none else some (left + right)

unfoldable pub size_mul : ℕ → ℕ → Option ℕ
size_mul left right =
    if not (left == 0) && ltb (size_max / left) right then none else some (left * right)

-- `a - b` on size_t.
abbrev pub size_sub : ℕ → ℕ → ℕ
size_sub a b = u64 (a + 2 ^ 64 - b)

-- The counter of generations is advanced and handed back.
unfoldable pub arena_create : ℕ → ℕ → Arena × ℕ
arena_create arena_generation limit =
    let next = u64 (arena_generation + 1) in
    (record { head = []; total = 0; limit = limit; generation = next; made = 0 }, next)

-- `block == NULL || block->capacity - block->used < capacity`
unfoldable pub needs_block : List Block → ℕ → Bool
needs_block [] capacity = true
needs_block (b ∷ older) capacity = ltb (size_sub b.capacity b.used) capacity

-- The capacity that a new block is to have.
unfoldable pub block_capacity_for : Arena → ℕ → ℕ
block_capacity_for a capacity =
    let wanted = if ltb block_size capacity then capacity else block_size in
    let remaining = size_sub a.limit a.total in if ltb remaining wanted then remaining else wanted

-- That capacity where it serves the request, or NULL.
unfoldable pub new_block_capacity : Arena → ℕ → Option ℕ
new_block_capacity a capacity =
    let block_capacity = block_capacity_for a capacity in
    do
      guard (not (ltb block_capacity capacity))
      allocation ← size_add block_capacity block_header
      some block_capacity

unfoldable pub push_block : Arena → ℕ → Arena
push_block a block_capacity = record a {
  head = record { serial = a.made; used = 0; capacity = block_capacity } ∷ a.head;
  made = suc a.made;
}

-- `block->data + block->used`, and the two sums behind it. The chain has a block here.
unfoldable pub bump : List Block → Arena → ℕ → Option (Place × Arena)
bump [] a capacity = none
bump (b ∷ older) a capacity = some (
  record { block = b.serial; offset = b.used },
  record a {
    head = record b { used = u64 (b.used + capacity) } ∷ older;
    total = u64 (a.total + capacity);
  },
)

unfoldable pub make_room : Arena → ℕ → Option Arena
make_room a capacity =
    if needs_block a.head capacity
    then (new_block_capacity a capacity >>= λ block_capacity. some (push_block a block_capacity))
    else some a

-- `none` is NULL, and leaves the arena as it was.
unfoldable pub arena_alloc : Arena → ℕ → Option (Place × Arena)
arena_alloc a size = do
  capacity ← align_size (if size == 0 then 1 else size)
  total ← size_add a.total capacity
  guard (not (ltb a.limit total))
  a' ← make_room a capacity
  bump a'.head a' capacity

unfoldable pub arena_alloc_array : Arena → ℕ → ℕ → Option (Place × Arena)
arena_alloc_array a count size = do bytes ← size_mul count size; arena_alloc a bytes

unfoldable pub mark_of : List Block → ℕ → ArenaMark
mark_of [] total = record { block = none; used = 0; total = total }
mark_of (b ∷ older) total = record { block = some b.serial; used = b.used; total = total }

-- The mark of an arena; `none` is a null pointer to one.
unfoldable pub arena_mark : Option Arena → ArenaMark
unfolding mark_of
arena_mark none = record { block = none; used = 0; total = 0 }
arena_mark (some a) = mark_of a.head a.total

unfoldable pub is_marked : Option ℕ → ℕ → Bool
is_marked none serial = false
is_marked (some s) serial = serial == s

-- The loop that frees: the blocks that it frees, and where it stops.
unfoldable pub unwind : Option ℕ → List Block → List Block × List Block
unfolding is_marked
unwind m [] = ([], [])
unwind m (b ∷ older) =
    let rest = unwind m older in
    if is_marked m b.serial then ([], b ∷ older) else (b ∷ rest.0, rest.1)

-- `block->used = mark->used; block->next = NULL`
unfoldable pub rewound : List Block → ℕ → List Block
rewound [] used = []
rewound (b ∷ older) used = record b { used = used } ∷ []

-- The blocks freed, and the arena after.
unfoldable pub arena_release : Arena → ArenaMark → List Block × Arena
unfolding unwind rewound
arena_release a m =
    let (freed, kept) = unwind m.block a.head in
    (freed, record a { head = rewound kept m.used; total = m.total })

-- The blocks that `arena_destroy` frees, behind the arena itself.
unfoldable pub arena_destroy : Arena → List Block
arena_destroy a = a.head
