-- ===== src/Tests/Arenas.antt =====
-- The arena of src/common/arena.c at concrete requests.
use cc.Base.{◌+◌, ◌<◌, ◌≡◌, refl, arith, none, some, [], ◌∷◌, ◌↔◌}
use cc.Arena.{Arena, Block, arena_alloc, arena_mark, arena_release, arena_destroy}
use cc.Arena.{align_size, size_add, make_room, needs_block, new_block_capacity, block_capacity_for}
use cc.Arena.{push_block, bump}
use cc.Arena.Invariant.{IsArena, rounded}
use cc.Arena.Alloc.{Grants, arena_alloc-Grants, arena_alloc-none_iff}
use cc.Arena.Marks.{
  Allocates, here, next, Rewinds, LeavesBehind, arena_release-Rewinds, arena_release-loses_older,
}

abbrev block_zero : Block
block_zero = record { serial = 0; used = 65536; capacity = 65536 }

abbrev block_one : Block
block_one = record { serial = 1; used = 16; capacity = 34464 }

-- An arena of 100000 bytes with a full block and a new one.
abbrev two_blocks : Arena
two_blocks = record {
  head = block_one ∷ block_zero ∷ [];
  total = 65552;
  limit = 100000;
  generation = 1;
  made = 2;
}

two_blocks-IsArena : IsArena two_blocks
two_blocks-IsArena = omega arith

abbrev after_ten : Arena
after_ten = record two_blocks {
  head = record block_one { used = 32 } ∷ block_zero ∷ [];
  total = 65568;
}

ten_bytes : arena_alloc two_blocks 10 ≡ some (record { block = 1; offset = 16 }, after_ten)
unfolding arena_alloc align_size size_add make_room needs_block bump
ten_bytes = refl

too_much : arena_alloc two_blocks 40000 ≡ none
unfolding arena_alloc align_size size_add make_room needs_block new_block_capacity
    block_capacity_for push_block bump
too_much = refl

arena_alloc-Grants_example : Grants two_blocks 10 (arena_alloc two_blocks 10)
arena_alloc-Grants_example =
    arena_alloc-Grants two_blocks 10 two_blocks-IsArena (omega arith) (omega arith)

arena_alloc-none_iff_example :
    (arena_alloc two_blocks 40000 ≡ none) ↔ (100000 < 65552 + rounded 40000)
arena_alloc-none_iff_example =
    arena_alloc-none_iff two_blocks 40000 two_blocks-IsArena (omega arith)

one_request : Allocates two_blocks after_ten
one_request = next 10 (record { block = 1; offset = 16 }) here ten_bytes

arena_release-Rewinds_example :
    Rewinds two_blocks after_ten (arena_release after_ten (arena_mark (some two_blocks)))
arena_release-Rewinds_example =
    arena_release-Rewinds two_blocks after_ten two_blocks-IsArena one_request

arena_release-loses_older_example :
    let (freed, after) = arena_release after_ten (arena_mark (some two_blocks)) in
    LeavesBehind block_one (block_zero ∷ []) after_ten freed (arena_destroy after)
arena_release-loses_older_example =
    arena_release-loses_older two_blocks after_ten block_one (block_zero ∷ []) refl
      two_blocks-IsArena one_request
