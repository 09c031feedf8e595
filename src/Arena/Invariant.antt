-- ===== src/Arena/Invariant.antt =====
-- What holds of every arena of src/common/arena.c, and the arithmetic of its sizes.
use cc.Base.{ℕ, ◌+◌, ◌-◌, ◌*◌, ◌/◌, ◌%◌, ◌^◌, ◌≤◌, ◌<◌, bit_and, ◌≡◌, arith}
use cc.Base.{some, List, [], ◌∷◌, ◌==◌, if◌then◌else◌}
use cc.Base.Bits.{bit_and_high, bit_and_mask}
use cc.Arena.{Arena, Block, alignment_mask, align_size}

-- A request as the arena counts it: at least one byte, rounded up to sixteen.
abbrev pub rounded : ℕ → ℕ
rounded size = ((if size == 0 then 1 else size) + 15) / 16 * 16

-- The blocks of a chain are within their capacity and are numbered below `made`, older ones lower.
abbrev pub AreBlocks : ℕ → List Block → Type 0
AreBlocks made [] = Unit {0}
AreBlocks made (b ∷ older) =
    (b.serial < made)
    × (b.used ≤ b.capacity)
    × (b.capacity < 2 ^ 63)
    × (b.used % 16 ≡ 0)
    × AreBlocks b.serial older

abbrev pub used_sum : List Block → ℕ
used_sum [] = 0
used_sum (b ∷ older) = b.used + used_sum older

pub record IsArena (a : Arena) : Type 0 where
  pub blocks : AreBlocks a.made a.head
  pub counted : used_sum a.head ≤ a.total
  pub within : a.total ≤ a.limit
  pub bounded : a.limit < 2 ^ 63

-- The mask is the rounding.
pub align_mask : (v : ℕ) → v < 2 ^ 64 → bit_and v alignment_mask ≡ v / 16 * 16
align_mask v h = ground (arith, bit_and_high 4 v (2 ^ 60 - 1), bit_and_mask 60 (v / 16))

-- A request below 2 ^ 63 is rounded, and never refused for its size.
pub align_size-rounded :
    (size : ℕ) → size < 2 ^ 63 → align_size (if size == 0 then 1 else size) ≡ some (rounded size)
unfolding align_size
align_size-rounded size h = ground (arith, align_mask ((if size == 0 then 1 else size) + 15))

-- The bytes in use never pass the blocks' own count.
pub used_le_total : (a : Arena) → IsArena a → used_sum a.head ≤ a.limit
used_le_total a v = omega arith
