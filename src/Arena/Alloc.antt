-- ===== src/Arena/Alloc.antt =====
-- `arena_alloc` of src/common/arena.c: when it gives a place, which one, and that it keeps the
-- invariant.
use cc.Base.{ℕ, ◌+◌, ◌-◌, ◌%◌, ◌^◌, ◌≤◌, ◌<◌, ◌≡◌, refl, arith, ◌∙◌}
use cc.Base.{Option, none, some, List, [], ◌∷◌, false, ltb, if◌then◌else◌}
use cc.Base.{◌>>=◌, ◌↔◌, inl, inr, Bool-cases, u64, size_max, lt→ltb}
use cc.Arena.{Arena, Block, Place, arena_alloc, make_room, bump, size_add, needs_block}
use cc.Arena.{new_block_capacity, push_block, block_capacity_for, size_sub}
use cc.Arena.Invariant.{IsArena, AreBlocks, used_sum, rounded, align_size-rounded}

-- The arena after room was made for `capacity` more bytes.
pub record HasRoom (a : Arena) (capacity : ℕ) (a' : Arena) (b : Block) (older : List Block)
    : Type 0 where
  pub chain : a'.head ≡ b ∷ older
  pub valid : IsArena a'
  pub room : b.used + capacity ≤ b.capacity
  pub same_total : a'.total ≡ a.total
  pub same_limit : a'.limit ≡ a.limit

abbrev pub MakesRoom : Arena → ℕ → Option Arena → Type 0
MakesRoom a capacity none = ⊥
MakesRoom a capacity (some a') = (b : Block) × (older : List Block) × HasRoom a capacity a' b older

pushed-HasRoom :
    (a : Arena) (capacity wanted : ℕ)
    → IsArena a
    → capacity ≤ wanted
    → wanted < 2 ^ 63
    → HasRoom a capacity
        (push_block a wanted)
        (record { serial = a.made; used = 0; capacity = wanted })
        a.head
unfolding push_block
pushed-HasRoom a capacity wanted v p q = record {
  chain = refl;
  valid = record {
    blocks = (omega arith, omega arith, q, refl, v.blocks);
    counted = omega arith;
    within = v.within;
    bounded = v.bounded;
  };
  room = omega arith;
  same_total = refl;
  same_limit = refl;
}

block_capacity_for_bounds :
    (a : Arena) (capacity : ℕ)
    → IsArena a
    → a.total + capacity ≤ a.limit
    → (capacity ≤ block_capacity_for a capacity) × (block_capacity_for a capacity < 2 ^ 63)
unfolding block_capacity_for
block_capacity_for_bounds a capacity v h = ground arith

new_block_capacity-eq :
    (a : Arena) (capacity : ℕ)
    → IsArena a
    → a.total + capacity ≤ a.limit
    → new_block_capacity a capacity ≡ some (block_capacity_for a capacity)
unfolding new_block_capacity size_add
new_block_capacity-eq a capacity v h = ground (arith, block_capacity_for_bounds a capacity)

fits_room :
    (b : Block) (capacity : ℕ)
    → b.used ≤ b.capacity
    → b.capacity < 2 ^ 63
    → ltb (size_sub b.capacity b.used) capacity ≡ false
    → b.used + capacity ≤ b.capacity
fits_room b capacity p q h = ground arith

kept :
    (a : Arena) (capacity : ℕ) (chain : List Block)
    → a.head ≡ chain
    → IsArena a
    → a.total + capacity ≤ a.limit
    → needs_block a.head capacity ≡ false
    → (b : Block) × (older : List Block) × HasRoom a capacity a b older
unfolding needs_block
kept a capacity [] e v h fits = cc (rw e at fits)
kept a capacity (b ∷ older) e v h fits = (
  b,
  older,
  record {
    chain = e;
    valid = v;
    room = fits_room b capacity (rw e at v.blocks).1 (rw e at v.blocks).2 (rw e at fits);
    same_total = refl;
    same_limit = refl;
  },
)

-- With the total in bounds room is always made: no later test of the function refuses.
make_room-MakesRoom :
    (a : Arena) (capacity : ℕ) (chain : List Block)
    → a.head ≡ chain
    → IsArena a
    → a.total + capacity ≤ a.limit
    → MakesRoom a capacity (make_room a capacity)
unfolding make_room
make_room-MakesRoom a capacity chain e v h = elim (Bool-cases (needs_block a.head capacity)) [
  | inl full ↦
      rw (full, new_block_capacity-eq a capacity v h)
        (
          _,
          _,
          pushed-HasRoom a capacity (block_capacity_for a capacity) v
              (block_capacity_for_bounds a capacity v h).0
              (block_capacity_for_bounds a capacity v h).1,
        )
  | inr fits ↦ rw fits (kept a capacity chain e v h fits)
]

-- The place and the arena that a granted request gives: the place is the next free byte of the
-- newest block, sixteen bytes apart, and the block has that many bytes behind it.
pub record Granted (a : Arena) (size : ℕ) (p : Place) (a' : Arena) : Type 0 where
  pub valid : IsArena a'
  pub b : Block
  pub older : List Block
  pub chain : a'.head ≡ b ∷ older
  pub in_block : p.block ≡ b.serial
  pub aligned : p.offset % 16 ≡ 0
  pub inside : p.offset + size ≤ b.used
  pub used_up : b.used ≡ p.offset + rounded size
  pub within : b.used ≤ b.capacity
  pub counted : a'.total ≡ a.total + rounded size
  pub same_limit : a'.limit ≡ a.limit

abbrev pub Grants : Arena → ℕ → Option (Place × Arena) → Type 0
Grants a size none = ⊥
Grants a size (some (p, a')) = Granted a size p a'

bump-Grants :
    (a a' : Arena) (size : ℕ) (b : Block) (older : List Block)
    → size < 2 ^ 63
    → a.total + rounded size ≤ a.limit
    → HasRoom a (rounded size) a' b older
    → Grants a size (bump a'.head a' (rounded size))
unfolding bump
bump-Grants a a' size b older small h r = rw r.chain (record {
  valid = record {
    blocks = (bs.0, ground arith, bs.2, ground arith, bs.4);
    counted = ground arith;
    within = ground arith;
    bounded = r.valid.bounded;
  };
  b = record b { used = u64 (b.used + rounded size) };
  older = older;
  chain = refl;
  in_block = refl;
  aligned = bs.3;
  inside = ground arith;
  used_up = ground arith;
  within = ground arith;
  counted = ground arith;
  same_limit = r.same_limit;
})
  where
    bs : AreBlocks a'.made (b ∷ older)
    bs = rw r.chain at r.valid.blocks

    sums : used_sum (b ∷ older) ≤ a'.total
    sums = rw r.chain at r.valid.counted

-- The tests before the chain is looked at come down to one.
checked :
    (a : Arena) (size : ℕ)
    → IsArena a
    → size < 2 ^ 63
    → arena_alloc a size ≡ (
        if ltb a.limit (a.total + rounded size)
        then none
        else (make_room a (rounded size) >>= λ a'. bump a'.head a' (rounded size)))
unfolding arena_alloc size_add
checked a size v small = rw (align_size-rounded size small, not_wrapped) (ground arith)
  where
    not_wrapped : ltb (size_max - a.total) (rounded size) ≡ false
    not_wrapped = ground arith

granted_from :
    (a : Arena) (size : ℕ) (room : Option Arena)
    → size < 2 ^ 63
    → a.total + rounded size ≤ a.limit
    → MakesRoom a (rounded size) room
    → Grants a size (room >>= λ a'. bump a'.head a' (rounded size))
granted_from a size none small h m = absurd m
granted_from a size (some a') small h (b, older, r) = bump-Grants a a' size b older small h r

-- A request that the limit has room for is granted: the place is sixteen bytes aligned, lies inside
-- the newest block right where its used part ended, and the invariant holds again.
pub arena_alloc-Grants :
    (a : Arena) (size : ℕ)
    → IsArena a
    → size < 2 ^ 63
    → a.total + rounded size ≤ a.limit
    → Grants a size (arena_alloc a size)
arena_alloc-Grants a size v small h =
    rw (checked a size v small, not-lt)
      (granted_from a size (make_room a (rounded size)) small h
        (make_room-MakesRoom a (rounded size) a.head refl v h))
  where
    not-lt : ltb a.limit (a.total + rounded size) ≡ false
    not-lt = ground arith

-- With a size below 2 ^ 63, the allocator answers NULL exactly when the rounded request would take
-- the total past the limit.
pub arena_alloc-none_iff :
    (a : Arena) (size : ℕ)
    → IsArena a
    → size < 2 ^ 63
    → (arena_alloc a size ≡ none) ↔ (a.limit < a.total + rounded size)
arena_alloc-none_iff a size v small = (refused, over)
  where
    some_of : (r : Option (Place × Arena)) → Grants a size r → r ≡ none → ⊥
    some_of none g e = g
    some_of (some (p, a')) g e = cc

    refused : arena_alloc a size ≡ none → a.limit < a.total + rounded size
    refused e = elim (Bool-cases (ltb a.limit (a.total + rounded size))) [
      | inl lt ↦ ground arith
      | inr fits ↦ absurd (some_of _ (arena_alloc-Grants a size v small (ground arith)) e)
    ]

    over : a.limit < a.total + rounded size → arena_alloc a size ≡ none
    over lt = checked a size v small ∙ rw (lt→ltb _ _ lt) refl
