-- ===== src/Arena/Marks.antt =====
-- `arena_mark` and `arena_release` of src/common/arena.c: a release undoes the allocations made
-- since the mark.
use cc.Base.{ℕ, suc, ◌+◌, ◌≤◌, ◌<◌, ◌≡◌, refl, arith, sym, ◌∙◌, ap}
use cc.Base.{none, some, List, [], ◌∷◌, ◌++◌, ltb, ◌==◌, if◌then◌else◌}
use cc.Base.{guard, ◌⊎◌, inl, inr, Bool-cases, All, take, >>=-eq-some, u64, not, ◌≢◌}
use cc.Arena.{Arena, Block, Place, arena_alloc, make_room, bump, push_block}
use cc.Arena.{
  arena_mark, mark_of, unwind, rewound, arena_release, arena_destroy, is_marked, align_size,
  size_add, needs_block, new_block_capacity,
}
use mathlib.Core.List.{append-nil, append_assoc}
use cc.Arena.Invariant.{IsArena, AreBlocks, used_sum}

-- What any number of granted requests can make of an arena.
pub data Allocates (a : Arena) : Arena → Type 0 where
  here : Allocates a a
  next :
      {a' a'' : Arena} (size : ℕ) (p : Place)
      → Allocates a a'
      → arena_alloc a' size ≡ some (p, a'')
      → Allocates a a''

-- The chain with its newest block used up to `used`.
abbrev pub regrown : List Block → ℕ → List Block
regrown [] used = []
regrown (b ∷ older) used = record b { used = used } ∷ older

abbrev pub first_used : List Block → ℕ
first_used [] = 0
first_used (b ∷ older) = b.used

regrown_same : (chain : List Block) → regrown chain (first_used chain) ≡ chain
regrown_same [] = refl
regrown_same (b ∷ older) = refl

-- `a'` has its own blocks in front of those of `a`.
pub record Extends (a a' : Arena) : Type 0 where
  pub newer : List Block
  pub used : ℕ
  pub chain : a'.head ≡ newer ++ regrown a.head used
  pub numbered : All (λ b. a.made ≤ b.serial) newer
  pub made : a.made ≤ a'.made
  pub limit : a'.limit ≡ a.limit

-- A bump changes the newest block alone.
record Bumps (chain : List Block) (a a' : Arena) : Type 0 where
  used : ℕ
  head : a'.head ≡ regrown chain used
  made : a'.made ≡ a.made
  limit : a'.limit ≡ a.limit
  some_block : chain ≢ []

bump-Bumps :
    (chain : List Block) (a a' : Arena) (capacity : ℕ) (p : Place)
    → bump chain a capacity ≡ some (p, a')
    → Bumps chain a a'
unfolding bump
bump-Bumps [] a a' capacity p e = cc
bump-Bumps (b ∷ older) a a' capacity p e = record {
  used = u64 (b.used + capacity);
  head = ground arith;
  made = ground arith;
  limit = ground arith;
  some_block = λ q. cc;
}

make_room-cases :
    (a a' : Arena) (capacity : ℕ)
    → make_room a capacity ≡ some a'
    → (a' ≡ a) ⊎ ((w : ℕ) × (a' ≡ push_block a w))
unfolding make_room
make_room-cases a a' capacity e = elim (Bool-cases (needs_block a.head capacity)) [
  | inl full ↦
      let (w, p, q) = >>=-eq-some (new_block_capacity a capacity) _ (rw full at e) in inr (w, cc q)
  | inr fits ↦ inl (cc (rw fits at e))
]

grown :
    (a room a' : Arena)
    → (room ≡ a) ⊎ ((w : ℕ) × (room ≡ push_block a w))
    → Bumps room.head room a'
    → Extends a a'
unfolding push_block
grown a room a' (inl same) b = record {
  newer = [];
  used = b.used;
  chain = rw same at b.head;
  numbered = tt;
  made = ground arith;
  limit = ground arith;
}
grown a room a' (inr (w, pushed)) b = record {
  newer = record { serial = a.made; used = b.used; capacity = w } ∷ [];
  used = first_used a.head;
  chain = rw (regrown_same a.head) (b.head ∙ ap (λ (r : Arena). regrown r.head b.used) pushed);
  numbered = omega arith;
  made = ground arith;
  limit = ground arith;
}

one_step : (a a' : Arena) (size : ℕ) (p : Place) → arena_alloc a size ≡ some (p, a') → Extends a a'
unfolding arena_alloc
one_step a a' size p e =
    let (capacity, e1, e2) = >>=-eq-some (align_size (if size == 0 then 1 else size)) _ e in
    let (total, e3, e4) = >>=-eq-some (size_add a.total capacity) _ e2 in
    let (u, e5, e6) = >>=-eq-some (guard (not (ltb a.limit total))) _ e4 in
    let (room, e7, e8) = >>=-eq-some (make_room a capacity) _ e6 in
    grown a room a' (make_room-cases a room capacity e7)
      (bump-Bumps room.head room a' capacity p e8)

numbered_append :
    (m n : ℕ) (xs ys : List Block)
    → m ≤ n
    → All (λ b. n ≤ b.serial) xs
    → All (λ b. m ≤ b.serial) ys
    → All (λ b. m ≤ b.serial) (xs ++ ys)
numbered_append m n [] ys h p q = q
numbered_append m n (x ∷ xs) ys h p q = (omega arith, numbered_append m n xs ys h p.1 q)

regrown_twice : (chain : List Block) (u w : ℕ) → regrown (regrown chain u) w ≡ regrown chain w
regrown_twice [] u w = refl
regrown_twice (b ∷ older) u w = refl

-- The blocks of two spans of allocations together: the newest of the first span grew in the second.
joined :
    (a a' a'' : Arena) (newer : List Block)
    → (x : Extends a a') → x.newer ≡ newer
    → Extends a' a''
    → Extends a a''
joined a a' a'' [] x e y = record {
  newer = y.newer;
  used = y.used;
  chain =
      y.chain
      ∙ ap (λ (c : List Block). y.newer ++ regrown c y.used) x.chain
      ∙ rw e (ap (λ (c : List Block). y.newer ++ c) (regrown_twice a.head x.used y.used));
  numbered = rw append-nil at (numbered_append a.made a'.made y.newer [] x.made y.numbered tt);
  made = omega (arith, x.made, y.made);
  limit = y.limit ∙ x.limit;
}
joined a a' a'' (n ∷ ns) x e y = record {
  newer = y.newer ++ (record n { used = y.used } ∷ ns);
  used = x.used;
  chain =
      y.chain
      ∙ ap (λ (c : List Block). y.newer ++ regrown c y.used) x.chain
      ∙ rw (e, append_assoc) refl;
  numbered =
      numbered_append a.made a'.made y.newer (record n { used = y.used } ∷ ns) x.made y.numbered
        (rw e at x.numbered);
  made = omega (arith, x.made, y.made);
  limit = y.limit ∙ x.limit;
}

Allocates-Extends : {a a' : Arena} → Allocates a a' → Extends a a'
Allocates-Extends {a} here = record {
  newer = [];
  used = first_used a.head;
  chain = sym (regrown_same a.head);
  numbered = tt;
  made = omega arith;
  limit = refl;
}
Allocates-Extends {a} (next {a'} {a''} size p s e) =
    let x = Allocates-Extends s in joined a a' a'' x.newer x refl (one_step a' a'' size p e)

-- The loop stops at the marked block, since the newer ones have higher numbers.
unwind_newer :
    (s : ℕ) (newer rest : List Block) (b : Block)
    → b.serial ≡ s
    → All (λ c. suc s ≤ c.serial) newer
    → unwind (some s) (newer ++ (b ∷ rest)) ≡ (newer, b ∷ rest)
unfolding unwind is_marked
unwind_newer s [] rest b e h = ground arith
unwind_newer s (n ∷ ns) rest b e h = ground (arith, unwind_newer s ns rest b)

unwind-none : (chain : List Block) → unwind none chain ≡ (chain, [])
unfolding unwind is_marked
unwind-none [] = refl
unwind-none (b ∷ older) = rw (unwind-none older)

-- What a release does to `a'`: it frees the blocks that were made since `a`, rewinds the newest
-- block of `a` to where it was, and gives the total of `a` back.
pub record Rewinds (a a' : Arena) (result : List Block × Arena) : Type 0 where
  pub used : ℕ
  pub split : a'.head ≡ result.0 ++ regrown a.head used
  pub since : All (λ b. a.made ≤ b.serial) result.0
  pub head : result.1.head ≡ take 1 a.head
  pub total : result.1.total ≡ a.total
  pub valid : IsArena result.1

one_block-IsArena :
    (a a' : Arena) (chain : List Block)
    → a.head ≡ chain
    → IsArena a
    → a.made ≤ a'.made
    → a'.limit ≡ a.limit
    → IsArena (record a' { head = take 1 chain; total = a.total })
one_block-IsArena a a' [] e v m l = record {
  blocks = tt;
  counted = omega arith;
  within = omega (arith, v.within);
  bounded = omega (arith, v.bounded);
}
one_block-IsArena a a' (b ∷ older) e v m l =
    let bs : AreBlocks a.made (b ∷ older) = rw e at v.blocks in
    let sum : used_sum (b ∷ older) ≤ a.total = rw e at v.counted in
    record {
      blocks = (omega (arith, bs.0), bs.1, bs.2, bs.3, tt);
      counted = omega (arith, sum);
      within = omega (arith, v.within);
      bounded = omega (arith, v.bounded);
    }

above :
    (m s : ℕ) (newer : List Block)
    → s < m
    → All (λ b. m ≤ b.serial) newer
    → All (λ b. suc s ≤ b.serial) newer
above m s [] h p = tt
above m s (n ∷ ns) h p = (omega arith, above m s ns h p.1)

regrown_of :
    (a a' : Arena) {chain : List Block}
    → a.head ≡ chain
    → (x : Extends a a') → a'.head ≡ x.newer ++ regrown chain x.used
regrown_of a a' e x = x.chain ∙ ap (λ (c : List Block). x.newer ++ regrown c x.used) e

rewound_chain :
    (a a' : Arena) (chain : List Block)
    → a.head ≡ chain
    → IsArena a
    → (x : Extends a a')
    → unwind (mark_of chain a.total).block a'.head ≡ (x.newer, regrown chain x.used)
unfolding mark_of
rewound_chain a a' [] e v x = rw (regrown_of a a' e x, append-nil) (unwind-none x.newer)
rewound_chain a a' (b ∷ older) e v x =
    let bs : AreBlocks a.made (b ∷ older) = rw e at v.blocks in
    rw (regrown_of a a' e x) (
      unwind_newer b.serial x.newer older (record b { used = x.used }) refl
        (above a.made b.serial x.newer bs.0 x.numbered))

rewound-regrown :
    (chain : List Block) (u t : ℕ) → rewound (regrown chain u) (mark_of chain t).used ≡ take 1 chain
unfolding rewound mark_of
rewound-regrown [] u t = refl
rewound-regrown (b ∷ older) u t = refl

mark_of-total : (chain : List Block) (t : ℕ) → (mark_of chain t).total ≡ t
unfolding mark_of
mark_of-total [] t = refl
mark_of-total (b ∷ older) t = refl

released :
    (a a' : Arena)
    → IsArena a
    → (x : Extends a a')
    → arena_release a' (arena_mark (some a))
      ≡ (x.newer, record a' { head = take 1 a.head; total = a.total })
unfolding arena_release arena_mark
released a a' v x =
    rw
      (
        rewound_chain a a' a.head refl v x,
        rewound-regrown a.head x.used a.total,
        mark_of-total a.head a.total,
      )
      refl

-- Whatever was granted since a mark was taken of a valid arena, releasing the mark frees exactly
-- the blocks made since, rewinds the newest older block, restores the total and keeps the invariant.
pub arena_release-Rewinds :
    (a a' : Arena)
    → IsArena a
    → Allocates a a'
    → Rewinds a a' (arena_release a' (arena_mark (some a)))
arena_release-Rewinds a a' v s =
    let x = Allocates-Extends s in
    rw (released a a' v x) (record {
      used = x.used;
      split = x.chain;
      since = x.numbered;
      head = refl;
      total = refl;
      valid = one_block-IsArena a a' a.head refl v x.made x.limit;
    })

-- The release frees `freed`, and the destruction behind it `destroyed`; the blocks of `older` are in the
-- arena `a'` behind the two, and have other serial numbers than all that is freed.
pub record LeavesBehind (b : Block) (older : List Block) (a' : Arena) (freed destroyed : List Block)
    : Type 0 where
  pub used : ℕ
  pub split : a'.head ≡ freed ++ (record b { used = used } ∷ older)
  pub destroys : destroyed ≡ b ∷ []
  pub apart_from_freed : All (λ o. All (λ f. o.serial < f.serial) freed) older
  pub apart_from_marked : All (λ o. o.serial < b.serial) older

serials_below : (m : ℕ) (chain : List Block) → AreBlocks m chain → All (λ o. o.serial < m) chain
serials_below m [] h = tt
serials_below m (b ∷ older) h =
    (h.0, below_all b.serial m older (omega (arith, h.0)) (serials_below b.serial older h.4))
  where
    below_all :
        (k n : ℕ) (xs : List Block)
        → k ≤ n
        → All (λ o. o.serial < k) xs
        → All (λ o. o.serial < n) xs
    below_all k n [] le p = tt
    below_all k n (x ∷ xs) le p = (omega (arith, p.0), below_all k n xs le p.1)

All-apart :
    (s m : ℕ) (older newer : List Block)
    → s < m
    → All (λ o. o.serial < s) older
    → All (λ f. m ≤ f.serial) newer
    → All (λ o. All (λ f. o.serial < f.serial) newer) older
All-apart s m [] newer h p q = tt
All-apart s m (o ∷ os) newer h p q = (each newer q, All-apart s m os newer h p.1 q)
  where
    each : (ns : List Block) → All (λ f. m ≤ f.serial) ns → All (λ f. o.serial < f.serial) ns
    each [] r = tt
    each (n ∷ ns) r = (omega (arith, p.0, r.0), each ns r.1)

-- After such a release, `arena_destroy` frees the marked block and no other. The blocks older than the
-- marked one are freed by neither call, though the arena had them: they are lost.
pub arena_release-loses_older :
    (a a' : Arena) (b : Block) (older : List Block)
    → a.head ≡ b ∷ older
    → IsArena a
    → Allocates a a'
    → let (freed, after) = arena_release a' (arena_mark (some a)) in
      LeavesBehind b older a' freed (arena_destroy after)
unfolding arena_destroy
arena_release-loses_older a a' b older e v s =
    let x = Allocates-Extends s in
    let bs : AreBlocks a.made (b ∷ older) = rw e at v.blocks in
    let below = serials_below b.serial older bs.4 in
    rw (released a a' v x, e)
      (record {
        used = x.used;
        split = regrown_of a a' e x;
        destroys = refl;
        apart_from_freed = All-apart b.serial a.made older x.newer bs.0 below x.numbered;
        apart_from_marked = below;
      })
