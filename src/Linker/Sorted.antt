-- ===== src/Linker/Sorted.antt =====
-- append_image_relocation of src/linker/linker.c keeps the relocations of the image in order.
use mathlib.Core.List.{Perm}
use mathlib.Core.List.Perm
use cc.Base.{
  ℕ, zero, suc, ◌*◌, ◌/◌, ◌^◌, ◌≤◌, ◌<◌, ◌≡◌, refl, arith, Bool-cases, inl, inr, ap, subst, ==_iff,
  ltb→lt,
}
use cc.Base.{
  Option, none, some, List, [], ◌∷◌, length, get_elem?, All, All-get, ltb, ◌==◌, ◌||◌, true, false,
}
use cc.Base.{size_max, ℤ}
use cc.Linker.Layout.{get_elem?-lt}
use cc.Linker.Objects.{ImageRelocation}
use cc.Linker.Relocate.{next_image_capacity}
use cc.Linker.Relocate.{
  ImageTable, passes_destination, slot_for, insert_at, append_image_relocation,
}

-- Every entry is at most as far as those behind it.
abbrev pub IsSorted : List ImageRelocation → Type 0
IsSorted [] = Unit {0}
IsSorted (r ∷ rs) = All (λ x. r.destination ≤ x.destination) rs × IsSorted rs

-- All entries at the indices from `lo` to `hi`.
abbrev Between : (ImageRelocation → Type 0) → List ImageRelocation → ℕ → ℕ → Type 0
Between P items lo hi =
    (i : ℕ) (r : ImageRelocation) → lo ≤ i → i < hi → get_elem? items i ≡ some r → P r

All-Between :
    (P : ImageRelocation → Type 0) (items : List ImageRelocation)
    → Between P items 0 (length items)
    → All P items
All-Between P [] h = tt
All-Between P (r ∷ rs) h = (
  h 0 r (omega arith) (omega arith) refl,
  All-Between P rs (λ i x lo hi e. h (suc i) x (omega arith) (omega arith) e),
)

same_destination : {x y : ImageRelocation} → some x ≡ some y → x.destination ≡ y.destination
same_destination h =
    ap (λ (o : Option ImageRelocation). elim o [ some z ↦ z.destination | none ↦ 0 ]) h

sorted-le :
    (items : List ImageRelocation) (i j : ℕ) {x y : ImageRelocation}
    → IsSorted items
    → i < j
    → get_elem? items i ≡ some x
    → get_elem? items j ≡ some y
    → x.destination ≤ y.destination
sorted-le [] i j s h e f = cc
sorted-le (r ∷ rs) i zero s h e f = absurd (omega arith)
sorted-le (r ∷ rs) zero (suc j) {x} {y} (s, ss) h e f =
    omega (arith, All-get (λ z. r.destination ≤ z.destination) rs j s f, same_destination e)
sorted-le (r ∷ rs) (suc i) (suc j) (s, ss) h e f = sorted-le rs i j ss (omega arith) e f

-- What the loop from the end finds.
record FindsSlot (items : List ImageRelocation) (position d slot : ℕ) : Type 0 where
  below : slot ≤ position
  later : Between (λ r. d < r.destination) items slot position
  earlier :
      (r : ImageRelocation) (i : ℕ) → slot ≡ suc i → get_elem? items i ≡ some r → r.destination ≤ d

slot_for-FindsSlot :
    (items : List ImageRelocation) (position d : ℕ)
    → FindsSlot items position d (slot_for items position d)
unfolding slot_for
slot_for-FindsSlot items zero d = record {
  below = omega arith;
  later = λ i r lo hi e. absurd (omega arith);
  earlier = λ r i e f. absurd (omega arith);
}
slot_for-FindsSlot items (suc position) d =
    elim (Bool-cases (passes_destination (get_elem? items position) d)) [
      | inl e ↦
          let h = slot_for-FindsSlot items position d in
          rw e record {
            below = omega (arith, h.below);
            later = λ i r lo hi f. elim (Bool-cases (i == position)) [
              | inl same ↦
                  let p : i ≡ position = (==_iff i position).0 same in
                  let g : get_elem? items position ≡ some r =
                    subst (λ n. get_elem? items n ≡ some r) p f in
                  let k : ltb d r.destination ≡ true = rw g at e in ltb→lt d r.destination k
              | inr other ↦ h.later i r lo (ground arith) f
            ];
            earlier = h.earlier;
          }
      | inr e ↦ rw e record {
        below = omega arith;
        later = λ i r lo hi f. absurd (omega arith);
        earlier = λ r i f g.
            let p : i ≡ position = omega arith in
            let h : get_elem? items position ≡ some r =
              subst (λ n. get_elem? items n ≡ some r) p g in
            let k : ltb d r.destination ≡ false = rw h at e in ground arith;
      }
    ]

-- Behind an insertion, a property of the item and of all entries holds of all.
insert_at-All :
    (P : ImageRelocation → Type 0) (position : ℕ) (item : ImageRelocation)
    (items : List ImageRelocation)
    → P item
    → All P items
    → All P (insert_at position item items)
unfolding insert_at
insert_at-All P zero item items p h = (p, h)
insert_at-All P (suc position) item [] p h = (p, tt)
insert_at-All P (suc position) item (r ∷ rs) p (h, hs) = (h, insert_at-All P position item rs p hs)

-- An item goes between those that are at most and at least as far.
insert_at-IsSorted :
    (position : ℕ) (item : ImageRelocation) (items : List ImageRelocation)
    → IsSorted items
    → Between (λ r. item.destination ≤ r.destination) items position (length items)
    → Between (λ r. r.destination ≤ item.destination) items 0 position
    → IsSorted (insert_at position item items)
unfolding insert_at
insert_at-IsSorted zero item items s above below =
    (All-Between (λ r. item.destination ≤ r.destination) items above, s)
insert_at-IsSorted (suc position) item [] s above below = (tt, tt)
insert_at-IsSorted (suc position) item (r ∷ rs) (s, ss) above below = (
  insert_at-All (λ x. r.destination ≤ x.destination) position item rs
      (below 0 r (omega arith) (omega arith) refl) s,
  insert_at-IsSorted position item rs ss
      (λ i x lo hi e. above (suc i) x (omega arith) (omega arith) e)
      (λ i x lo hi e. below (suc i) x (omega arith) (omega arith) e),
)

insert_at-Perm :
    (position : ℕ) (item : ImageRelocation) (items : List ImageRelocation)
    → Perm (insert_at position item items) (item ∷ items)
unfolding insert_at
insert_at-Perm zero item items = Perm.refl (item ∷ items)
insert_at-Perm (suc position) item [] = Perm.refl (item ∷ [])
insert_at-Perm (suc position) item (r ∷ rs) =
    Perm.trans (Perm.cons r (insert_at-Perm position item rs)) (Perm.swap item r rs)

-- Up to the slot no entry is farther.
slot-Between :
    (items : List ImageRelocation) (d slot : ℕ)
    → IsSorted items
    → FindsSlot items (length items) d slot
    → Between (λ r. r.destination ≤ d) items 0 slot
slot-Between items d zero s f i r lo hi e = absurd (omega arith)
slot-Between items d (suc last) s f i r lo hi e =
    let (x, there) = get_elem?-lt items last (omega (arith, f.below)) in
    elim (Bool-cases (i == last)) [
      | inl same ↦
          let p : i ≡ last = (==_iff i last).0 same in
          f.earlier r last refl (subst (λ n. get_elem? items n ≡ some r) p e)
      | inr other ↦
          omega
            (arith, f.earlier x last refl there, sorted-le items i last s (ground arith) e there)
    ]

-- The entries stay in the order of their destinations, and are the old ones and the new one; an array
-- that holds no more than its capacity does so again.
pub record Appends (table : ImageTable) (destination : ℕ) (addend : ℤ) (table' : ImageTable)
    : Type 0 where
  pub sorted : IsSorted table'.items
  pub same : Perm table'.items (record { destination = destination; addend = addend } ∷ table.items)
  pub stored : length table'.items ≤ table'.capacity

abbrev pub AppendsSome : ImageTable → ℕ → ℤ → Option ImageTable → Type 0
AppendsSome table destination addend none = size_max / 16 < table.capacity * 2
AppendsSome table destination addend (some table') = Appends table destination addend table'

length-insert_at :
    (position : ℕ) (item : ImageRelocation) (items : List ImageRelocation)
    → length (insert_at position item items) ≡ suc (length items)
unfolding insert_at
length-insert_at zero item items = refl
length-insert_at (suc position) item [] = refl
length-insert_at (suc position) item (r ∷ rs) = ap suc (length-insert_at position item rs)

inserted-IsSorted :
    (items : List ImageRelocation) (item : ImageRelocation)
    → IsSorted items
    → IsSorted (insert_at (slot_for items (length items) item.destination) item items)
inserted-IsSorted items item s =
    let f = slot_for-FindsSlot items (length items) item.destination in
    insert_at-IsSorted _ item items s (λ i r lo hi e. omega (arith, f.later i r lo hi e))
      (slot-Between items item.destination _ s f)

refused :
    (capacity : ℕ)
    → capacity < 2 ^ 63
    → (ltb (next_image_capacity capacity) capacity
        || ltb (size_max / 16) (next_image_capacity capacity))
      ≡ true
    → size_max / 16 < capacity * 2
unfolding next_image_capacity
refused capacity small e = ground arith

larger :
    (capacity : ℕ)
    → capacity < 2 ^ 63
    → (ltb (next_image_capacity capacity) capacity
        || ltb (size_max / 16) (next_image_capacity capacity))
      ≡ false
    → capacity < next_image_capacity capacity
unfolding next_image_capacity
larger capacity small e = ground arith

-- A new relocation of the image keeps the relocations in the order of their destinations, and adds no
-- other; it is refused only where an array of twice the capacity would pass the address space.
pub append_image_relocation-Appends :
    (table : ImageTable) (destination : ℕ) (addend : ℤ)
    → IsSorted table.items
    → length table.items ≤ table.capacity
    → table.capacity < 2 ^ 63
    → AppendsSome table destination addend (append_image_relocation table destination addend)
unfolding append_image_relocation
append_image_relocation-Appends table destination addend s stored small =
    let item : ImageRelocation = record { destination = destination; addend = addend } in
    let slot = slot_for table.items (length table.items) destination in
    elim (Bool-cases (length table.items == table.capacity)) [
      | inl full ↦
          elim (Bool-cases (
            ltb (next_image_capacity table.capacity) table.capacity
            || ltb (size_max / 16) (next_image_capacity table.capacity))) [
              | inl e ↦ rw (full, e) (refused table.capacity small e)
              | inr e ↦
                  rw (full, e)
                    record {
                      sorted = inserted-IsSorted table.items item s;
                      same = insert_at-Perm slot item table.items;
                      stored = omega (
                        arith,
                        length-insert_at slot item table.items,
                        larger table.capacity small e,
                        (==_iff _ _).0 full,
                      );
                    }
            ]
      | inr space ↦ rw space record {
        sorted = inserted-IsSorted table.items item s;
        same = insert_at-Perm slot item table.items;
        stored = ground (arith, length-insert_at slot item table.items);
      }
    ]
