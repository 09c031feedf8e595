-- ===== src/Runtime/Sort.antt =====
-- `qsort` of src/runtime/target_stdlib.c: an insertion sort in place. An item of `size` bytes is one
-- element, and `gt a b` stands for `compare(a, b) > 0`.
pub mod Insertion
pub mod Laws
use cc.Base.{ℕ, zero, suc, ◌+◌, ◌-◌, Bool, true, false, not, ◌||◌, ltb, if◌then◌else◌, ◌==◌}
use cc.Base.{Option, none, some, List, length, get_elem?, set, ◌>>=◌}

module _ {ℓ} {A : Type ℓ} (gt : A → A → Bool) where
  -- The inner loop at `position`, which moves items up, and the store of the slot behind it. `none`
  -- is a read out of range.
  unfoldable pub sift : ℕ → A → List A → Option (List A)
  sift zero slot items = some (set items 0 slot)
  sift (suc position) slot items = get_elem? items position >>= λ below.
      let moved = sift position slot (set items (suc position) below) in
      if gt below slot then moved else some (set items (suc position) slot)

  -- The outer loop at `index`, with `left` rounds to go.
  unfoldable pub sort_loop : ℕ → ℕ → List A → Option (List A)
  sort_loop zero index items = some items
  sort_loop (suc left) index items = get_elem? items index >>= λ slot.
      sift index slot items >>= λ items'. sort_loop left (suc index) items'

  -- `slot_given` says whether the allocation of the slot was granted; without it the items are left as
  -- they are, and the caller is not told.
  unfoldable pub qsort : Bool → ℕ → List A → Option (List A)
  qsort slot_given size items =
      if size == 0 || ltb (length items) 2
      then some items
      else if not slot_given
      then some items
      else sort_loop (length items - 1) 1 items
