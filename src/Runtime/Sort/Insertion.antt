-- ===== src/Runtime/Sort/Insertion.antt =====
-- What a round of `qsort` of src/runtime/target_stdlib.c does, on the sorted part read from its end.
use cc.Base.{ℕ, suc, ◌+◌, ◌≡◌, refl, arith, ap}
use cc.Base.{Bool, if◌then◌else◌, Bool-cases, inl, inr}
use cc.Base.{some, List, [], ◌∷◌, length, get_elem?, set}
use cc.Runtime.Sort.{sift, sort_loop}

module _ {ℓ} {A : Type ℓ} where
  -- The list `rs` turned round in front of `zs`.
  abbrev pub unreverse : List A → List A → List A
  unreverse [] zs = zs
  unreverse (r ∷ rs) zs = unreverse rs (r ∷ zs)

  get_elem?-unreverse :
      (rs ys : List A) (i k : ℕ)
      → k ≡ length rs + i
      → get_elem? (unreverse rs ys) k ≡ get_elem? ys i
  get_elem?-unreverse [] ys i k e = ap (get_elem? ys) (omega arith)
  get_elem?-unreverse (r ∷ rs) ys i k e = get_elem?-unreverse rs (r ∷ ys) (suc i) k (omega arith)

  set-unreverse :
      (rs ys : List A) (i k : ℕ) (v : A)
      → k ≡ length rs + i
      → set (unreverse rs ys) k v ≡ unreverse rs (set ys i v)
  set-unreverse [] ys i k v e = ap (λ (j : ℕ). set ys j v) (omega arith)
  set-unreverse (r ∷ rs) ys i k v e = set-unreverse rs (r ∷ ys) (suc i) k v (omega arith)

  pub length-unreverse : (rs ys : List A) → length (unreverse rs ys) ≡ length rs + length ys
  length-unreverse [] ys = omega arith
  length-unreverse (r ∷ rs) ys = omega (arith, length-unreverse rs (r ∷ ys))

module _ {ℓ} {A : Type ℓ} (gt : A → A → Bool) where
  -- Insertion into the sorted part, read from its greatest item on.
  unfoldable pub insert_rev : A → List A → List A
  insert_rev slot [] = slot ∷ []
  insert_rev slot (r ∷ rs) = if gt r slot then r ∷ insert_rev slot rs else slot ∷ r ∷ rs

  -- The inner loop inserts the slot into the part before the hole.
  sift-insert_rev :
      (rs zs : List A) (hole slot : A)
      → sift gt (length rs) slot (unreverse rs (hole ∷ zs))
        ≡ some (unreverse (insert_rev slot rs) zs)
  unfolding sift insert_rev
  sift-insert_rev [] zs hole slot = refl
  sift-insert_rev (r ∷ rs) zs hole slot =
      rw
        (
          get_elem?-unreverse rs (r ∷ hole ∷ zs) 0 (length rs) (omega arith),
          set-unreverse rs (r ∷ hole ∷ zs) 1 (suc (length rs)) r (omega arith),
          set-unreverse rs (r ∷ hole ∷ zs) 1 (suc (length rs)) slot (omega arith),
        )
        (elim (Bool-cases (gt r slot)) [
          | inl up ↦ rw up (sift-insert_rev rs (r ∷ zs) r slot)
          | inr stop ↦ rw stop refl
        ])

  -- The sorted part, read from its end, after the items `zs` were inserted too.
  unfoldable pub insert_all : List A → List A → List A
  insert_all rs [] = rs
  insert_all rs (z ∷ zs) = insert_all (insert_rev z rs) zs

  length-insert_rev : (slot : A) (rs : List A) → length (insert_rev slot rs) ≡ suc (length rs)
  unfolding insert_rev
  length-insert_rev slot [] = refl
  length-insert_rev slot (r ∷ rs) = elim (Bool-cases (gt r slot)) [
    | inl up ↦ rw up (ap suc (length-insert_rev slot rs))
    | inr stop ↦ rw stop refl
  ]

  -- The outer loop inserts every later item, and reads nothing out of range.
  pub sort_loop-insert_all :
      (zs rs : List A) (index : ℕ)
      → index ≡ length rs
      → sort_loop gt (length zs) index (unreverse rs zs) ≡ some (unreverse (insert_all rs zs) [])
  unfolding sort_loop insert_all
  sort_loop-insert_all [] rs index e = refl
  sort_loop-insert_all (z ∷ zs) rs index e =
      rw (e, get_elem?-unreverse rs (z ∷ zs) 0 (length rs) (omega arith), sift-insert_rev rs zs z z)
        (sort_loop-insert_all zs (insert_rev z rs) (suc (length rs))
          (omega (arith, length-insert_rev z rs)))
