-- ===== src/Runtime/Sort/Laws.antt =====
-- `qsort` of src/runtime/target_stdlib.c sorts, keeps the items and is stable, for every comparison
-- that is a weak order.
use cc.Base.{◌||◌, ◌==◌, ltb}
use cc.Base.{ℕ, suc, ◌-◌, ◌<◌, ◌≡◌, refl, arith, sym, ap, ◌∙◌}
use cc.Base.{Bool, true, false, if◌then◌else◌, Bool-cases, inl, inr, ◌==◌, ltb}
use cc.Base.{Option, some, List, [], ◌∷◌, ◌++◌, length, All}
use mathlib.Core.List.{Perm, perm_middle, append-nil}
use mathlib.Core.List.Perm
use cc.Runtime.Sort.{qsort, sort_loop}
use cc.Runtime.Sort.Insertion.{unreverse, insert_rev, insert_all, sort_loop-insert_all}

module _ {ℓ} {A : Type ℓ} where
  -- The items that `keep` holds of, in their order.
  abbrev pub select : (A → Bool) → List A → List A
  select keep [] = []
  select keep (x ∷ xs) = if keep x then x ∷ select keep xs else select keep xs

module _ {ℓ} {A : Type ℓ} (gt : A → A → Bool) where
  -- No item compares greater than a later one.
  abbrev pub IsSorted : List A → Type 0
  IsSorted [] = Unit {0}
  IsSorted (x ∷ xs) = All (λ y. gt x y ≡ false) xs × IsSorted xs

  -- The same of a list that is read from its end.
  abbrev RevSorted : List A → Type 0
  RevSorted [] = Unit {0}
  RevSorted (r ∷ rs) = All (λ z. gt z r ≡ false) rs × RevSorted rs

  -- A comparison by which equal items are one class and the classes are in a line.
  pub record IsWeakOrder : Type ℓ where
    pub asym : (a b : A) → gt a b ≡ true → gt b a ≡ false
    pub trans : (a b c : A) → gt a b ≡ false → gt b c ≡ false → gt a c ≡ false

module _ {ℓ} {A : Type ℓ} (gt : A → A → Bool) (order : IsWeakOrder gt) where
  open order use {asym, trans}

  All-insert_rev :
      (P : A → Type 0) (slot : A) (rs : List A) → P slot → All P rs → All P (insert_rev gt slot rs)
  unfolding insert_rev
  All-insert_rev P slot [] p h = (p, tt)
  All-insert_rev P slot (r ∷ rs) p h = elim (Bool-cases (gt r slot)) [
    | inl up ↦ rw up (h.0, All-insert_rev P slot rs p h.1)
    | inr stop ↦ rw stop (p, h)
  ]

  All-below :
      (r slot : A) (rs : List A)
      → gt r slot ≡ false
      → All (λ z. gt z r ≡ false) rs
      → All (λ z. gt z slot ≡ false) rs
  All-below r slot [] e h = tt
  All-below r slot (z ∷ rs) e h = (trans z r slot h.0 e, All-below r slot rs e h.1)

  insert_rev-RevSorted :
      (slot : A) (rs : List A) → RevSorted gt rs → RevSorted gt (insert_rev gt slot rs)
  unfolding insert_rev
  insert_rev-RevSorted slot [] h = (tt, tt)
  insert_rev-RevSorted slot (r ∷ rs) h = elim (Bool-cases (gt r slot)) [
    | inl up ↦ rw up (
      All-insert_rev (λ z. gt z r ≡ false) slot rs (asym r slot up) h.0,
      insert_rev-RevSorted slot rs h.1,
    )
    | inr stop ↦ rw stop ((stop, All-below r slot rs stop h.0), h)
  ]

  insert_all-RevSorted : (rs zs : List A) → RevSorted gt rs → RevSorted gt (insert_all gt rs zs)
  unfolding insert_all
  insert_all-RevSorted rs [] h = h
  insert_all-RevSorted rs (z ∷ zs) h =
      insert_all-RevSorted (insert_rev gt z rs) zs (insert_rev-RevSorted z rs h)

module _ {ℓ} {A : Type ℓ} where
  unreverse-perm :
      (rs : List A) {xs ys : List A} → Perm xs ys → Perm (unreverse rs xs) (unreverse rs ys)
  unreverse-perm [] p = p
  unreverse-perm (r ∷ rs) p = unreverse-perm rs (Perm.cons r p)

  unreverse-unreverse : (zs rs c : List A) → unreverse (unreverse zs rs) c ≡ unreverse rs (zs ++ c)
  unreverse-unreverse [] rs c = refl
  unreverse-unreverse (z ∷ zs) rs c = unreverse-unreverse zs (z ∷ rs) c

  unreverse-perm_append : (rs zs : List A) → Perm (unreverse rs zs) (rs ++ zs)
  unreverse-perm_append [] zs = Perm.refl zs
  unreverse-perm_append (r ∷ rs) zs =
      Perm.trans (unreverse-perm_append rs (r ∷ zs)) (perm_middle rs zs)

module _ {ℓ} {A : Type ℓ} (gt : A → A → Bool) where
  -- Every item of the first list is at most every item of the second.
  abbrev Below : List A → List A → Type 0
  Below rs zs = All (λ r. All (λ z. gt r z ≡ false) zs) rs

  Below-cons :
      (r : A) (rs zs : List A) → All (λ z. gt z r ≡ false) rs → Below rs zs → Below rs (r ∷ zs)
  Below-cons r [] zs h b = tt
  Below-cons r (s ∷ rs) zs h b = ((h.0, b.0), Below-cons r rs zs h.1 b.1)

  unreverse-IsSorted :
      (rs zs : List A)
      → RevSorted gt rs
      → Below rs zs
      → IsSorted gt zs
      → IsSorted gt (unreverse rs zs)
  unreverse-IsSorted [] zs h b s = s
  unreverse-IsSorted (r ∷ rs) zs h b s =
      unreverse-IsSorted rs (r ∷ zs) h.1 (Below-cons r rs zs h.0 b.1) (b.0, s)

  Below-nil : (rs : List A) → Below rs []
  Below-nil [] = tt
  Below-nil (r ∷ rs) = (tt, Below-nil rs)

  insert_rev-perm : (slot : A) (rs : List A) → Perm (insert_rev gt slot rs) (slot ∷ rs)
  unfolding insert_rev
  insert_rev-perm slot [] = Perm.refl (slot ∷ [])
  insert_rev-perm slot (r ∷ rs) = elim (Bool-cases (gt r slot)) [
    | inl up ↦ rw up (Perm.trans (Perm.cons r (insert_rev-perm slot rs)) (Perm.swap slot r rs))
    | inr stop ↦ rw stop (Perm.refl (slot ∷ r ∷ rs))
  ]

  insert_all-perm : (rs zs : List A) → Perm (insert_all gt rs zs) (unreverse zs rs)
  unfolding insert_all
  insert_all-perm rs [] = Perm.refl rs
  insert_all-perm rs (z ∷ zs) =
      Perm.trans (insert_all-perm (insert_rev gt z rs) zs)
        (unreverse-perm zs (insert_rev-perm z rs))

-- Items of one class, none of which compares greater than another, stay in their order.
module _ {ℓ} {A : Type ℓ} (gt : A → A → Bool) (keep : A → Bool)
    (one_class : (a b : A) → keep a ≡ true → keep b ≡ true → gt a b ≡ false) where
  select-unreverse :
      (rs zs : List A) → select keep (unreverse rs zs) ≡ unreverse (select keep rs) (select keep zs)
  select-unreverse [] zs = refl
  select-unreverse (r ∷ rs) zs = elim (Bool-cases (keep r)) [
    | inl kept ↦ rw kept (select-unreverse rs (r ∷ zs) ∙ rw kept refl)
    | inr left ↦ rw left (select-unreverse rs (r ∷ zs) ∙ rw left refl)
  ]

  select-insert_rev :
      (slot : A) (rs : List A) → select keep (insert_rev gt slot rs) ≡ select keep (slot ∷ rs)
  unfolding insert_rev
  select-insert_rev slot [] = refl
  select-insert_rev slot (r ∷ rs) = ground (arith, select-insert_rev slot rs, one_class r slot)

  select-insert_all :
      (rs zs : List A) → select keep (insert_all gt rs zs) ≡ select keep (unreverse zs rs)
  unfolding insert_all
  select-insert_all rs [] = refl
  select-insert_all rs (z ∷ zs) =
      select-insert_all (insert_rev gt z rs) zs
      ∙ select-unreverse zs (insert_rev gt z rs)
      ∙ ap (unreverse (select keep zs)) (select-insert_rev z rs)
      ∙ sym (select-unreverse zs (z ∷ rs))

nonzero : (size : ℕ) → 0 < size → (size == 0) ≡ false
nonzero size h = ground arith

two_items : (n : ℕ) → ltb (suc (suc n)) 2 ≡ false
two_items n = ground arith

rounds : (n : ℕ) → suc (suc n) - 1 ≡ suc n
rounds n = omega arith

-- The result is there, in order, with the items of the input, and equal items are as they were.
pub record Sorts {ℓ} {A : Type ℓ} (gt : A → A → Bool) (items : List A) (result : Option (List A))
    : Type ℓ where
  pub out : List A
  pub returns : result ≡ some out
  pub sorted : IsSorted gt out
  pub same_items : Perm out items
  pub stable :
      (keep : A → Bool)
      → ((a b : A) → keep a ≡ true → keep b ≡ true → gt a b ≡ false)
      → select keep out ≡ select keep items

-- What `qsort` does when the allocation of its slot is granted, and when it is not.
abbrev pub SortsIf {ℓ} : {A : Type ℓ} → (A → A → Bool) → Bool → List A → Option (List A) → Type ℓ
SortsIf gt true items result = Sorts gt items result
SortsIf gt false items result = result ≡ some items

module _ {ℓ} {A : Type ℓ} (gt : A → A → Bool) (order : IsWeakOrder gt) where
  inserted-Sorts : (x : A) (xs : List A) → Sorts gt (x ∷ xs) (sort_loop gt (length xs) 1 (x ∷ xs))
  inserted-Sorts x xs =
      let rs = insert_all gt (x ∷ []) xs in
      record {
        out = unreverse rs [];
        returns = sort_loop-insert_all gt xs (x ∷ []) 1 refl;
        sorted =
            unreverse-IsSorted gt rs [] (insert_all-RevSorted gt order (x ∷ []) xs (tt, tt))
              (Below-nil gt rs) tt;
        same_items = Perm.trans (rw append-nil at (unreverse-perm_append rs [])) (
            Perm.trans (insert_all-perm gt (x ∷ []) xs) (
              Perm.trans (unreverse-perm_append xs (x ∷ []))
                (rw append-nil at (perm_middle {a = x} xs []))));
        stable = λ keep one.
            select-unreverse gt keep one rs []
            ∙ ap (λ (l : List A). unreverse l []) (select-insert_all gt keep one (x ∷ []) xs)
            ∙ sym (select-unreverse gt keep one (unreverse xs (x ∷ [])) [])
            ∙ ap (select keep) {y = x ∷ xs}
                (unreverse-unreverse xs (x ∷ []) [] ∙ rw append-nil refl);
      }

  short : (items : List A) → IsSorted gt items → Sorts gt items (some items)
  short items h = record {
    out = items;
    returns = refl;
    sorted = h;
    same_items = Perm.refl items;
    stable = λ keep one. refl;
  }

  granted-Sorts : (size : ℕ) (items : List A) → 0 < size → Sorts gt items (qsort gt true size items)
  unfolding qsort
  granted-Sorts size [] pos = rw (nonzero size pos) (short [] tt)
  granted-Sorts size (x ∷ []) pos = rw (nonzero size pos) (short (x ∷ []) (tt, tt))
  granted-Sorts size (x ∷ y ∷ xs) pos =
      rw (nonzero size pos, two_items (length xs), rounds (length xs)) (inserted-Sorts x (y ∷ xs))

  -- Whatever the weak order, `qsort` of items that have bytes returns. Where the allocation of its slot
  -- is granted, the result is in order, a permutation of the input and stable: items that compare equal
  -- keep their order. Where it is refused, the items are left as they were, sorted or not.
  pub qsort-Sorts :
      (slot_given : Bool) (size : ℕ) (items : List A)
      → 0 < size
      → SortsIf gt slot_given items (qsort gt slot_given size items)
  unfolding qsort
  qsort-Sorts true size items pos = granted-Sorts size items pos
  qsort-Sorts false size items pos = elim (Bool-cases (size == 0 || ltb (length items) 2)) [
    | inl e ↦ rw e refl
    | inr e ↦ rw e refl
  ]
