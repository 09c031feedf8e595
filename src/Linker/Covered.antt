-- ===== src/Linker/Covered.antt =====
-- The check of src/linker/linker.c that the bytes outside of the ranges are zero.
use cc.Base.{ap, ltb, ℕ, zero, suc, ◌+◌, ◌≤◌, ◌<◌, ◌≡◌, ◌↔◌, refl, arith, sym, ◌∙◌, subst}
use cc.Base.{Bool, true, false, not, ◌&&◌, ◌==◌, Bool-cases, inl, inr, ◌⊎◌}
use cc.Base.{some, List, [], ◌∷◌, length, get_or, set, replicate, get_elem?}
use cc.Base.{get_or-set_self, get_or-set_ne, get_or-replicate, length-set, length-replicate}
use cc.Base.{get_elem?-eq_some_lt}
use mathlib.Core.Option.{some-injective}
use cc.Linker.Ranges.{ObjectRange, LinkObject, cover_range, cover_ranges, uncovered_zero}
use cc.Linker.Ranges.{object_uncovered_bytes_are_zero}
use cc.Linker.Disjoint.{InAny, AreRanges}

abbrev Marked : List Bool → ℕ → Type 0
Marked covered i = get_or covered i false ≡ true

-- What the loops leave when every range is inside of the file.
abbrev mark_range : ℕ → ℕ → ℕ → List Bool → List Bool
mark_range zero j offset covered = covered
mark_range (suc left) j offset covered =
    mark_range left (suc j) offset (set covered (offset + j) true)

abbrev mark_ranges : List ObjectRange → List Bool → List Bool
mark_ranges [] covered = covered
mark_ranges (r ∷ rs) covered = mark_ranges rs (mark_range r.extent 0 r.offset covered)

set_marks :
    (covered : List Bool) (at i : ℕ)
    → i < length covered
    → Marked (set covered at true) i ↔ (Marked covered i ⊎ (i ≡ at))
set_marks covered at i h = elim (Bool-cases (at == i)) [
  | inl here ↦
      let same : at ≡ i = ground arith in
      (
        λ k. inr (sym same),
        λ k.
            subst (λ n. Marked (set covered n true) i) (sym same)
              (get_or-set_self covered i true false h),
      )
  | inr other ↦
      let e = get_or-set_ne covered at i true false (λ p. ground (arith, other, p)) in
      (λ k. inl (sym e ∙ k), λ k. elim k [ inl m ↦ e ∙ m | inr p ↦ ground (arith, p, other) ])
]

mark_range-length :
    (left j offset : ℕ) (covered : List Bool)
    → length (mark_range left j offset covered) ≡ length covered
mark_range-length zero j offset covered = refl
mark_range-length (suc left) j offset covered =
    mark_range-length left (suc j) offset (set covered (offset + j) true)
    ∙ length-set covered (offset + j) true

mark_range-marks :
    (left j offset : ℕ) (covered : List Bool) (i : ℕ)
    → i < length covered
    → Marked (mark_range left j offset covered) i
      ↔ (Marked covered i ⊎ ((offset + j ≤ i) × (i < offset + j + left)))
mark_range-marks zero j offset covered i h =
    (inl, λ k. elim k [ inl m ↦ m | inr r ↦ absurd (omega (arith, r.0, r.1)) ])
mark_range-marks (suc left) j offset covered i h =
    let more =
      mark_range-marks left (suc j) offset (set covered (offset + j) true) i
        (subst (λ n. i < n) (sym (length-set covered (offset + j) true)) h) in
    let one = set_marks covered (offset + j) i h in
    (
      λ k. elim (more.0 k) [
        | inl m ↦ elim (one.0 m) [
          | inl old ↦ inl old
          | inr p ↦ inr (omega (arith, p), omega (arith, p))
        ]
        | inr r ↦ inr (omega (arith, r.0), omega (arith, r.1))
      ],
      λ k. elim k [
        | inl old ↦ more.1 (inl (one.1 (inl old)))
        | inr r ↦ elim (Bool-cases (i == offset + j)) [
          | inl p ↦ more.1 (inl (one.1 (inr (ground (arith, p)))))
          | inr p ↦ more.1 (inr (ground (arith, p, r.0), ground (arith, p, r.1)))
        ]
      ],
    )

mark_ranges-length :
    (rs : List ObjectRange) (covered : List Bool) → length (mark_ranges rs covered) ≡ length covered
mark_ranges-length [] covered = refl
mark_ranges-length (r ∷ rs) covered =
    mark_ranges-length rs (mark_range r.extent 0 r.offset covered)
    ∙ mark_range-length r.extent 0 r.offset covered

mark_ranges-marks :
    (rs : List ObjectRange) (covered : List Bool) (i : ℕ)
    → i < length covered
    → Marked (mark_ranges rs covered) i ↔ (Marked covered i ⊎ InAny i rs)
mark_ranges-marks [] covered i h = (inl, λ k. elim k [ inl m ↦ m | inr r ↦ absurd r ])
mark_ranges-marks (r ∷ rs) covered i h =
    let one = mark_range-marks r.extent 0 r.offset covered i h in
    let more =
      mark_ranges-marks rs (mark_range r.extent 0 r.offset covered) i
        (subst (λ n. i < n) (sym (mark_range-length r.extent 0 r.offset covered)) h) in
    (
      λ k. elim (more.0 k) [
        | inl m ↦ elim (one.0 m) [
          | inl old ↦ inl old
          | inr p ↦ inr (inl (omega (arith, p.0), omega (arith, p.1)))
        ]
        | inr q ↦ inr (inr q)
      ],
      λ k. elim k [
        | inl old ↦ more.1 (inl (one.1 (inl old)))
        | inr q ↦ elim q [
          | inl p ↦ more.1 (inl (one.1 (inr (omega (arith, p.0), omega (arith, p.1)))))
          | inr p ↦ more.1 (inr p)
        ]
      ],
    )

cover_range-some :
    (left j offset : ℕ) (covered : List Bool)
    → offset + j + left ≤ length covered
    → cover_range left j offset covered ≡ some (mark_range left j offset covered)
unfolding cover_range
cover_range-some zero j offset covered h = refl
cover_range-some (suc left) j offset covered h =
    let inside : ltb (offset + j) (length covered) ≡ true = ground arith in
    rw inside (
      cover_range-some left (suc j) offset (set covered (offset + j) true)
        (omega (arith, length-set covered (offset + j) true)))

cover_ranges-some :
    (size : ℕ) (rs : List ObjectRange) (covered : List Bool)
    → length covered ≡ size
    → AreRanges size rs
    → cover_ranges rs covered ≡ some (mark_ranges rs covered)
unfolding cover_ranges
cover_ranges-some size [] covered e h = refl
cover_ranges-some size (r ∷ rs) covered e h =
    let (positive, inside, apart, more) = h in
    rw (cover_range-some r.extent 0 r.offset covered (omega arith)) (
      cover_ranges-some size rs (mark_range r.extent 0 r.offset covered)
        (mark_range-length r.extent 0 r.offset covered ∙ e) more)

-- Bytes that are not marked are zero.
abbrev ZeroOutside : List Bool → List ℕ → Type 0
ZeroOutside covered bytes =
    (i b : ℕ) → get_elem? bytes i ≡ some b → get_or covered i false ≡ false → b ≡ 0

ZeroOutside-cons :
    (c : Bool) (x : ℕ) (cs : List Bool) (xs : List ℕ)
    → (not c && not (x == 0)) ≡ false
    → ZeroOutside cs xs
    → ZeroOutside (c ∷ cs) (x ∷ xs)
ZeroOutside-cons c x cs xs fine z zero b f g = sym (some-injective x b f) ∙ ground (arith, fine, g)
ZeroOutside-cons c x cs xs fine z (suc i) b f g = z i b f g

uncovered_zero_iff :
    (covered : List Bool) (bytes : List ℕ)
    → length covered ≡ length bytes
    → (uncovered_zero covered bytes ≡ true) ↔ ZeroOutside covered bytes
unfolding uncovered_zero
uncovered_zero_iff [] [] h = (λ e i b f. cc, λ z. refl)
uncovered_zero_iff [] (x ∷ xs) h = absurd (omega arith)
uncovered_zero_iff (c ∷ cs) [] h = absurd (omega arith)
uncovered_zero_iff (c ∷ cs) (x ∷ xs) h =
    let (forth, back) = uncovered_zero_iff cs xs (omega arith) in
    elim (Bool-cases (not c && not (x == 0))) [
      | inl bad ↦ rw bad (λ e. cc, λ z. ground (arith, bad, z 0 x refl (ground (arith, bad))))
      | inr fine ↦
          rw fine (λ e. ZeroOutside-cons c x cs xs fine (forth e), λ z. back (λ i b. z (suc i) b))
    ]

abbrev all_blank : List ℕ → List Bool
all_blank bytes = replicate (length bytes) false

-- A byte of the file is marked exactly when it is in a range.
Marked-InAny :
    (rs : List ObjectRange) (bytes : List ℕ) (i b : ℕ)
    → get_elem? bytes i ≡ some b
    → Marked (mark_ranges rs (all_blank bytes)) i ↔ InAny i rs
Marked-InAny rs bytes i b f =
    let more =
      mark_ranges-marks rs (all_blank bytes) i
        (omega (arith, get_elem?-eq_some_lt bytes i f, length-replicate (length bytes) false)) in
    (
      λ k. elim (more.0 k) [ inl m ↦ cc (m, get_or-replicate (length bytes) i false) | inr q ↦ q ],
      λ q. more.1 (inr q),
    )

unmarked : (covered : List Bool) (i : ℕ) → (Marked covered i → ⊥) → get_or covered i false ≡ false
unmarked covered i h = elim (Bool-cases (get_or covered i false)) [
  | inl m ↦ absurd (h m)
  | inr e ↦ e
]

-- With ranges that are inside of the file and disjoint, as object_range_add keeps them, the check answers
-- true exactly when its allocation is granted and every byte of the file that is in no range is zero.
pub object_uncovered_bytes_are_zero_iff :
    (calloc_given : Bool) (object : LinkObject)
    → AreRanges (length object.bytes) object.ranges
    → (object_uncovered_bytes_are_zero calloc_given object ≡ some true) ↔ (
        (calloc_given ≡ true)
        × ((i b : ℕ) → get_elem? object.bytes i ≡ some b → (InAny i object.ranges → ⊥) → b ≡ 0))
unfolding object_uncovered_bytes_are_zero
object_uncovered_bytes_are_zero_iff false object ranges = (λ e. cc, λ z. cc (z.0))
object_uncovered_bytes_are_zero_iff true object ranges =
    let runs =
      cover_ranges-some (length object.bytes) object.ranges (all_blank object.bytes)
        (length-replicate (length object.bytes) false) ranges in
    let covered = mark_ranges object.ranges (all_blank object.bytes) in
    let size =
      mark_ranges-length object.ranges (all_blank object.bytes)
      ∙ length-replicate (length object.bytes) false in
    let both = uncovered_zero_iff covered object.bytes size in
    rw runs (
      λ e. (
        refl,
        λ i b f out.
            both.0 (some-injective _ _ e) i b f
              (unmarked covered i (λ m. out ((Marked-InAny object.ranges object.bytes i b f).0 m))),
      ),
      λ z. ap some (
          both.1 (λ i b f e.
            z.1 i b f (λ q. cc (e, (Marked-InAny object.ranges object.bytes i b f).1 q)))),
    )
