-- ===== src/Linker/Disjoint.antt =====
-- The ranges that the linker of src/linker/linker.c accepts are inside the file and disjoint, and the
-- check of the bytes outside of them.
use cc.Base.{ℕ, ◌+◌, ◌-◌, ◌^◌, ◌≤◌, ◌<◌, ◌≡◌, ◌↔◌, refl, arith}
use cc.Base.{true, false, not, ◌&&◌, ◌==◌, ltb, leb, Bool-cases, inl, inr, ◌⊎◌}
use cc.Base.{Option, none, some, List, [], ◌∷◌, ◌++◌, length, u64}
use cc.Linker.Ranges.{ObjectRange, LinkObject, range_ok, overlaps_any, object_range_add}

-- The byte at `i` is one of the range.
abbrev pub In : ℕ → ObjectRange → Type 0
In i r = (r.offset ≤ i) × (i < r.offset + r.extent)

abbrev pub InAny : ℕ → List ObjectRange → Type 0
InAny i [] = ⊥
InAny i (r ∷ rs) = In i r ⊎ InAny i rs

-- Ranges with bytes, inside the file, no byte of which is in two of them.
abbrev pub AreRanges : ℕ → List ObjectRange → Type 0
AreRanges size [] = Unit
AreRanges size (r ∷ rs) =
    (0 < r.extent)
    × (r.offset + r.extent ≤ size)
    × ((i : ℕ) → In i r → InAny i rs → ⊥)
    × AreRanges size rs

-- A range that overlaps none, as the loop says, has no byte in common with one.
overlaps_any-apart :
    (offset extent size : ℕ) (rs : List ObjectRange)
    → size < 2 ^ 63
    → offset + extent ≤ size
    → AreRanges size rs
    → overlaps_any offset (u64 (offset + extent)) rs ≡ false
    → (i : ℕ) → offset ≤ i
    → i < offset + extent
    → InAny i rs
    → ⊥
unfolding overlaps_any
overlaps_any-apart offset extent size [] small fits v e i lo hi h = h
overlaps_any-apart offset extent size (r ∷ rs) small fits v e i lo hi (inl h) = ground (arith, e, h)
overlaps_any-apart offset extent size (r ∷ rs) small fits v e i lo hi (inr h) =
    overlaps_any-apart offset extent size rs small fits v.3 (ground (arith, e)) i lo hi h

-- Where it overlaps one, there is such a byte.
overlaps_any-shared :
    (offset extent size : ℕ) (rs : List ObjectRange)
    → size < 2 ^ 63
    → 0 < extent
    → offset + extent ≤ size
    → AreRanges size rs
    → overlaps_any offset (u64 (offset + extent)) rs ≡ true
    → (i : ℕ) × (offset ≤ i) × (i < offset + extent) × InAny i rs
unfolding overlaps_any
overlaps_any-shared offset extent size [] small pos fits v e = cc
overlaps_any-shared offset extent size (r ∷ rs) small pos fits v e =
    elim (Bool-cases
      (ltb offset (u64 (r.offset + r.extent)) && ltb r.offset (u64 (offset + extent)))) [
        | inl here ↦ elim (Bool-cases (leb offset r.offset)) [
          | inl first ↦ (
            r.offset,
            ground (arith, first),
            ground (arith, here),
            inl (omega arith, omega arith),
          )
          | inr second ↦
              (offset, omega arith, omega arith, inl (ground (arith, second), ground (arith, here)))
        ]
        | inr past ↦
            let (i, lo, hi, h) =
              overlaps_any-shared offset extent size rs small pos fits v.3
                (ground (arith, e, past)) in
            (i, lo, hi, inr h)
      ]

InAny-append :
    (i : ℕ) (rs : List ObjectRange) (n : ObjectRange)
    → InAny i (rs ++ (n ∷ [])) ↔ (InAny i rs ⊎ In i n)
InAny-append i rs n = (forth rs, back rs)
  where
    forth : (rs : List ObjectRange) → InAny i (rs ++ (n ∷ [])) → InAny i rs ⊎ In i n
    forth [] (inl h) = inr h
    forth [] (inr h) = absurd h
    forth (r ∷ rs) (inl h) = inl (inl h)
    forth (r ∷ rs) (inr h) = elim (forth rs h) [ inl k ↦ inl (inr k) | inr k ↦ inr k ]

    back : (rs : List ObjectRange) → InAny i rs ⊎ In i n → InAny i (rs ++ (n ∷ []))
    back [] (inl h) = absurd h
    back [] (inr h) = inl h
    back (r ∷ rs) (inl (inl h)) = inl h
    back (r ∷ rs) (inl (inr h)) = inr (back rs (inl h))
    back (r ∷ rs) (inr h) = inr (back rs (inr h))

AreRanges-append :
    (size : ℕ) (rs : List ObjectRange) (n : ObjectRange)
    → 0 < n.extent
    → n.offset + n.extent ≤ size
    → AreRanges size rs
    → ((i : ℕ) → In i n → InAny i rs → ⊥)
    → AreRanges size (rs ++ (n ∷ []))
AreRanges-append size [] n pos fits v apart = (pos, fits, (λ i h k. k), tt)
AreRanges-append size (r ∷ rs) n pos fits v apart = (
  v.0,
  v.1,
  (λ i h k. elim ((InAny-append i rs n).0 k) [
    | inl old ↦ v.2 i h old
    | inr new ↦ apart i new (inl h)
  ]),
  AreRanges-append size rs n pos fits v.3 (λ i h k. apart i h (inr k)),
)

-- What the addition of a range answers.
pub record Accounts (object : LinkObject) (offset extent : ℕ) (object' : LinkObject) : Type 0 where
  pub valid : AreRanges (length object.bytes) object'.ranges
  pub same_bytes : object'.bytes ≡ object.bytes
  pub inside : 0 < extent → offset + extent ≤ length object.bytes
  pub fresh : (i : ℕ) → offset ≤ i → i < offset + extent → InAny i object.ranges → ⊥
  pub covers :
      (i : ℕ)
      → InAny i object'.ranges ↔ (InAny i object.ranges ⊎ ((offset ≤ i) × (i < offset + extent)))

abbrev pub AccountsSome : LinkObject → ℕ → ℕ → Option LinkObject → Type 0
AccountsSome object offset extent none =
    (0 < extent)
    × ((length object.bytes < offset + extent)
        ⊎ ((i : ℕ) × (offset ≤ i) × (i < offset + extent) × InAny i object.ranges))
AccountsSome object offset extent (some object') = Accounts object offset extent object'

-- On a file below 2 ^ 63 bytes with valid ranges, a range with bytes is refused exactly when it passes
-- the end of the file or has a byte in common with an earlier one; else the ranges are valid again and
-- cover the old bytes and those of the range, and a range without bytes changes no coverage.
pub object_range_add-Accounts :
    (object : LinkObject) (offset extent : ℕ)
    → length object.bytes < 2 ^ 63
    → AreRanges (length object.bytes) object.ranges
    → AccountsSome object offset extent (object_range_add object offset extent)
unfolding object_range_add range_ok
object_range_add-Accounts object offset extent small v = elim (Bool-cases (extent == 0)) [
  | inl empty ↦ rw empty (record {
    valid = v;
    same_bytes = refl;
    inside = λ h. absurd (ground (arith, h, empty));
    fresh = λ i lo hi k. ground (arith, lo, hi, empty);
    covers = λ i. (inl, λ h. elim h [ inl k ↦ k | inr k ↦ absurd (ground (arith, k, empty)) ]);
  })
  | inr some_bytes ↦
      elim (Bool-cases
        (not (leb offset (length object.bytes) && leb extent (length object.bytes - offset)))) [
          | inl outside ↦
              rw (some_bytes, outside) (ground (arith, some_bytes), inl (ground (arith, outside)))
          | inr inside ↦
              let fits : offset + extent ≤ length object.bytes = ground (arith, inside) in
              elim (Bool-cases (overlaps_any offset (u64 (offset + extent)) object.ranges)) [
                | inl clash ↦
                    rw (some_bytes, inside, clash)
                      (
                        ground (arith, some_bytes),
                        inr (
                            overlaps_any-shared offset extent _ object.ranges small
                              (ground (arith, some_bytes)) fits v clash),
                      )
                | inr apart ↦
                    rw (some_bytes, inside, apart)
                      (record {
                        valid =
                            AreRanges-append _ object.ranges _ (ground (arith, some_bytes)) fits v
                              (λ i h k.
                                overlaps_any-apart offset extent _ object.ranges small fits v apart
                                  i h.0 h.1 k);
                        same_bytes = refl;
                        inside = λ h. fits;
                        fresh = overlaps_any-apart offset extent _ object.ranges small fits v apart;
                        covers = λ i.
                            InAny-append i object.ranges
                              (record { offset = offset; extent = extent });
                      })
              ]
        ]
]
