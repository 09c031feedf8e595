-- ===== src/Abi/Walks.antt =====
-- The walk over members of src/backend/abi.c ends: types that nest by a rank give it enough fuel.
use cc.Base.{ℕ, zero, suc, ◌+◌, ◌*◌, ◌%◌, ◌<◌, ◌≡◌, ◌≢◌, refl, arith, sym, ◌∙◌}
use cc.Base.{true, not, ◌||◌, Bool-cases, inl, inr, ◌==◌, ltb}
use cc.Base.{Option, none, some, List, [], ◌∷◌, All, u64}
use cc.Semantic.Kind.{array, same_kind, is_record_kind}
use cc.Semantic.Store.{CType, Member, deref}
use cc.Semantic.Predicates.{type_size}
use cc.Abi.Classify.{
  AggClass, Marks, Walk, walked, crosses, stuck, walk_elements, walk_scalar, walk_array,
}
use cc.Abi.Classify.{walk_field, walk_list, walk_type, walk_members, after_walk}
use cc.Abi.Classify.{classify_complete, classify_typed, abi_aggregate_pieces, and_then}

module _ (store : List CType) (rank : ℕ → ℕ) where
  -- The field of a member ranks below `k`: as a structure or union itself, as an array by its element.
  abbrev pub FieldBelow : ℕ → Member → Type 0
  FieldBelow k m =
      (f : CType)
      → deref store m.field ≡ some f
      → (is_record_kind f.kind ≡ true → rank m.field < k)
        × (same_kind f.kind array ≡ true → rank f.base < k)

  -- No type contains itself: what its members hold by value has a lower rank.
  pub record Nested : Type 0 where
    pub below : (p : ℕ) (t : CType) → deref store p ≡ some t → All (FieldBelow (rank p)) t.members

-- The walk is not stuck.
abbrev pub Ends : Walk → Type 0
Ends (walked marks) = Unit
Ends (crosses marks) = Unit
Ends stuck = ⊥

and_then-Ends :
    (w : Walk) (more : Marks → Walk)
    → Ends w
    → ((m : Marks) → Ends (more m))
    → Ends (and_then w more)
and_then-Ends (walked marks) more h hm = hm marks
and_then-Ends (crosses marks) more h hm = tt
and_then-Ends stuck more h hm = h

walk_scalar-Ends : (f : CType) (offset : ℕ) (marks : Marks) → Ends (walk_scalar f offset marks)
unfolding walk_scalar
walk_scalar-Ends f offset marks = elim (Bool-cases (f.size == 0)) [
  | inl h ↦ rw h tt
  | inr h ↦ elim (Bool-cases (ltb 8 (u64 (offset % 8 + f.size)))) [
    | inl h' ↦ rw (h, h') tt
    | inr h' ↦ rw (h, h') tt
  ]
]

walk_elements-Ends :
    (walk : ℕ → ℕ → Marks → Walk) (type offset element left index : ℕ) (marks : Marks)
    → ((base : ℕ) (m : Marks) → Ends (walk type base m))
    → Ends (walk_elements walk type offset element left index marks)
unfolding walk_elements
walk_elements-Ends walk type offset element zero index marks h = tt
walk_elements-Ends walk type offset element (suc left) index marks h =
    and_then-Ends _ _ (h (u64 (offset + u64 (index * element))) marks)
      (λ m. walk_elements-Ends walk type offset element left (suc index) m h)

module _ (store : List CType) (rank : ℕ → ℕ) (nested : Nested store rank) where
  -- Walks of the types below `k` end.
  abbrev EndsBelow : ℕ → (ℕ → ℕ → Marks → Walk) → Type 0
  EndsBelow k walk =
      (p : ℕ) (t : CType)
      → deref store p ≡ some t
      → rank p < k
      → (base : ℕ) (marks : Marks) → Ends (walk p base marks)

  walk_array-Ends :
      (k : ℕ) (walk : ℕ → ℕ → Marks → Walk) (f : CType) (offset : ℕ) (marks : Marks)
      (o : Option CType)
      → EndsBelow k walk
      → rank f.base < k
      → deref store f.base ≡ o
      → Ends (walk_array walk f (type_size o) offset marks)
  unfolding walk_array type_size
  walk_array-Ends k walk f offset marks none h b e = tt
  walk_array-Ends k walk f offset marks (some t) h b e = elim (Bool-cases (t.size == 0)) [
    | inl empty ↦ rw empty tt
    | inr sized ↦
        rw sized
          (walk_elements-Ends walk f.base offset t.size f.array_count 0 marks (h f.base t e b))
  ]

  walk_field-Ends :
      (k : ℕ) (walk : ℕ → ℕ → Marks → Walk) (m : Member) (offset : ℕ) (marks : Marks)
      (o : Option CType)
      → EndsBelow k walk
      → FieldBelow store rank k m
      → deref store m.field ≡ o
      → Ends (walk_field walk store m.field offset marks o)
  unfolding walk_field
  walk_field-Ends k walk m offset marks none h b e = tt
  walk_field-Ends k walk m offset marks (some f) h b e = elim (Bool-cases (is_record_kind f.kind)) [
    | inl r ↦ rw r (h m.field f e ((b f e).0 r) offset marks)
    | inr r ↦ elim (Bool-cases (same_kind f.kind array)) [
      | inr a ↦ rw (r, a) (walk_scalar-Ends f offset marks)
      | inl a ↦
          rw (r, a)
            (walk_array-Ends k walk f offset marks (deref store f.base) h ((b f e).1 a) refl)
    ]
  ]

  walk_list-Ends :
      (k : ℕ) (walk : ℕ → ℕ → Marks → Walk) (ms : List Member) (base : ℕ) (marks : Marks)
      → EndsBelow k walk
      → All (FieldBelow store rank k) ms
      → Ends (walk_list walk store ms base marks)
  unfolding walk_list
  walk_list-Ends k walk [] base marks h b = tt
  walk_list-Ends k walk (m ∷ ms) base marks h (b, bs) =
      and_then-Ends _ _
        (walk_field-Ends k walk m (u64 (base + m.offset)) marks (deref store m.field) h b refl)
        (λ m'. walk_list-Ends k walk ms base m' h bs)

  walk_type-Ends :
      (fuel p : ℕ) (t : CType) (o : Option CType) (base : ℕ) (marks : Marks)
      → deref store p ≡ some t
      → o ≡ some t
      → EndsBelow (rank p) (walk_members fuel store)
      → Ends (walk_type (walk_list (walk_members fuel store) store) o base marks)
  unfolding walk_type
  walk_type-Ends fuel p t none base marks found e h = cc
  walk_type-Ends fuel p t (some t') base marks found e h =
      walk_list-Ends (rank p) (walk_members fuel store) t'.members base marks h
        (nested.below p t' (found ∙ sym e))

  -- Fuel above the rank of a type is enough for the walk over its members.
  pub walk_members-Ends :
      (fuel p : ℕ) (t : CType)
      → deref store p ≡ some t
      → rank p < fuel
      → (base : ℕ) (marks : Marks) → Ends (walk_members fuel store p base marks)
  unfolding walk_members
  walk_members-Ends zero p t found h base marks = absurd (omega arith)
  walk_members-Ends (suc fuel) p t found h base marks =
      walk_type-Ends fuel p t (deref store p) base marks found found
        (λ q u e below. walk_members-Ends fuel q u e (omega arith))

  after_walk-some :
      (size : ℕ) (pieces : List AggClass) (w : Walk) → Ends w → after_walk size pieces w ≢ none
  unfolding after_walk
  after_walk-some size pieces (walked marks) h = λ e. cc
  after_walk-some size pieces (crosses marks) h = λ e. cc
  after_walk-some size pieces stuck h = absurd h

  classify_typed-some :
      (fuel p : ℕ) (pieces : List AggClass) (o : Option CType)
      → rank p < fuel
      → deref store p ≡ o
      → classify_typed fuel store p pieces o ≢ none
  unfolding classify_typed classify_complete
  classify_typed-some fuel p pieces none h e = λ n. cc
  classify_typed-some fuel p pieces (some t) h e =
      elim (Bool-cases (not (is_record_kind t.kind) || t.incomplete)) [
        | inl skip ↦ rw skip λ n. cc
        | inr whole ↦ elim (Bool-cases (t.size == 0)) [
          | inl empty ↦ rw (whole, empty) λ n. cc
          | inr sized ↦ elim (Bool-cases (ltb 16 t.size)) [
            | inl large ↦ rw (whole, sized, large) λ n. cc
            | inr small ↦
                rw (whole, sized, small)
                  (after_walk-some t.size pieces _ (walk_members-Ends fuel p t e h 0 _))
          ]
        ]
      ]

  pub abi_aggregate_pieces-some :
      (fuel p : ℕ) (pieces : List AggClass)
      → rank p < fuel
      → abi_aggregate_pieces fuel store p pieces ≢ none
  unfolding abi_aggregate_pieces
  abi_aggregate_pieces-some fuel p pieces h =
      classify_typed-some fuel p pieces (deref store p) h refl
