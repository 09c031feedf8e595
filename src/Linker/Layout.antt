-- ===== src/Linker/Layout.antt =====
-- The sections of all objects are placed by link_objects of src/linker/linker.c in their outputs, without
-- overlap.
use mathlib.Core.List.{append_assoc}
use cc.Base.{
  ℕ, zero, suc, ◌+◌, ◌%◌, ◌≤◌, ◌<◌, ◌≡◌, ◌≢◌, refl, ap, subst, sym, ◌∙◌, arith, Option, none,
}
use cc.Base.{some, List, [], ◌∷◌, ◌++◌, length, length-set, get_elem?, get_elem?-set_self}
use cc.Base.{
  get_elem?-set_ne, get_elem?-eq_some_lt, set, All, All-get, ◌==◌, Bool-cases, inl, inr, ◌⊎◌,
  ==_iff, size_max, true, false,
}
use cc.Linker.Objects.{LinkSection, OutputSection}
use cc.Linker.Outputs.{place_sections}
use cc.Linker.Placed.{IsSection, content, placed_at, Places, Grown, Grown-trans, Grown-refl}
use cc.Linker.Placed.{place_section-Places}

-- The bytes of the section are in the output at its offset.
pub record StandsIn (f : OutputSection) (s : LinkSection) : Type 0 where
  pub front : List ℕ
  pub rest : List ℕ
  pub parts : f.bytes ≡ front ++ (content s ++ rest)
  pub before : length front ≡ s.output_offset

-- The sections of the output kind `k` stand in the output `f` from `p` on, each aligned and behind the
-- one before.
abbrev pub Chain : ℕ → ℕ → List LinkSection → OutputSection → Type 0
Chain k p [] f = p ≤ f.size
Chain k p (s ∷ ss) f =
    (s.output_kind ≡ k
      → (p ≤ s.output_offset)
        × (s.output_offset % s.alignment ≡ 0)
        × StandsIn f s
        × Chain k (s.output_offset + s.size) ss f)
    × (s.output_kind ≢ k → Chain k p ss f)

-- The second list has the sections of the first, with new places.
abbrev pub SamePlaces : List LinkSection → List LinkSection → Type 0
SamePlaces [] [] = Unit {0}
SamePlaces [] (t ∷ ts) = ⊥
SamePlaces (s ∷ ss) [] = ⊥
SamePlaces (s ∷ ss) (t ∷ ts) = ((at : ℕ) × (t ≡ placed_at s at)) × SamePlaces ss ts

-- The bytes that sections can take, with their padding.
abbrev pub need : List LinkSection → ℕ
need [] = 0
need (s ∷ ss) = s.alignment + s.size + need ss

-- Every output is filled to its size, and has room for sections that need so much.
abbrev pub HaveRoom : List OutputSection → ℕ → Type 0
HaveRoom outputs n =
    (k : ℕ) (o : OutputSection)
    → get_elem? outputs k ≡ some o
    → (length o.bytes ≡ o.size) × (o.size + n ≤ size_max)

pub All-HaveRoom :
    (outputs : List OutputSection) (n : ℕ)
    → All (λ o. (length o.bytes ≡ o.size) × (o.size + n ≤ size_max)) outputs
    → HaveRoom outputs n
All-HaveRoom outputs n h k o e =
    All-get (λ o. (length o.bytes ≡ o.size) × (o.size + n ≤ size_max)) outputs k h e

-- What the output at `k` has become.
pub record Becomes (k : ℕ) (o f : OutputSection) (ss : List LinkSection) : Type 0 where
  pub more : List ℕ
  pub grown : Grown o f more
  pub filled : length f.bytes ≡ f.size
  pub chain : Chain k o.size ss f

abbrev pub AllBecome : List OutputSection → List OutputSection → List LinkSection → Type 0
AllBecome outputs outputs' ss =
    (k : ℕ) (o : OutputSection)
    → get_elem? outputs k ≡ some o
    → (f : OutputSection) × (get_elem? outputs' k ≡ some f) × Becomes k o f ss

pub record Lays (outputs : List OutputSection) (ss : List LinkSection)
    (r : Option (List OutputSection × List LinkSection)) : Type 0 where
  pub outputs' : List OutputSection
  pub sections' : List LinkSection
  pub returns : r ≡ some (outputs', sections')
  pub same : SamePlaces ss sections'
  pub all_become : AllBecome outputs outputs' sections'

pub get_elem?-lt :
    {A : Type 0} (xs : List A) (i : ℕ) → i < length xs → (a : A) × (get_elem? xs i ≡ some a)
get_elem?-lt [] i h = elim h [ ]
get_elem?-lt (x ∷ xs) zero h = (x, refl)
get_elem?-lt (x ∷ xs) (suc i) h = get_elem?-lt xs i (omega arith)

-- The first section is there, and the rest behind it.
chain_first :
    (k : ℕ) (o full f : OutputSection) (s : LinkSection) (at : ℕ) (ss : List LinkSection)
    → s.kind ≡ k
    → Places o full s at
    → Becomes k full f ss
    → Becomes k o f (placed_at s at ∷ ss)
chain_first k o full f s at ss e h b = record {
  more = h.more ++ b.more;
  grown = Grown-trans h.grown b.grown;
  filled = b.filled;
  chain = (
    (λ _. (
      h.aligns.lower,
      h.aligns.aligned,
      record {
        front = h.front;
        rest = b.more;
        parts =
            b.grown.appended
            ∙ ap (λ x. x ++ b.more) h.parts
            ∙ append_assoc h.front (content s) b.more;
        before = h.before;
      },
      subst (λ n. Chain k n ss f) h.ends b.chain,
    )),
    λ ne. absurd (ne e),
  );
}

-- Another output has nothing of it.
chain_other :
    (k : ℕ) (o f : OutputSection) (s : LinkSection) (at : ℕ) (ss : List LinkSection)
    → s.kind ≢ k
    → Becomes k o f ss
    → Becomes k o f (placed_at s at ∷ ss)
chain_other k o f s at ss ne b = record {
  more = b.more;
  grown = b.grown;
  filled = b.filled;
  chain = ((λ e. absurd (ne e)), λ _. b.chain);
}

-- What the outputs have once one of them has changed.
set_cases :
    (outputs : List OutputSection) (k j : ℕ) (full o : OutputSection)
    → k < length outputs
    → get_elem? (set outputs k full) j ≡ some o
    → ((k ≡ j) × (o ≡ full)) ⊎ ((k ≢ j) × (get_elem? outputs j ≡ some o))
set_cases outputs k j full o h e = elim (Bool-cases (k == j)) [
  | inl f ↦
      let same : k ≡ j = (==_iff k j).0 f in
      let there : get_elem? (set outputs k full) j ≡ some full =
        subst (λ i. get_elem? (set outputs k full) i ≡ some full) same
          (get_elem?-set_self outputs k full h) in
      inl (same, some_injective (sym e ∙ there))
  | inr f ↦
      let other : k ≢ j = λ g. ne_of f g in
      inr (other, sym (get_elem?-set_ne outputs k j full other) ∙ e)
]
  where
    ne_of : (k == j) ≡ false → k ≡ j → ⊥
    ne_of f g = ground arith

    some_injective : {x y : OutputSection} → some x ≡ some y → x ≡ y
    some_injective h = ap (λ (r : Option OutputSection). elim r [ some z ↦ z | none ↦ full ]) h

set-HaveRoom :
    (outputs : List OutputSection) (s : LinkSection) (o full : OutputSection) (at n : ℕ)
    → get_elem? outputs s.kind ≡ some o
    → Places o full s at
    → HaveRoom outputs (s.alignment + s.size + n)
    → HaveRoom (set outputs s.kind full) n
set-HaveRoom outputs s o full at n e h room k p there =
    elim (set_cases outputs s.kind k full p (get_elem?-eq_some_lt outputs s.kind e) there) [
      | inl (same, is_full) ↦
          subst (λ q. (length q.bytes ≡ q.size) × (q.size + n ≤ size_max)) (sym is_full)
            (h.filled, omega (arith, h.ends, h.aligns.upper, (room s.kind o e).1))
      | inr (other, old) ↦ ((room k p old).0, omega (arith, (room k p old).1))
    ]

-- The rest becomes what it does, from the outputs with the first section.
all_behind :
    (outputs outputs' : List OutputSection) (s : LinkSection) (o full : OutputSection) (at : ℕ)
    (ss : List LinkSection)
    → get_elem? outputs s.kind ≡ some o
    → Places o full s at
    → AllBecome (set outputs s.kind full) outputs' ss
    → AllBecome outputs outputs' (placed_at s at ∷ ss)
all_behind outputs outputs' s o full at ss e h b k p there = elim (Bool-cases (s.kind == k)) [
  | inl f ↦
      let same : s.kind ≡ k = (==_iff s.kind k).0 f in
      let old : get_elem? outputs k ≡ some o = subst (λ i. get_elem? outputs i ≡ some o) same e in
      let is_o : p ≡ o = some_inj (sym there ∙ old) in
      let now : get_elem? (set outputs s.kind full) k ≡ some full =
        subst (λ i. get_elem? (set outputs s.kind full) i ≡ some full) same
          (get_elem?-set_self outputs s.kind full (get_elem?-eq_some_lt outputs s.kind e)) in
      let (g, ge, gb) = b k full now in
      (
        g,
        ge,
        subst (λ q. Becomes k q g (placed_at s at ∷ ss)) (sym is_o)
            (chain_first k o full g s at ss same h gb),
      )
  | inr f ↦
      let other : s.kind ≢ k = λ g. differ f g in
      let now : get_elem? (set outputs s.kind full) k ≡ some p =
        get_elem?-set_ne outputs s.kind k full other ∙ there in
      let (g, ge, gb) = b k p now in (g, ge, chain_other k p g s at ss other gb)
]
  where
    differ : (s.kind == k) ≡ false → s.kind ≡ k → ⊥
    differ f g = ground arith

    some_inj : {x y : OutputSection} → some x ≡ some y → x ≡ y
    some_inj i = ap (λ (r : Option OutputSection). elim r [ some z ↦ z | none ↦ o ]) i

no_sections :
    (outputs : List OutputSection) → HaveRoom outputs 0 → Lays outputs [] (some (outputs, []))
no_sections outputs room = record {
  outputs' = outputs;
  sections' = [];
  returns = refl;
  same = tt;
  all_become = λ k o e. (
    o,
    e,
    record { more = []; grown = Grown-refl o; filled = (room k o e).0; chain = omega arith },
  );
}

-- With room for all sections and their padding, and the zeros granted, every section is placed: in the
-- output of its kind, aligned, behind the one before, with its bytes or zeros in the output there.
-- The sections keep what else they have, and each output keeps what it had.
pub place_sections-Lays :
    (outputs : List OutputSection) (ss : List LinkSection)
    → All IsSection ss
    → All (λ s. s.kind < length outputs) ss
    → HaveRoom outputs (need ss)
    → Lays outputs ss (place_sections true outputs ss)
unfolding place_sections
place_sections-Lays outputs [] v kinds room = no_sections outputs room
place_sections-Lays outputs (s ∷ ss) (v, vs) (kind, kinds) room =
    let (o, e) = get_elem?-lt outputs s.kind kind in
    let (at, full, step, places) =
      place_section-Places outputs s o e (room s.kind o e).0 v
        (omega (arith, (room s.kind o e).1)) in
    let rest =
      place_sections-Lays (set outputs s.kind full) ss vs
        (subst (λ n. All (λ t. t.kind < n) ss) (sym (length-set outputs s.kind full)) kinds)
        (set-HaveRoom outputs s o full at (need ss) e places room) in
    record {
      outputs' = rest.outputs';
      sections' = placed_at s at ∷ rest.sections';
      returns = rw (step, rest.returns) refl;
      same = ((at, refl), rest.same);
      all_become =
          all_behind outputs rest.outputs' s o full at rest.sections' e places rest.all_become;
    }
