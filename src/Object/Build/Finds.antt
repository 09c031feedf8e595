-- ===== src/Object/Build/Finds.antt =====
-- The search of find_symbol of src/backend/object.c.
use cc.Base.{ℕ, zero, suc, ◌+◌, ◌≤◌, ◌<◌, ◌≡◌, refl, arith, sym, ◌⊎◌, inl, inr}
use cc.Base.{subst, true, ◌==◌, ◌&&◌, Bool-cases}
use cc.Base.{Option, none, some, List, [], ◌∷◌, length, u32_max, get_elem?, All}
use cc.Semantic.Predicates.{same_bytes}
use cc.Semantic.Names.{same_bytes-eq, same_bytes_self}
use cc.Object.Build.{ObjectSymbol, SourceSymbol, find_symbol_from, is_symbol, same_name}

-- The entry has the address of the symbol as its source, or has no source and the name of the symbol.
abbrev pub StandsFor : ObjectSymbol → SourceSymbol → List ℕ → Type 0
StandsFor entry symbol name =
    (entry.source_symbol ≡ symbol.address) ⊎ ((entry.source_symbol ≡ 0) × (entry.name ≡ name))

-- No entry stands for the symbol.
abbrev pub Lacks : List ObjectSymbol → SourceSymbol → List ℕ → Type 0
Lacks entries symbol name = All (λ e. StandsFor e symbol name → ⊥) entries

-- The entry at `place` is the first that stands for the symbol.
pub record First (entries : List ObjectSymbol) (symbol : SourceSymbol) (name : List ℕ) (place : ℕ)
    : Type 0 where
  pub entry : ObjectSymbol
  pub at : get_elem? entries place ≡ some entry
  pub stands : StandsFor entry symbol name
  pub first :
      (j : ℕ) (e : ObjectSymbol)
      → j < place
      → get_elem? entries j ≡ some e
      → StandsFor e symbol name
      → ⊥

pub is_symbol-StandsFor :
    (entry : ObjectSymbol) (symbol : SourceSymbol) (name : List ℕ)
    → symbol.name ≡ some name
    → is_symbol entry symbol ≡ true
    → StandsFor entry symbol name
unfolding is_symbol same_name
is_symbol-StandsFor entry symbol name named h =
    elim (Bool-cases (entry.source_symbol == symbol.address)) [
      | inl e ↦ inl (ground arith)
      | inr e ↦
          let k : (entry.source_symbol == 0 && same_bytes entry.name name) ≡ true =
            rw (e, named) at h in
          let same : same_bytes entry.name name ≡ true = ground (arith, k) in
          inr (ground (arith, k), same_bytes-eq entry.name name same)
    ]

pub StandsFor-is_symbol :
    (entry : ObjectSymbol) (symbol : SourceSymbol) (name : List ℕ)
    → symbol.name ≡ some name
    → StandsFor entry symbol name
    → is_symbol entry symbol ≡ true
unfolding is_symbol same_name
StandsFor-is_symbol entry symbol name named (inl e) = ground (arith, e)
StandsFor-is_symbol entry symbol name named (inr (zero_source, e)) =
    rw (named, e, same_bytes_self name) (ground (arith, zero_source))

module _ (symbol : SourceSymbol) (name : List ℕ) (named : symbol.name ≡ some name) where
  -- The loop finds the first entry, or there is none.
  pub find_symbol_from-First :
      (entries : List ObjectSymbol) (index : ℕ)
      → index + length entries ≤ u32_max
      → ((find_symbol_from entries symbol index ≡ u32_max) × Lacks entries symbol name)
        ⊎ ((place : ℕ) × (find_symbol_from entries symbol index ≡ index + place)
            × First entries symbol name place)
  unfolding find_symbol_from
  find_symbol_from-First [] index h = inl (refl, tt)
  find_symbol_from-First (x ∷ xs) index h = elim (Bool-cases (is_symbol x symbol)) [
    | inl e ↦ rw e (
        inr (
          0,
          omega arith,
          record {
            entry = x;
            at = refl;
            stands = is_symbol-StandsFor x symbol name named e;
            first = λ j y le at k. absurd (omega arith);
          },
        ))
    | inr e ↦
        let other : StandsFor x symbol name → ⊥ =
          λ k. cc (e, StandsFor-is_symbol x symbol name named k) in
        rw e (elim (find_symbol_from-First xs (suc index) (omega arith)) [
          | inl (none_found, lacks) ↦ inl (none_found, (other, lacks))
          | inr (place, at, f) ↦ inr (
            suc place,
            omega (arith, at),
            record {
              entry = f.entry;
              at = f.at;
              stands = f.stands;
              first = λ j y le there k. later x xs other place f j y le there k;
            },
          )
        ])
  ]
    where
      later :
          (x : ObjectSymbol) (xs : List ObjectSymbol)
          → (StandsFor x symbol name → ⊥)
          → (place : ℕ) → First xs symbol name place
          → (j : ℕ) (y : ObjectSymbol) → j < suc place
          → get_elem? (x ∷ xs) j ≡ some y
          → StandsFor y symbol name
          → ⊥
      later x xs other place f zero y le there k = other (
          subst
            (λ (o : Option ObjectSymbol). elim o [ some z ↦ StandsFor z symbol name | none ↦ ⊥ ])
            (sym there) k)
      later x xs other place f (suc j) y le there k = f.first j y (omega arith) there k
