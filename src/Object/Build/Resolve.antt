-- ===== src/Object/Build/Resolve.antt =====
-- `object_add_relocation` of src/backend/object.c: the relocation's symbol is in the table behind it.
use cc.Base.{◌*◌, All-get, get_elem?-append_end}
use cc.Object.Build.Finds.{StandsFor, Lacks, First, find_symbol_from-First}
use cc.Base.{ℕ, ◌+◌, ◌≤◌, ◌<◌, ◌≡◌, ◌≢◌, refl, arith, ap, subst, ◌∙◌, ◌⊎◌, inl, inr}
use cc.Base.{Bool, true, false, ◌==◌, ltb, if◌then◌else◌, Bool-cases}
use cc.Base.{Option-cases, Option, none, some, List, [], ◌∷◌, ◌++◌, length, u32_max, get_elem?}
use cc.Base.{length-append, get_elem?-eq_some_lt, get_elem?-set_self, get_elem?-set_ne}
use cc.Object.Build.{ObjectBuilder, ObjectSymbol, ObjectSection, SourceSymbol, IrRelocation}
use cc.Object.Build.{find_symbol, find_symbol_from, ensure_symbol, object_add_symbol}
use cc.Object.Build.{object_add_relocation, refuses_relocation, put_relocation}

-- The symbol is found in the table of the second builder, at its first entry that stands for it. Every
-- symbol of the first one is where it was: with an entry that stands for the symbol the table is as it
-- was, and else it has one more at its end, undefined, with the name and the address of the symbol.
pub record Ensures (builder : ObjectBuilder) (symbol : SourceSymbol) (name : List ℕ)
    (builder' : ObjectBuilder) : Type 0 where
  pub resolved : First builder'.symbols symbol name (find_symbol builder' symbol)
  pub table :
      ((builder'.symbols ≡ builder.symbols) × (Lacks builder.symbols symbol name → ⊥))
      ⊎ (Lacks builder.symbols symbol name
          × ((last : ObjectSymbol) × (builder'.symbols ≡ builder.symbols ++ (last ∷ []))
              × (last.name ≡ name)
              × (last.source_symbol ≡ symbol.address)
              × (last.section_index ≡ u32_max)
              × (last.defined ≡ false)))
  pub same_sections : builder'.sections ≡ builder.sections

abbrev pub EnsuresSome : ObjectBuilder → SourceSymbol → List ℕ → Option ObjectBuilder → Type 0
EnsuresSome builder symbol name none = ⊥
EnsuresSome builder symbol name (some builder') = Ensures builder symbol name builder'

binding_fits : (b : Bool) → ltb 1 (if b then 0 else 1) ≡ false
binding_fits true = refl
binding_fits false = refl

kind_fits : (b : Bool) → ltb 4 (if b then 2 else 1) ≡ false
kind_fits true = refl
kind_fits false = refl

Lacks-get :
    (entries : List ObjectSymbol) (symbol : SourceSymbol) (name : List ℕ) (i : ℕ) {e : ObjectSymbol}
    → Lacks entries symbol name
    → get_elem? entries i ≡ some e
    → StandsFor e symbol name
    → ⊥
Lacks-get entries symbol name i h at = All-get (λ e. StandsFor e symbol name → ⊥) entries i h at

module _ (symbol : SourceSymbol) (name : List ℕ) (named : symbol.name ≡ some name) where
  -- A table with an entry that stands for the symbol has a first one, and it is found.
  found-First :
      (builder : ObjectBuilder)
      → length builder.symbols ≤ u32_max
      → (Lacks builder.symbols symbol name → ⊥)
      → First builder.symbols symbol name (find_symbol builder symbol)
  unfolding find_symbol
  found-First builder room some_stands =
      elim (find_symbol_from-First symbol name named builder.symbols 0 (omega arith)) [
        | inl (e, lacks) ↦ absurd (some_stands lacks)
        | inr (place, e, f) ↦
            subst (First builder.symbols symbol name) {x = place}
              {y = find_symbol_from builder.symbols symbol 0} (omega (arith, e)) f
      ]

  last_stands :
      (entries : List ObjectSymbol) (last : ObjectSymbol)
      → last.source_symbol ≡ symbol.address
      → Lacks (entries ++ (last ∷ [])) symbol name
      → ⊥
  last_stands entries last at lacks =
      Lacks-get (entries ++ (last ∷ [])) symbol name (length entries) lacks
        (get_elem?-append_end entries last) (inl at)

  missing-Lacks :
      (builder : ObjectBuilder)
      → length builder.symbols < u32_max
      → (find_symbol builder symbol == u32_max) ≡ true
      → Lacks builder.symbols symbol name
  unfolding find_symbol
  missing-Lacks builder room e =
      elim (find_symbol_from-First symbol name named builder.symbols 0 (omega arith)) [
        | inl (k, lacks) ↦ lacks
        | inr (place, k, f) ↦
            let inside = get_elem?-eq_some_lt builder.symbols place f.at in
            absurd (ground (arith, e, k, inside))
      ]

  present-not_Lacks :
      (builder : ObjectBuilder)
      → length builder.symbols < u32_max
      → (find_symbol builder symbol == u32_max) ≡ false
      → Lacks builder.symbols symbol name
      → ⊥
  unfolding find_symbol
  present-not_Lacks builder room e lacks =
      elim (find_symbol_from-First symbol name named builder.symbols 0 (omega arith)) [
        | inl (k, l) ↦ ground (arith, e, k)
        | inr (place, k, f) ↦ Lacks-get builder.symbols symbol name place lacks f.at f.stands
      ]

  ensure_symbol-Ensures :
      (builder : ObjectBuilder)
      → length builder.symbols < u32_max
      → EnsuresSome builder symbol name (ensure_symbol builder symbol)
  unfolding ensure_symbol object_add_symbol
  ensure_symbol-Ensures builder room = elim (Bool-cases (find_symbol builder symbol == u32_max)) [
    | inl missing ↦
        simp (missing, named, binding_fits symbol.is_internal, kind_fits symbol.is_function)
          (record {
            resolved =
                found-First _ (omega (arith, length-append builder.symbols (_ ∷ [])))
                  (last_stands builder.symbols _ refl);
            table = inr (missing-Lacks builder room missing, (_, refl, refl, refl, refl, refl));
            same_sections = refl;
          })
    | inr present ↦
        let there = present-not_Lacks builder room present in
        rw present (record {
          resolved = found-First builder (omega arith) there;
          table = inl (refl, there);
          same_sections = refl;
        })
  ]

-- A type has one width, and the bytes are inside of the largest section.
pub record Accepts (offset type width : ℕ) : Type 0 where
  pub form :
      ((type ≡ 1) × (width ≡ 4))
      ⊎ (((type ≡ 2) × (width ≡ 8))
          ⊎ (((type ≡ 3) × (width ≡ 4))
              ⊎ (((type ≡ 4) × (width ≡ 4)) ⊎ ((type ≡ 5) × (width ≡ 8)))))
  pub inside : offset + width ≤ 256 * 1024 * 1024

refuses_relocation-Accepts :
    (offset type width : ℕ)
    → refuses_relocation offset type width ≡ false
    → Accepts offset type width
unfolding refuses_relocation
refuses_relocation-Accepts offset type width h = record {
  form = ground (arith, h);
  inside = ground (arith, h);
}

Accepts-refuses_relocation :
    (offset type width : ℕ)
    → refuses_relocation offset type width ≡ true
    → Accepts offset type width
    → ⊥
unfolding refuses_relocation
Accepts-refuses_relocation offset type width h a =
    let inside = a.inside in
    elim a.form [
      | inl k ↦ ground (arith, h, k)
      | inr (inl k) ↦ ground (arith, h, k)
      | inr (inr (inl k)) ↦ ground (arith, h, k)
      | inr (inr (inr (inl k))) ↦ ground (arith, h, k)
      | inr (inr (inr (inr k))) ↦ ground (arith, h, k)
    ]

-- What a relocation that was taken leaves behind.
pub record Relocates (builder : ObjectBuilder) (index : ℕ) (section : ObjectSection)
    (entry : IrRelocation) (name : List ℕ) (builder' : ObjectBuilder) : Type 0 where
  pub resolved : First builder'.symbols entry.symbol name (find_symbol builder' entry.symbol)
  pub table :
      ((builder'.symbols ≡ builder.symbols) × (Lacks builder.symbols entry.symbol name → ⊥))
      ⊎ (Lacks builder.symbols entry.symbol name
          × ((last : ObjectSymbol) × (builder'.symbols ≡ builder.symbols ++ (last ∷ []))
              × (last.name ≡ name)
              × (last.source_symbol ≡ entry.symbol.address)
              × (last.section_index ≡ u32_max)
              × (last.defined ≡ false)))
  pub added :
      get_elem? builder'.sections index
      ≡ some (record section { relocations = entry ∷ section.relocations })
  pub others : (i : ℕ) → index ≢ i → get_elem? builder'.sections i ≡ get_elem? builder.sections i

abbrev pub RelocatesSome :
    ObjectBuilder → ℕ → ObjectSection → IrRelocation → List ℕ → Option ObjectBuilder → Type 0
RelocatesSome builder index section entry name none =
    Accepts entry.offset entry.type entry.width → ⊥
RelocatesSome builder index section entry name (some builder') =
    Accepts entry.offset entry.type entry.width
    × Relocates builder index section entry name builder'

relocated :
    (builder : ObjectBuilder) (index : ℕ) (section : ObjectSection) (entry : IrRelocation)
    (name : List ℕ) (builder' : ObjectBuilder)
    → get_elem? builder.sections index ≡ some section
    → Ensures builder entry.symbol name builder'
    → Relocates builder index section entry name (put_relocation index section entry builder')
unfolding find_symbol
relocated builder index section entry name builder' at e = record {
  resolved = e.resolved;
  table = e.table;
  added = get_elem?-set_self builder'.sections index _ (
      get_elem?-eq_some_lt builder'.sections index
        (ap (λ l. get_elem? l index) e.same_sections ∙ at));
  others = λ i other.
      get_elem?-set_ne builder'.sections index i _ other ∙ ap (λ l. get_elem? l i) e.same_sections;
}

-- With a section at the index, a symbol that has a name and a table of less than 2 ^ 32 - 1 symbols, a
-- relocation is taken exactly when its type is from 1 to 5, its width is 4, or 8 for the types 2 and 5,
-- and its bytes end within 256 MiB. Then it is the first of its section, no other section changes, and
-- its symbol is found at the first entry that has its address as the source, or no source and its name.
-- The table is as it was when it had such an entry, and else has one more at its end, undefined, with
-- the name and the address of the symbol.
pub object_add_relocation-Relocates :
    (builder : ObjectBuilder) (index offset type addend width : ℕ) (symbol : SourceSymbol)
    (section : ObjectSection) (name : List ℕ)
    → get_elem? builder.sections index ≡ some section
    → symbol.name ≡ some name
    → length builder.symbols < u32_max
    → RelocatesSome builder index section
        (record { offset = offset; symbol = symbol; type = type; addend = addend; width = width })
        name
        (object_add_relocation builder index offset (some symbol) type addend width)
unfolding object_add_relocation
object_add_relocation-Relocates builder index offset type addend width symbol section name at named
      room =
    let ensured = ensure_symbol-Ensures symbol name named builder room in
    rw at (elim (Bool-cases (refuses_relocation offset type width)) [
      | inl refused ↦ rw refused (Accepts-refuses_relocation offset type width refused)
      | inr taken ↦ rw taken (elim (Option-cases (ensure_symbol builder symbol)) [
        | inl e ↦ absurd (subst (EnsuresSome builder symbol name) e ensured)
        | inr (builder', e) ↦ rw e (
          refuses_relocation-Accepts offset type width taken,
          relocated builder index section _ name builder' at
              (subst (EnsuresSome builder symbol name) e ensured),
        )
      ])
    ])
