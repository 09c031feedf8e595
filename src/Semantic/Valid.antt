-- ===== src/Semantic/Valid.antt =====
-- The invariant of the store of types of src/semantic/semantic.c and its table of shared records.
use cc.Base.{ℕ, zero, suc, ◌<◌, ◌≡◌, ◌≢◌, refl, arith, ◌∙◌}
use cc.Base.{false, ◌⊎◌, inl, inr}
use cc.Base.{some, List, [], ◌∷◌, ◌++◌, length, get_or, All}
use cc.Base.{get_elem?-append, get_elem?-append_end, get_elem?-eq_some_lt}
use cc.Arena.Invariant.{IsArena}
use cc.Semantic.Kind.{TypeKind, pointer, kind_index, is_record_kind, basic_layout}
use cc.Semantic.Store.{CType, Types, deref}

-- A record refers to older records alone, and a basic type has its own layout.
pub record IsType (at : ℕ) (t : CType) : Type 0 where
  pub base_older : t.base < at
  pub return_older : t.return_type < at
  pub parameters_older : All (λ q. q < at) t.parameters
  pub sized :
      (size alignment : ℕ)
      → is_record_kind t.kind ≡ false
      → basic_layout t.kind ≡ some (size, alignment)
      → t.size ≡ size

-- The pointer is to an unqualified basic type of the kind.
pub record IsBasic (store : List CType) (k : TypeKind) (p : ℕ) : Type 0 where
  pub t : CType
  pub found : deref store p ≡ some t
  pub kind : t.kind ≡ k
  pub unqualified : t.qualifiers ≡ 0
  pub layout : basic_layout k ≡ some (t.size, t.alignment)

-- The pointer is to an unqualified pointer type.
pub record IsPointer (store : List CType) (p : ℕ) : Type 0 where
  pub t : CType
  pub found : deref store p ≡ some t
  pub kind : t.kind ≡ pointer
  pub unqualified : t.qualifiers ≡ 0
  pub size : t.size ≡ 8

pub record IsTypes (st : Types) : Type 0 where
  pub arena : IsArena st.arena
  pub types : (p : ℕ) (t : CType) → deref st.store p ≡ some t → IsType p t
  pub basics :
      (k : TypeKind)
      → get_or st.table.basics (kind_index k) 0 ≢ 0
      → IsBasic st.store k (get_or st.table.basics (kind_index k) 0)
  pub pointers :
      (i : ℕ) → get_or st.table.pointers i 0 ≢ 0 → IsPointer st.store (get_or st.table.pointers i 0)
  pub slots : length st.table.basics ≡ 32

-- What was in the store is there still.
abbrev pub Keeps : List CType → List CType → Type 0
Keeps store store' = (p : ℕ) (t : CType) → deref store p ≡ some t → deref store' p ≡ some t

pub Keeps-append : (store more : List CType) → Keeps store (store ++ more)
Keeps-append store more zero t e = cc
Keeps-append store more (suc i) t e =
    get_elem?-append store more i (get_elem?-eq_some_lt store i e) ∙ e

pub deref-append_end :
    (store : List CType) (t : CType) → deref (store ++ (t ∷ [])) (suc (length store)) ≡ some t
deref-append_end store t = get_elem?-append_end store t

-- A pointer into a longer store is an old one or the new one.
pub deref-append_cases :
    (store : List CType) (u : CType) (p : ℕ) (t : CType)
    → deref (store ++ (u ∷ [])) p ≡ some t
    → (deref store p ≡ some t) ⊎ ((p ≡ suc (length store)) × (t ≡ u))
deref-append_cases store u zero t e = inl e
deref-append_cases [] u (suc zero) t e = inr (refl, cc)
deref-append_cases [] u (suc (suc i)) t e = inl e
deref-append_cases (s ∷ store) u (suc zero) t e = inl e
deref-append_cases (s ∷ store) u (suc (suc i)) t e = elim (deref-append_cases store u (suc i) t e) [
  | inl old ↦ inl old
  | inr (at, same) ↦ inr (omega arith, same)
]

pub IsBasic-Keeps :
    {store store' : List CType} {k : TypeKind} {p : ℕ}
    → Keeps store store'
    → IsBasic store k p
    → IsBasic store' k p
IsBasic-Keeps keeps b = record {
  t = b.t;
  found = keeps _ _ b.found;
  kind = b.kind;
  unqualified = b.unqualified;
  layout = b.layout;
}

pub IsPointer-Keeps :
    {store store' : List CType} {p : ℕ}
    → Keeps store store'
    → IsPointer store p
    → IsPointer store' p
IsPointer-Keeps keeps b = record {
  t = b.t;
  found = keeps _ _ b.found;
  kind = b.kind;
  unqualified = b.unqualified;
  size = b.size;
}
