-- ===== src/Semantic/Scopes/Binds.antt =====
-- What `scope_add_symbol` of src/semantic/semantic.c changes: the name in its scope and in those that
-- see it, and nothing else.
use cc.Base.{ℕ, zero, suc, ◌+◌, ◌≤◌, ◌<◌, ◌≡◌, ◌≢◌, refl, arith, sym, ap, subst, ◌∙◌}
use cc.Base.{false, ◌==◌, Bool-cases, inl, inr}
use cc.Base.{Option, none, some, List, ◌∷◌, Option-cases}
use cc.Base.{get_elem?-set_self, get_elem?-set_ne, get_elem?-eq_some_lt}
use mathlib.Core.Option.{some-injective}
use cc.Arena.{Arena, arena_alloc}
use cc.Arena.Invariant.{IsArena}
use cc.Arena.Alloc.{Grants, arena_alloc-Grants}
use cc.Semantic.Predicates.{same_bytes}
use cc.Semantic.Names.{same_bytes-eq, same_bytes_self}
use cc.Semantic.Scopes.{Symbol, Binding, Scope, Scopes, scope_at, put_scope}
use cc.Semantic.Scopes.{find_symbol_in, find_tag_in, symbol_or, tag_or, lookup_at, lookup_tag_at}
use cc.Semantic.Scopes.{scope_lookup, scope_lookup_tag, scope_lookup_here, add_binding}
use cc.Semantic.Scopes.{scope_add_symbol, binding_bytes, lookup_here_at}

-- Every scope was made after its parent.
abbrev pub AreScopes : List Scope → Type 0
AreScopes store = (p : ℕ) (s : Scope) → scope_at store p ≡ some s → s.parent < p

-- Two scopes with the same parent and the same answer.
abbrev AgreeAt : {A : Type 0} → (List Binding → A) → Option Scope → Option Scope → Type 0
AgreeAt find none none = Unit
AgreeAt find none (some s') = ⊥
AgreeAt find (some s) none = ⊥
AgreeAt find (some s) (some s') = (s.parent ≡ s'.parent) × (find s.bindings ≡ find s'.bindings)

abbrev AgreeBelow : {A : Type 0} → (List Binding → A) → List Scope → List Scope → ℕ → Type 0
AgreeBelow find store store' k =
    (q : ℕ) → q < k → AgreeAt find (scope_at store q) (scope_at store' q)

module _ (store store' : List Scope) (valid : AreScopes store) (name : List ℕ) (k : ℕ) where
  lookup_step :
      (fuel q : ℕ) (o o' : Option Scope)
      → scope_at store q ≡ o
      → AgreeAt (λ bs. find_symbol_in bs name) o o'
      → ((p : ℕ) → p < q → scope_lookup fuel store p name ≡ scope_lookup fuel store' p name)
      → lookup_at (λ p. scope_lookup fuel store p name) o name
        ≡ lookup_at (λ p. scope_lookup fuel store' p name) o' name
  unfolding lookup_at
  lookup_step fuel q none none e a h = refl
  lookup_step fuel q none (some s') e a h = absurd a
  lookup_step fuel q (some s) none e a h = absurd a
  lookup_step fuel q (some s) (some s') e (p, f) h =
      ap (λ n. symbol_or n (scope_lookup fuel store s.parent name)) f
      ∙ ap (symbol_or (find_symbol_in s'.bindings name))
          (h s.parent (valid q s e) ∙ ap (λ r. scope_lookup fuel store' r name) p)

  agree-scope_lookup :
      AgreeBelow (λ bs. find_symbol_in bs name) store store' k
      → (fuel q : ℕ) → q < k
      → scope_lookup fuel store q name ≡ scope_lookup fuel store' q name
  unfolding scope_lookup
  agree-scope_lookup a zero q h = refl
  agree-scope_lookup a (suc fuel) q h =
      lookup_step fuel q (scope_at store q) (scope_at store' q) refl (a q h)
        (λ p below. agree-scope_lookup a fuel p (omega arith))

  tag_step :
      (fuel q : ℕ) (o o' : Option Scope)
      → scope_at store q ≡ o
      → AgreeAt (λ bs. find_tag_in bs name) o o'
      → ((p : ℕ) → p < q → scope_lookup_tag fuel store p name ≡ scope_lookup_tag fuel store' p name)
      → lookup_tag_at (λ p. scope_lookup_tag fuel store p name) o name
        ≡ lookup_tag_at (λ p. scope_lookup_tag fuel store' p name) o' name
  unfolding lookup_tag_at
  tag_step fuel q none none e a h = refl
  tag_step fuel q none (some s') e a h = absurd a
  tag_step fuel q (some s) none e a h = absurd a
  tag_step fuel q (some s) (some s') e (p, f) h =
      ap (λ n. tag_or n (scope_lookup_tag fuel store s.parent name)) f
      ∙ ap (tag_or (find_tag_in s'.bindings name))
          (h s.parent (valid q s e) ∙ ap (λ r. scope_lookup_tag fuel store' r name) p)

  agree-scope_lookup_tag :
      AgreeBelow (λ bs. find_tag_in bs name) store store' k
      → (fuel q : ℕ) → q < k
      → scope_lookup_tag fuel store q name ≡ scope_lookup_tag fuel store' q name
  unfolding scope_lookup_tag
  agree-scope_lookup_tag a zero q h = refl
  agree-scope_lookup_tag a (suc fuel) q h =
      tag_step fuel q (scope_at store q) (scope_at store' q) refl (a q h)
        (λ p below. agree-scope_lookup_tag a fuel p (omega arith))

agree_self : {A : Type 0} (find : List Binding → A) (o : Option Scope) → AgreeAt find o o
agree_self find none = tt
agree_self find (some s) = (refl, refl)

put_self :
    (store : List Scope) (p : ℕ) (s s' : Scope)
    → scope_at store p ≡ some s
    → scope_at (put_scope store p s') p ≡ some s'
put_self store zero s s' e = cc
put_self store (suc i) s s' e = get_elem?-set_self store i s' (get_elem?-eq_some_lt store i e)

put_other :
    (store : List Scope) (p q : ℕ) (s' : Scope)
    → (p == q) ≡ false
    → scope_at (put_scope store p s') q ≡ scope_at store q
put_other store zero q s' h = refl
put_other store (suc i) zero s' h = refl
put_other store (suc i) (suc j) s' h = get_elem?-set_ne store i j s' (λ e. ground (arith, h, e))

-- A binding more agrees where the search passes over it.
put_agrees :
    {A : Type 0} (find : List Binding → A) (store : List Scope) (p : ℕ) (s : Scope) (b : Binding)
    → scope_at store p ≡ some s
    → find s.bindings ≡ find (b ∷ s.bindings)
    → (q : ℕ)
    → AgreeAt find
        (scope_at store q)
        (scope_at (put_scope store p (record s { bindings = b ∷ s.bindings })) q)
put_agrees find store p s b e f q =
    let s' : Scope = record s { bindings = b ∷ s.bindings } in
    elim (Bool-cases (p == q)) [
      | inl here ↦
          let same : p ≡ q = ground arith in
          subst (λ r. AgreeAt find (scope_at store r) (scope_at (put_scope store p s') r)) same
            (rw (e, put_self store p s s' e) (refl, f))
      | inr other ↦ rw (put_other store p q s' other) (agree_self find (scope_at store q))
    ]

-- Scopes below another one do not see it.
put_agrees_below :
    {A : Type 0} (find : List Binding → A) (store : List Scope) (p : ℕ) (s' : Scope)
    → AgreeBelow find store (put_scope store p s') p
put_agrees_below find store p s' q below =
    rw (put_other store p q s' (ground arith)) (agree_self find (scope_at store q))

put_scope-AreScopes :
    (store : List Scope) (p : ℕ) (s : Scope) (b : Binding)
    → scope_at store p ≡ some s
    → AreScopes store
    → AreScopes (put_scope store p (record s { bindings = b ∷ s.bindings }))
put_scope-AreScopes store p s b e valid q t f =
    let s' : Scope = record s { bindings = b ∷ s.bindings } in
    elim (Bool-cases (p == q)) [
      | inl here ↦
          let same : p ≡ q = ground arith in
          let there = put_self store p s s' e in
          let is : s' ≡ t =
            some-injective s' t (sym there ∙ ap (scope_at (put_scope store p s')) same ∙ f) in
          subst (λ r. r.parent < q) is (subst (λ r. s.parent < r) same (valid p s e))
      | inr other ↦ valid q t (sym (put_other store p q s' other) ∙ f)
    ]

symbol_or-some : (n : ℕ) (outer : Option ℕ) → outer ≢ none → symbol_or n outer ≢ none
symbol_or-some n outer h e = elim (Bool-cases (n == 0)) [
  | inl zero_found ↦ h (ground (arith, e, zero_found))
  | inr found ↦ ground (arith, e, found)
]

lookup_at-some :
    (store : List Scope) (name : List ℕ) (fuel p : ℕ) (o : Option Scope)
    → scope_at store p ≡ o
    → AreScopes store
    → ((q : ℕ) → q < p → scope_lookup fuel store q name ≢ none)
    → lookup_at (λ q. scope_lookup fuel store q name) o name ≢ none
unfolding lookup_at
lookup_at-some store name fuel p none e valid h = λ n. cc
lookup_at-some store name fuel p (some s) e valid h =
    symbol_or-some (find_symbol_in s.bindings name) (scope_lookup fuel store s.parent name)
      (h s.parent (valid p s e))

scope_lookup-some :
    (store : List Scope) (name : List ℕ) (fuel p : ℕ)
    → AreScopes store
    → p < fuel
    → scope_lookup fuel store p name ≢ none
unfolding scope_lookup
scope_lookup-some store name zero p valid h = absurd (omega arith)
scope_lookup-some store name (suc fuel) p valid h =
    lookup_at-some store name fuel p (scope_at store p) refl valid
      (λ q below. scope_lookup-some store name fuel q valid (omega arith))

-- What the binding of a symbol in a scope changes.
pub record Binds (st : Scopes) (scope : ℕ) (symbol : Symbol) (b : Binding) (st' : Scopes)
    : Type 0 where
  pub valid : AreScopes st'.store
  pub arena : IsArena st'.arena
  pub ends : (name : List ℕ) (fuel q : ℕ) → q < fuel → scope_lookup fuel st'.store q name ≢ none
  pub found_here : scope_lookup_here st'.store scope symbol.name ≡ symbol.address
  pub found : (fuel : ℕ) → scope_lookup (suc fuel) st'.store scope symbol.name ≡ some symbol.address
  pub other_names :
      (name : List ℕ) (fuel q : ℕ)
      → name ≢ symbol.name
      → scope_lookup fuel st'.store q name ≡ scope_lookup fuel st.store q name
  pub enclosing :
      (name : List ℕ) (fuel q : ℕ)
      → q < scope
      → scope_lookup fuel st'.store q name ≡ scope_lookup fuel st.store q name
  pub tags :
      (name : List ℕ) (fuel q : ℕ)
      → scope_lookup_tag fuel st'.store q name ≡ scope_lookup_tag fuel st.store q name

abbrev pub BindsSome : Scopes → ℕ → Symbol → Option (Binding × Scopes) → Type 0
BindsSome st scope symbol none = ⊥
BindsSome st scope symbol (some (b, st')) = Binds st scope symbol b st'

abbrev binding_of : Symbol → Binding
binding_of symbol = record {
  name = symbol.name;
  tag = false;
  symbol = symbol.address;
  type = symbol.type;
}

skips :
    (symbol : Symbol) (bs : List Binding) (name : List ℕ)
    → name ≢ symbol.name
    → find_symbol_in bs name ≡ find_symbol_in (binding_of symbol ∷ bs) name
unfolding find_symbol_in
skips symbol bs name other = elim (Bool-cases (same_bytes symbol.name name)) [
  | inl same ↦ absurd (other (sym (same_bytes-eq symbol.name name same)))
  | inr differs ↦ ground (arith, differs)
]

hits :
    (symbol : Symbol) (bs : List Binding)
    → symbol.address ≢ 0
    → find_symbol_in (binding_of symbol ∷ bs) symbol.name ≡ symbol.address
unfolding find_symbol_in
hits symbol bs real = ground (arith, same_bytes_self symbol.name)

symbol_or-found : (n : ℕ) (outer : Option ℕ) → n ≢ 0 → symbol_or n outer ≡ some n
symbol_or-found n outer h = ground (arith, h)

bound :
    (st : Scopes) (scope : ℕ) (symbol : Symbol) (s : Scope) (arena' : Arena)
    → scope_at st.store scope ≡ some s
    → symbol.address ≢ 0
    → AreScopes st.store
    → IsArena arena'
    → Binds st scope symbol (binding_of symbol) (record {
      arena = arena';
      store = put_scope st.store scope (record s { bindings = binding_of symbol ∷ s.bindings });
    })
unfolding scope_lookup lookup_at scope_lookup_here find_tag_in
bound st scope symbol s arena' e real valid fine =
    let b = binding_of symbol in
    let s' : Scope = record s { bindings = b ∷ s.bindings } in
    let there = put_self st.store scope s s' e in
    let hit = hits symbol s.bindings real in
    let valid' = put_scope-AreScopes st.store scope s b e valid in
    record {
      valid = valid';
      ends = λ name fuel q h. scope_lookup-some _ name fuel q valid' h;
      arena = fine;
      found_here = ap (λ o. lookup_here_at o symbol.name) there ∙ hit;
      found = λ fuel.
          let outer : ℕ → Option ℕ =
            λ parent. scope_lookup fuel (put_scope st.store scope s') parent symbol.name in
          ap (λ o. lookup_at outer o symbol.name) there
          ∙ ap (λ n. symbol_or n (outer s.parent)) hit
          ∙ symbol_or-found symbol.address (outer s.parent) real;
      other_names = λ name fuel q other. sym (
          agree-scope_lookup st.store _ valid name (suc q)
            (λ r h.
              put_agrees (λ bs. find_symbol_in bs name) st.store scope s b e
                (skips symbol s.bindings name other) r)
            fuel q (omega arith));
      enclosing = λ name fuel q below. sym (
          agree-scope_lookup st.store _ valid name scope
            (put_agrees_below (λ bs. find_symbol_in bs name) st.store scope s') fuel q below);
      tags = λ name fuel q. sym (
          agree-scope_lookup_tag st.store _ valid name (suc q)
            (λ r h. put_agrees (λ bs. find_tag_in bs name) st.store scope s b e refl r) fuel q
            (omega arith));
    }

-- A symbol that is bound in a scope, with room for the binding in the arena: its scope, with any fuel,
-- then gives this symbol for its name, whatever the name meant before; all other names keep their
-- meaning in every scope, all names keep it in the scopes that were made before this one, tags
-- keep theirs everywhere, fuel above a scope's pointer is enough to search it, and the invariants of the
-- scopes and of the arena hold again.
pub scope_add_symbol-Binds :
    (st : Scopes) (scope : ℕ) (symbol : Symbol) (s : Scope)
    → scope_at st.store scope ≡ some s
    → symbol.address ≢ 0
    → AreScopes st.store
    → IsArena st.arena
    → st.arena.total + 48 ≤ st.arena.limit
    → BindsSome st scope symbol (scope_add_symbol st scope symbol)
unfolding scope_add_symbol add_binding
scope_add_symbol-Binds st scope symbol s e real valid fine room =
    let granted = arena_alloc-Grants st.arena binding_bytes fine (omega arith) (omega arith) in
    elim (Option-cases (arena_alloc st.arena binding_bytes)) [
      | inl refused ↦ absurd (subst (Grants st.arena binding_bytes) refused granted)
      | inr ((place, arena'), given) ↦
          rw (e, given)
            (bound st scope symbol s arena' e real valid
              (subst (Grants st.arena binding_bytes) given granted).valid)
    ]
