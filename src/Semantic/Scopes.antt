-- ===== src/Semantic/Scopes.antt =====
-- Scopes and bindings of src/semantic/semantic.c. A scope is at a pointer of a store, like a type; its
-- bindings are the list that begins at `bindings`, and `cc64_xstrdup` copies a name or ends the
-- process. The loops over enclosing scopes take fuel; `stuck` is a loop that ran out of it.
pub mod Binds
use cc.Base.{ℕ, zero, suc, ◌+◌, ◌-◌, Bool, true, false, not, ◌&&◌, ◌==◌, if◌then◌else◌, ◌>>=◌}
use cc.Base.{Option, none, some, List, [], ◌∷◌, ◌++◌, length, get_elem?, set}
use cc.Arena.{Arena, arena_alloc}
use cc.Semantic.Predicates.{same_bytes}

-- What is read of a `Symbol`: its address, its name and its type.
pub record Symbol : Type 0 where
  pub address : ℕ
  pub name : List ℕ
  pub type : ℕ

-- `symbol` is an address, 0 for NULL.
pub record Binding : Type 0 where
  pub name : List ℕ
  pub tag : Bool
  pub symbol : ℕ
  pub type : ℕ

pub record Scope : Type 0 where
  pub parent : ℕ
  pub bindings : List Binding

pub record Scopes : Type 0 where
  pub arena : Arena
  pub store : List Scope

-- `sizeof(Scope)` and `sizeof(Binding)`.
abbrev pub scope_bytes : ℕ
scope_bytes = 16

abbrev pub binding_bytes : ℕ
binding_bytes = 40

abbrev pub scope_at : List Scope → ℕ → Option Scope
scope_at store zero = none
scope_at store (suc i) = get_elem? store i

-- `scope->bindings = binding`, through the pointer.
abbrev pub put_scope : List Scope → ℕ → Scope → List Scope
put_scope store zero scope = store
put_scope store (suc i) scope = set store i scope

-- The pointer of the new scope, 0 for NULL.
unfoldable pub scope_create : Scopes → ℕ → ℕ × Scopes
scope_create st parent = elim (arena_alloc st.arena scope_bytes) [
  | none ↦ (0, st)
  | some (p, arena') ↦ (
    suc (length st.store),
    record { arena = arena'; store = st.store ++ (record { parent = parent; bindings = [] } ∷ []) },
  )
]

abbrev pub is_symbol_binding : List ℕ → Binding → Bool
is_symbol_binding name b = not b.tag && not (b.symbol == 0) && same_bytes b.name name

-- The loop over the bindings of one scope.
unfoldable pub find_symbol_in : List Binding → List ℕ → ℕ
find_symbol_in [] name = 0
find_symbol_in (b ∷ bs) name =
    let more = find_symbol_in bs name in if is_symbol_binding name b then b.symbol else more

-- The type of a tag that was found, which may be NULL.
unfoldable pub find_tag_in : List Binding → List ℕ → Option ℕ
find_tag_in [] name = none
find_tag_in (b ∷ bs) name =
    let more = find_tag_in bs name in if b.tag && same_bytes b.name name then some b.type else more

-- One round of the loop over scopes, with what the next round gives.
abbrev pub symbol_or : ℕ → Option ℕ → Option ℕ
symbol_or found outer = if found == 0 then outer else some found

unfoldable pub lookup_at : (ℕ → Option ℕ) → Option Scope → List ℕ → Option ℕ
lookup_at outer none name = some 0
lookup_at outer (some scope) name =
    symbol_or (find_symbol_in scope.bindings name) (outer scope.parent)

-- The address of the symbol, 0 for NULL; `none` is a loop out of fuel.
unfoldable pub scope_lookup : ℕ → List Scope → ℕ → List ℕ → Option ℕ
scope_lookup zero store scope name = none
scope_lookup (suc fuel) store scope name =
    lookup_at (λ parent. scope_lookup fuel store parent name) (scope_at store scope) name

-- The loop over scopes ends with its first round.
abbrev pub lookup_here_at : Option Scope → List ℕ → ℕ
lookup_here_at none name = 0
lookup_here_at (some scope) name = find_symbol_in scope.bindings name

unfoldable pub scope_lookup_here : List Scope → ℕ → List ℕ → ℕ
scope_lookup_here store scope name = lookup_here_at (scope_at store scope) name

abbrev pub tag_or : Option ℕ → Option ℕ → Option ℕ
tag_or none outer = outer
tag_or (some type) outer = some type

unfoldable pub lookup_tag_at : (ℕ → Option ℕ) → Option Scope → List ℕ → Option ℕ
lookup_tag_at outer none name = some 0
lookup_tag_at outer (some scope) name =
    tag_or (find_tag_in scope.bindings name) (outer scope.parent)

unfoldable pub scope_lookup_tag : ℕ → List Scope → ℕ → List ℕ → Option ℕ
scope_lookup_tag zero store scope name = none
scope_lookup_tag (suc fuel) store scope name =
    lookup_tag_at (λ parent. scope_lookup_tag fuel store parent name) (scope_at store scope) name

-- The end of both additions: the binding before those of the scope.
unfoldable pub add_binding : Scopes → ℕ → Scope → Binding → Option (Binding × Scopes)
add_binding st scope s binding = arena_alloc st.arena binding_bytes >>= λ granted. some (
  binding,
  record {
    arena = granted.1;
    store = put_scope st.store scope (record s { bindings = binding ∷ s.bindings });
  },
)

-- `none` is NULL, or a scope that is NULL.
unfoldable pub scope_add_symbol : Scopes → ℕ → Symbol → Option (Binding × Scopes)
scope_add_symbol st scope symbol = scope_at st.store scope >>= λ s.
    add_binding st scope s
      (record { name = symbol.name; tag = false; symbol = symbol.address; type = symbol.type })

unfoldable pub scope_add_tag : Scopes → ℕ → List ℕ → ℕ → Option (Binding × Scopes)
scope_add_tag st scope name type = scope_at st.store scope >>= λ s.
    add_binding st scope s (record { name = name; tag = true; symbol = 0; type = type })
