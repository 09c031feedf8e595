-- ===== src/Tests/Names.antt =====
-- The scopes of src/semantic/semantic.c: a block in a file scope.
use cc.Base.{zero, suc, ◌<◌, refl, arith, false, [], ◌∷◌}
use cc.Base.{subst}
use mathlib.Core.Option.{some-injective}
use cc.Semantic.Scopes.{Symbol, Scope, Scopes, scope_add_symbol}
use cc.Semantic.Scopes.Binds.{AreScopes, BindsSome, scope_add_symbol-Binds}
use cc.Tests.Types.{empty_arena}

abbrev outer_x : Symbol
outer_x = record { address = 512; name = 120 ∷ []; type = 1 }

abbrev file_scope : Scope
file_scope = record {
  parent = 0;
  bindings = record { name = 120 ∷ []; tag = false; symbol = 512; type = 1 } ∷ [];
}

abbrev block_scope : Scope
block_scope = record { parent = 1; bindings = [] }

abbrev two_scopes : Scopes
two_scopes = record { arena = empty_arena; store = file_scope ∷ block_scope ∷ [] }

two_scopes-AreScopes : AreScopes two_scopes.store
two_scopes-AreScopes zero s e = cc
two_scopes-AreScopes (suc zero) s e =
    subst (λ t. t.parent < 1) (some-injective file_scope s e) (omega arith)
two_scopes-AreScopes (suc (suc zero)) s e =
    subst (λ t. t.parent < 2) (some-injective block_scope s e) (omega arith)
two_scopes-AreScopes (suc (suc (suc p))) s e = cc

abbrev inner_x : Symbol
inner_x = record { address = 768; name = 120 ∷ []; type = 2 }

scope_add_symbol-Binds_example :
    BindsSome two_scopes 2 inner_x (scope_add_symbol two_scopes 2 inner_x)
scope_add_symbol-Binds_example =
    scope_add_symbol-Binds two_scopes 2 inner_x block_scope refl (λ e. cc) two_scopes-AreScopes
      (omega arith) (omega arith)
