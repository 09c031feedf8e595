-- ===== src/Semantic/Stored.antt =====
-- `type_alloc`, `type_table_select` and `type_basic` of src/semantic/semantic.c keep the invariant,
-- and what they give.
use cc.Base.{ℕ, suc, ◌+◌, ◌≤◌, ◌≡◌, refl, arith}
use cc.Base.{inl, inr, Bool-cases}
use cc.Base.{Option, none, some, [], ◌∷◌, ◌++◌, length}
use cc.Base.{get_or-replicate, length-replicate}
use cc.Arena.{Arena, Place, arena_alloc}
use cc.Arena.Invariant.{IsArena}
use cc.Arena.Alloc.{Grants, arena_alloc-Grants}
use cc.Semantic.Kind.{kind_index}
use cc.Semantic.Store.{CType, Types, store_new, type_table_select}
use cc.Semantic.Store.{type_bytes, type_table_uses}
use cc.Semantic.Valid.{IsType, IsTypes, Keeps-append}
use cc.Semantic.Valid.{deref-append_cases, IsBasic-Keeps, IsPointer-Keeps}

-- One more record stands at the end of the store, and the result is its pointer.
pub record Stored (st : Types) (make : ℕ → CType) (r : ℕ × Types) : Type 0 where
  pub at : r.0 ≡ suc (length st.store)
  pub store : r.1.store ≡ st.store ++ (make (suc (length st.store)) ∷ [])
  pub table : r.1.table ≡ st.table
  pub address : r.1.address ≡ st.address
  pub valid : IsTypes r.1
  pub total : r.1.arena.total ≡ st.arena.total + 112
  pub limit : r.1.arena.limit ≡ st.arena.limit

append-IsTypes :
    (st : Types) (arena' : Arena) (u : CType)
    → IsTypes st
    → IsArena arena'
    → IsType (suc (length st.store)) u
    → IsTypes (record st { arena = arena'; store = st.store ++ (u ∷ []) })
append-IsTypes st arena' u v va vu = record {
  arena = va;
  types = λ p t e. elim (deref-append_cases st.store u p t e) [
    | inl old ↦ v.types p t old
    | inr (at, same) ↦ rw (at, same) vu
  ];
  basics = λ k h. IsBasic-Keeps (Keeps-append st.store (u ∷ [])) (v.basics k h);
  pointers = λ i h. IsPointer-Keeps (Keeps-append st.store (u ∷ [])) (v.pointers i h);
  slots = v.slots;
}

store_new_result :
    (st : Types) (make : ℕ → CType) (r : Option (Place × Arena))
    → arena_alloc st.arena type_bytes ≡ r
    → Grants st.arena 112 r
    → IsTypes st
    → IsType (suc (length st.store)) (make (suc (length st.store)))
    → Stored st make (store_new st make)
unfolding store_new
store_new_result st make none e g v t = absurd g
store_new_result st make (some (p, arena')) e g v t =
    rw (e, store_new)
      (record {
        at = refl;
        store = refl;
        table = refl;
        address = refl;
        valid = append-IsTypes st arena' (make (suc (length st.store))) v g.valid t;
        total = g.counted;
        limit = g.same_limit;
      })

-- With 112 bytes left in the arena the record is stored.
pub store_new-Stored :
    (st : Types) (make : ℕ → CType)
    → IsTypes st
    → st.arena.total + 112 ≤ st.arena.limit
    → IsType (suc (length st.store)) (make (suc (length st.store)))
    → Stored st make (store_new st make)
store_new-Stored st make v room t =
    store_new_result st make (arena_alloc st.arena type_bytes) refl
      (arena_alloc-Grants st.arena 112 v.arena (omega arith) room) v t

-- Selecting keeps the invariant: a table for another arena is emptied.
pub type_table_select-IsTypes : (st : Types) → IsTypes st → IsTypes (type_table_select st)
unfolding type_table_select
type_table_select-IsTypes st v = elim (Bool-cases (type_table_uses st)) [
  | inl same ↦ rw same v
  | inr other ↦ rw other (record {
    arena = v.arena;
    types = v.types;
    basics = λ k h. absurd (h (get_or-replicate 32 (kind_index k) 0));
    pointers = λ i h. absurd (h (get_or-replicate 32 i 0));
    slots = length-replicate {A = ℕ} 32 0;
  })
]
