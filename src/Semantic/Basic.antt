-- ===== src/Semantic/Basic.antt =====
-- `type_basic` of src/semantic/semantic.c: the shared record of a basic type.
use cc.Base.{ℕ, suc, ◌+◌, ◌≤◌, ◌<◌, ◌≡◌, ◌≢◌, refl, arith, ◌∙◌}
use cc.Base.{true, false, ◌⊎◌, inl, inr, Bool-cases, ◌==◌}
use cc.Base.{some, length, get_or, set}
use cc.Base.{get_or-set_self, get_or-set_ne, length-set}
use cc.Semantic.Kind.{TypeKind, kind_index, is_record_kind, basic_layout, same_kind}
use cc.Semantic.Kind.{same_kind_iff, kind_index-lt, kind_index-injective}
use cc.Semantic.Store.{Types, store_new, type_alloc, type_table_select}
use cc.Semantic.Store.{fresh_type}
use cc.Semantic.Build.{type_basic, type_basic_new, type_basic_shared}
use cc.Semantic.Valid.{IsType, IsBasic, IsTypes, Keeps, Keeps-append, deref-append_end}
use cc.Semantic.Stored.{Stored, store_new-Stored, type_table_select-IsTypes}

-- The result is a basic type of the kind; what was stored stays, and at most 112 bytes were taken.
pub record GivesBasic (st : Types) (k : TypeKind) (r : ℕ × Types) : Type 0 where
  pub basic : IsBasic r.1.store k r.0
  pub keeps : Keeps st.store r.1.store
  pub valid : IsTypes r.1
  pub total : r.1.arena.total ≤ st.arena.total + 112
  pub limit : r.1.arena.limit ≡ st.arena.limit

module _ (k : TypeKind) (size alignment : ℕ) (layout : basic_layout k ≡ some (size, alignment))
    (plain : is_record_kind k ≡ false) where
  pub fresh-IsType : (at : ℕ) → 0 < at → IsType at (fresh_type k size alignment at)
  fresh-IsType at h = record {
    base_older = h;
    return_older = h;
    parameters_older = tt;
    sized = λ s a p q. ground (arith, q, layout);
  }

  new_record :
      (st : Types) (r : ℕ × Types)
      → IsTypes st
      → Stored st (fresh_type k size alignment) r
      → IsBasic r.1.store k r.0
  new_record st r v s = record {
    t = fresh_type k size alignment (suc (length st.store));
    found = rw (s.at, s.store) (deref-append_end st.store _);
    kind = refl;
    unqualified = refl;
    layout = layout;
  }

  with_slot :
      (st : Types) (r : ℕ × Types)
      → IsTypes st
      → Stored st (fresh_type k size alignment) r
      → IsTypes (record r.1 {
        table = record r.1.table { basics = set r.1.table.basics (kind_index k) r.0 };
      })
  with_slot st r v s = record {
    arena = s.valid.arena;
    types = s.valid.types;
    basics = λ k' h. slot k' h (Bool-cases (same_kind k k'));
    pointers = s.valid.pointers;
    slots = length-set {0} r.1.table.basics (kind_index k) r.0 ∙ s.valid.slots;
  }
    where
      slot :
          (k' : TypeKind)
          → get_or (set r.1.table.basics (kind_index k) r.0) (kind_index k') 0 ≢ 0
          → (same_kind k k' ≡ true) ⊎ (same_kind k k' ≡ false)
          → IsBasic r.1.store k'
              (get_or (set r.1.table.basics (kind_index k) r.0) (kind_index k') 0)
      slot k' h (inl same) =
          let e : k ≡ k' = (same_kind_iff k k').0 same in
          rw
            (
              ← e,
              get_or-set_self r.1.table.basics (kind_index k) r.0 0
                  (rw s.valid.slots (kind_index-lt k)),
            )
            (new_record st r v s)
      slot k' h (inr other) =
          let ne : kind_index k ≢ kind_index k' =
            λ e. cc (other, (same_kind_iff k k').1 (kind_index-injective k k' e)) in
          let step = get_or-set_ne r.1.table.basics (kind_index k) (kind_index k') r.0 0 ne in
          rw step (s.valid.basics k' (rw step at h))

  type_basic_new-GivesBasic :
      (st : Types)
      → IsTypes st
      → st.arena.total + 112 ≤ st.arena.limit
      → GivesBasic st k (type_basic_new k size alignment st)
  unfolding type_basic_new type_alloc
  type_basic_new-GivesBasic st v room =
      let r = store_new st (fresh_type k size alignment) in
      let s : Stored st (fresh_type k size alignment) r =
        store_new-Stored st (fresh_type k size alignment) v room (fresh-IsType _ (omega arith)) in
      let some_at : (r.0 == 0) ≡ false = ground (arith, s.at) in
      rw (some_at, plain)
        (record {
          basic = new_record st r v s;
          keeps = rw s.store (Keeps-append st.store _);
          valid = with_slot st r v s;
          total = omega (arith, s.total);
          limit = s.limit;
        })

  type_basic_shared-GivesBasic :
      (st : Types)
      → IsTypes st
      → st.arena.total + 112 ≤ st.arena.limit
      → GivesBasic st k (type_basic_shared k size alignment st)
  unfolding type_basic_shared
  type_basic_shared-GivesBasic st v room =
      elim (Bool-cases (get_or st.table.basics (kind_index k) 0 == 0)) [
        | inl empty ↦ rw empty (type_basic_new-GivesBasic st v room)
        | inr there ↦ rw there (record {
          basic = v.basics k (ground arith);
          keeps = λ p t e. e;
          valid = v;
          total = omega arith;
          limit = refl;
        })
      ]

select_arena : (st : Types) → (type_table_select st).arena ≡ st.arena
unfolding type_table_select
select_arena st = ground arith

select_store : (st : Types) → (type_table_select st).store ≡ st.store
unfolding type_table_select
select_store st = ground arith

-- With 112 bytes left in the arena `type_basic` gives an unqualified record of the kind with the
-- layout of the kind, leaves every stored record as it was and keeps the invariant of the store and
-- the table.
pub type_basic-GivesBasic :
    (k : TypeKind) (size alignment : ℕ) (st : Types)
    → basic_layout k ≡ some (size, alignment)
    → is_record_kind k ≡ false
    → IsTypes st
    → st.arena.total + 112 ≤ st.arena.limit
    → GivesBasic st k (type_basic k st)
unfolding type_basic type_table_select
type_basic-GivesBasic k size alignment st layout plain v room =
    let g =
      type_basic_shared-GivesBasic k size alignment layout plain (type_table_select st)
        (type_table_select-IsTypes st v) (rw (select_arena st) room) in
    rw (layout, type_basic, plain)
      (record {
        basic = g.basic;
        keeps = rw (select_store st) at g.keeps;
        valid = g.valid;
        total = rw (select_arena st) at g.total;
        limit = rw (select_arena st) at g.limit;
      })
