-- ===== src/Semantic/Promotion.antt =====
-- Integer promotion of src/semantic/semantic.c, and the kinds it leads to.
use cc.Base.{ℕ, ◌+◌, ◌≤◌, ◌≡◌, refl, arith}
use cc.Base.{Bool, true, not, ◌&&◌, ◌||◌, inl, inr, Bool-cases}
use cc.Base.{some, ltb}
use cc.Semantic.Kind.{TypeKind, int, enum, is_integer_kind, rank_of_kind}
use cc.Semantic.Kind.{same_kind, basic_layout, is_record_kind}
use cc.Semantic.Store.{CType, Types, deref}
use cc.Semantic.Predicates.{type_is_integer, integer_rank}
use cc.Semantic.Predicates.{}
use cc.Semantic.Arithmetic.{has_kind, ranks_below_int, type_integer_promote}
use cc.Semantic.Valid.{IsTypes, Keeps}
use cc.Semantic.Basic.{GivesBasic, type_basic-GivesBasic}
use cc.Semantic.Standard.{promoted}

-- The pointer is to a type of the kind, with the size of the kind; what was stored stays, and at
-- most `bytes` were taken.
pub record GivesKind (st : Types) (k : TypeKind) (bytes : ℕ) (r : ℕ × Types) : Type 0 where
  pub t : CType
  pub found : deref r.1.store r.0 ≡ some t
  pub kind : t.kind ≡ k
  pub keeps : Keeps st.store r.1.store
  pub valid : IsTypes r.1
  pub total : r.1.arena.total ≤ st.arena.total + bytes
  pub limit : r.1.arena.limit ≡ st.arena.limit

pub basic-GivesKind :
    (st : Types) (k : TypeKind) (r : ℕ × Types) → GivesBasic st k r → GivesKind st k 112 r
basic-GivesKind st k r g = record {
  t = g.basic.t;
  found = g.basic.found;
  kind = g.basic.kind;
  keeps = g.keeps;
  valid = g.valid;
  total = g.total;
  limit = g.limit;
}

-- What integer promotion makes of a type, given the record behind the pointer.
pub promote-GivesKind :
    (st : Types) (p : ℕ) (t : CType)
    → deref st.store p ≡ some t
    → IsTypes st
    → st.arena.total + 112 ≤ st.arena.limit
    → GivesKind st (promoted t.kind) 112 (type_integer_promote p st)
unfolding type_integer_promote type_is_integer ranks_below_int has_kind integer_rank basic_layout
    is_record_kind
promote-GivesKind st p t e v room = rw e (elim (Bool-cases (is_integer_kind t.kind)) [
  | inl integer ↦
      rw integer (elim (Bool-cases (ltb (rank_of_kind t.kind) 3 || same_kind t.kind enum)) [
        | inl low ↦
            rw low (basic-GivesKind st int _ (type_basic-GivesBasic int 4 4 st refl refl v room))
        | inr high ↦ rw high kept
      ])
  | inr other ↦ rw other kept
])
  where
    kept : GivesKind st t.kind 112 (p, st)
    kept = record {
      t = t;
      found = e;
      kind = refl;
      keeps = λ q u f. f;
      valid = v;
      total = omega arith;
      limit = refl;
    }

-- A promoted integer kind: no rank below `int`, and no enumeration.
abbrev pub is_promoted : TypeKind → Bool
is_promoted k = is_integer_kind k && not (ltb (rank_of_kind k) 3) && not (same_kind k enum)

pub promoted-is_promoted :
    (k : TypeKind) → is_integer_kind k ≡ true → is_promoted (promoted k) ≡ true
unfolding is_integer_kind rank_of_kind same_kind
promoted-is_promoted k h = ground arith
