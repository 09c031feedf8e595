-- ===== src/Semantic/Arithmetic.antt =====
-- Integer promotion and the usual arithmetic conversions of src/semantic/semantic.c.
use cc.Base.{ℕ, Bool, false, not, ◌&&◌, ◌||◌, ◌>>=◌}
use cc.Base.{Option, none, some, ◌==◌, ltb, leb, if◌then◌else◌}
use cc.Semantic.Kind.{TypeKind, int, enum, float, double, same_kind}
use cc.Semantic.Store.{CType, Types, deref}
use cc.Semantic.Build.{type_basic}
use cc.Semantic.Predicates.{type_is_integer, type_is_arithmetic, type_is_signed, integer_rank}
use cc.Semantic.Predicates.{type_compatible}

-- `type->kind == kind`, through a pointer that is not NULL.
unfoldable pub has_kind : Option CType → TypeKind → Bool
has_kind none kind = false
has_kind (some t) kind = same_kind t.kind kind

-- `integer_rank(type) < 3U`, where the type is there.
unfoldable pub ranks_below_int : Option CType → Bool
unfolding integer_rank
ranks_below_int t = elim (integer_rank t) [ none ↦ false | some r ↦ ltb r 3 ]

unfoldable pub type_integer_promote : ℕ → Types → ℕ × Types
type_integer_promote p st =
    let t = deref st.store p in
    if not (type_is_integer t)
    then (p, st)
    else if ranks_below_int t || has_kind t enum
    then type_basic int st
    else (p, st)

-- One of the two operands of `type_usual_arithmetic`, both promoted and not compatible.
pub record Operand : Type 0 where
  pub at : ℕ
  pub is_unsigned : Bool
  pub rank : ℕ
  pub bytes : ℕ

unfoldable pub pick : Operand → Operand → ℕ
pick left right =
    if left.rank == right.rank
    then (if left.is_unsigned then left.at else right.at)
    else if ltb right.rank left.rank
    then (if not left.is_unsigned && right.is_unsigned && leb left.bytes right.bytes
        then right.at
        else left.at)
    else (if right.is_unsigned && not left.is_unsigned && leb right.bytes left.bytes
        then left.at
        else right.at)

-- The reads through a promoted operand: NULL is a fault.
unfoldable pub operand : ℕ → Option CType → Option Operand
operand p none = none
operand p (some t) = integer_rank (some t) >>= λ rank.
    some
      (record { at = p; is_unsigned = not (type_is_signed (some t)); rank = rank; bytes = t.size })

-- The end of the function, on the two promoted types. Neither kind is one that `type_compatible`
-- calls itself on, so one round of it is enough.
unfoldable pub usual_promoted : ℕ → ℕ → Types → Option (ℕ × Types)
usual_promoted l r st = type_compatible 1 st.store l r >>= λ same.
    if same
    then some (l, st)
    else (operand l (deref st.store l) >>= λ a.
        operand r (deref st.store r) >>= λ b. some (pick a b, st))

-- The part for two integers.
unfoldable pub usual_integers : ℕ → ℕ → Types → Option (ℕ × Types)
usual_integers left right st =
    let (l, st') = type_integer_promote left st in
    let (r, st'') = type_integer_promote right st' in usual_promoted l r st''

-- `none` is a read through NULL.
unfoldable pub type_usual_arithmetic : ℕ → ℕ → Types → Option (ℕ × Types)
type_usual_arithmetic left right st =
    let l = deref st.store left in
    let r = deref st.store right in
    if not (type_is_arithmetic l) || not (type_is_arithmetic r)
    then some (0, st)
    else if has_kind l double || has_kind r double
    then some (type_basic double st)
    else if has_kind l float || has_kind r float
    then some (type_basic float st)
    else usual_integers left right st
