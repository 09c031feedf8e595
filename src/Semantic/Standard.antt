-- ===== src/Semantic/Standard.antt =====
-- The usual arithmetic conversions of the C standard, 6.3.1.8, on kinds, with which `type_usual_arithmetic` of
-- src/semantic/semantic.c is compared.
use cc.Base.{ℕ, Bool, true, false, not, ◌&&◌, ◌||◌, ltb, leb, if◌then◌else◌}
use cc.Semantic.Kind.{TypeKind, bool, unsigned_char, unsigned_short, int, unsigned_int, long}
use cc.Semantic.Kind.{unsigned_long, long_long, unsigned_long_long, float, double, enum, uint128}
use cc.Semantic.Kind.{is_integer_kind, rank_of_kind, same_kind}

-- A type of a rank below that of `int`, or an enumeration, becomes `int`.
abbrev pub promoted : TypeKind → TypeKind
promoted k =
    if not (is_integer_kind k)
    then k
    else if ltb (rank_of_kind k) 3 || same_kind k enum
    then int
    else k

unfoldable pub is_unsigned : TypeKind → Bool
is_unsigned bool = true
is_unsigned unsigned_char = true
is_unsigned unsigned_short = true
is_unsigned unsigned_int = true
is_unsigned unsigned_long = true
is_unsigned unsigned_long_long = true
is_unsigned uint128 = true
is_unsigned _ = false

-- The number of value bits, by which one type can represent all values of another.
unfoldable pub value_bits : TypeKind → ℕ
value_bits int = 31
value_bits unsigned_int = 32
value_bits long = 63
value_bits unsigned_long = 64
value_bits long_long = 63
value_bits unsigned_long_long = 64
value_bits uint128 = 128
value_bits _ = 0

-- The unsigned type that corresponds to a signed one.
unfoldable pub unsigned_of : TypeKind → TypeKind
unsigned_of int = unsigned_int
unsigned_of long = unsigned_long
unsigned_of long_long = unsigned_long_long
unsigned_of k = k

-- One promoted operand is unsigned, `u`, and the other signed, `s`.
unfoldable pub mixed : TypeKind → TypeKind → TypeKind
mixed u s =
    if leb (rank_of_kind s) (rank_of_kind u)
    then u
    else if leb (value_bits u) (value_bits s)
    then s
    else unsigned_of s

unfoldable pub standard_integers : TypeKind → TypeKind → TypeKind
standard_integers l r =
    if same_kind l r
    then l
    else if is_unsigned l
    then (if is_unsigned r
        then (if ltb (rank_of_kind l) (rank_of_kind r) then r else l)
        else mixed l r)
    else if is_unsigned r
    then mixed r l
    else if ltb (rank_of_kind l) (rank_of_kind r)
    then r
    else l

unfoldable pub standard_usual : TypeKind → TypeKind → TypeKind
standard_usual l r =
    if same_kind l double || same_kind r double
    then double
    else if same_kind l float || same_kind r float
    then float
    else standard_integers (promoted l) (promoted r)

-- The three pairs of promoted kinds of one size and different signs, on which the code differs.
unfoldable pub is_exception : TypeKind → TypeKind → Bool
is_exception l r =
    (same_kind l unsigned_long && same_kind r long_long)
    || (same_kind l long_long && same_kind r unsigned_long)
    || (same_kind l long && same_kind r unsigned_long_long)
