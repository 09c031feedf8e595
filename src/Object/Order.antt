-- ===== src/Object/Order.antt =====
-- The order in which the writer of src/backend/object.c sorts symbols.
pub mod Weak
use cc.Base.{ℕ, Bool, true, false, not, ◌&&◌, ◌||◌, ◌==◌, ltb, if◌then◌else◌, List}
use cc.Runtime.Memory.{Sign, below, same, above, compare_bytes}
use cc.Runtime.Strings.Content.{lexical}
use cc.Object.Build.{ObjectSymbol}

-- The first sign that is not 0.
abbrev pub then_by : Sign → Sign → Sign
then_by below later = below
then_by same later = later
then_by above later = above

-- `a != b ? (a < b ? -1 : 1)`, else 0.
unfoldable pub compare_numbers : ℕ → ℕ → Sign
compare_numbers a b = if a == b then same else if ltb a b then below else above

unfoldable pub compare_flags : Bool → Bool → Sign
compare_flags false false = same
compare_flags false true = below
compare_flags true false = above
compare_flags true true = same

-- `strcmp` on names is their order by bytes.
unfoldable pub object_symbol_compare : ObjectSymbol → ObjectSymbol → Sign
object_symbol_compare a b = then_by (compare_numbers a.binding b.binding) (
    then_by (lexical a.name b.name) (
      then_by (compare_numbers a.value b.value) (
        then_by (compare_numbers a.section_index b.section_index) (
          then_by (compare_numbers a.kind b.kind)
            (then_by (compare_numbers a.size b.size) (compare_flags a.defined b.defined))))))

-- `compare(a, b) > 0`
abbrev pub is_above : Sign → Bool
is_above below = false
is_above same = false
is_above above = true

abbrev pub symbol_greater : ObjectSymbol → ObjectSymbol → Bool
symbol_greater a b = is_above (object_symbol_compare a b)
