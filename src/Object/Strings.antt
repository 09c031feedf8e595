-- ===== src/Object/Strings.antt =====
-- The string table of src/backend/object.c. A name is its text without the terminator; `bytes` is the
-- used part of the buffer and `names` the used part of the array, whose lengths are the fields `size`
-- and `count`.
pub mod Grow
pub mod Stands
use cc.Base.{
  ℕ, zero, suc, ◌+◌, ◌-◌, ◌*◌, ◌/◌, ◌%◌, ◌^◌, Bool, true, false, ◌==◌, ltb, if◌then◌else◌,
}
use cc.Base.{Option, none, some, List, [], ◌∷◌, ◌++◌, length, u32, size_max, ◌>>=◌}
use cc.Semantic.Predicates.{same_bytes}

pub record StringTable : Type 0 where
  pub bytes : List ℕ
  pub capacity : ℕ
  pub names : List (List ℕ)
  pub name_capacity : ℕ

-- `while (next < needed)`, with `fuel` doublings to go.
unfoldable pub double_until : ℕ → ℕ → ℕ → ℕ
double_until zero next needed = next
double_until (suc fuel) next needed =
    let doubled = double_until fuel (next * 2) needed in
    if ltb next needed then (if ltb (size_max / 2) next then needed else doubled) else next

unfoldable pub grown_capacity : ℕ → ℕ → ℕ
grown_capacity capacity needed =
    if ltb capacity needed
    then double_until 64 (if capacity == 0 then 64 else capacity) needed
    else capacity

-- The first loop of `string_add`: the place of a text among the names.
unfoldable pub find_name : List (List ℕ) → List ℕ → Option ℕ
find_name [] text = none
find_name (name ∷ names) text =
    let more = find_name names text >>= λ i. some (suc i) in
    if same_bytes name text then some 0 else more

-- The loop at `j`, from `current` on, with `left` names to go.
unfoldable pub name_offset : ℕ → List (List ℕ) → ℕ → ℕ
name_offset zero names current = current
name_offset (suc left) [] current = current
name_offset (suc left) (name ∷ names) current =
    name_offset left names (u32 (current + u32 (u32 (length name) + 1)))

-- The text and its terminator behind the bytes, and the text behind the names.
abbrev pub with_name : StringTable → List ℕ → StringTable
with_name table text = record {
  bytes = table.bytes ++ (text ++ (0 ∷ []));
  capacity = grown_capacity table.capacity (length table.bytes + (length text + 1));
  names = table.names ++ (text ∷ []);
  name_capacity =
      (if length table.names == table.name_capacity
        then (if table.name_capacity == 0 then 16 else table.name_capacity * 2)
        else table.name_capacity);
}

unfoldable pub add_name : StringTable → List ℕ → Option (ℕ × StringTable)
add_name table text =
    if ltb (size_max - (length text + 1)) (length table.bytes)
    then none
    else some (u32 (length table.bytes), with_name table text)

unfoldable pub known_or_added : StringTable → List ℕ → Option ℕ → Option (ℕ × StringTable)
known_or_added table text none = add_name table text
known_or_added table text (some i) = some (name_offset i table.names 0, table)

-- The offset and the table; `none` is false.
unfoldable pub string_add : StringTable → List ℕ → Option (ℕ × StringTable)
string_add table text = known_or_added table text (find_name table.names text)
