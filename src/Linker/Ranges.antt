-- ===== src/Linker/Ranges.antt =====
-- The ranges of an object file that the linker of src/linker/linker.c has accounted for.
use cc.Base.{
  ℕ, zero, suc, ◌+◌, ◌-◌, ◌*◌, Bool, true, false, not, ◌&&◌, ◌==◌, ltb, leb, if◌then◌else◌,
}
use cc.Base.{◌>>=◌, Option, none, some, List, [], ◌∷◌, ◌++◌, length, set, replicate, u64}

pub record ObjectRange : Type 0 where
  pub offset : ℕ
  pub extent : ℕ

-- `bytes` is the file; the field `range_count` is the length of `ranges`.
pub record LinkObject : Type 0 where
  pub bytes : List ℕ
  pub ranges : List ObjectRange
  pub range_capacity : ℕ

unfoldable pub range_ok : ℕ → ℕ → ℕ → Bool
range_ok offset extent total = leb offset total && leb extent (total - offset)

-- The loop over the ranges.
unfoldable pub overlaps_any : ℕ → ℕ → List ObjectRange → Bool
overlaps_any offset end [] = false
overlaps_any offset end (r ∷ rs) =
    let more = overlaps_any offset end rs in
    if ltb offset (u64 (r.offset + r.extent)) && ltb r.offset end then true else more

unfoldable pub object_range_add : LinkObject → ℕ → ℕ → Option LinkObject
object_range_add object offset extent =
    if extent == 0
    then some object
    else if not (range_ok offset extent (length object.bytes))
    then none
    else if overlaps_any offset (u64 (offset + extent)) object.ranges
    then none
    else some (record object {
      ranges = object.ranges ++ (record { offset = offset; extent = extent } ∷ []);
      range_capacity =
          (if length object.ranges == object.range_capacity
            then (if object.range_capacity == 0 then 16 else object.range_capacity * 2)
            else object.range_capacity);
    })

-- The bytes of one range, with `left` to go; none is a write past the array.
unfoldable pub cover_range : ℕ → ℕ → ℕ → List Bool → Option (List Bool)
cover_range zero j offset covered = some covered
cover_range (suc left) j offset covered =
    let rest = cover_range left (suc j) offset (set covered (offset + j) true) in
    if ltb (offset + j) (length covered) then rest else none

unfoldable pub cover_ranges : List ObjectRange → List Bool → Option (List Bool)
cover_ranges [] covered = some covered
cover_ranges (r ∷ rs) covered =
    cover_range r.extent 0 r.offset covered >>= λ covered'. cover_ranges rs covered'

-- The loop over the bytes.
unfoldable pub uncovered_zero : List Bool → List ℕ → Bool
uncovered_zero covered [] = true
uncovered_zero [] (b ∷ bs) = true
uncovered_zero (c ∷ cs) (b ∷ bs) =
    let more = uncovered_zero cs bs in if not c && not (b == 0) then false else more

-- `calloc_given` says whether the allocation was granted.
unfoldable pub object_uncovered_bytes_are_zero : Bool → LinkObject → Option Bool
object_uncovered_bytes_are_zero calloc_given object =
    if not calloc_given
    then some false
    else (cover_ranges object.ranges (replicate (length object.bytes) false) >>= λ covered.
        some (uncovered_zero covered object.bytes))
