-- ===== src/Tests/Runtime/Copying.antt =====
-- `memmove` and `memcpy` of src/runtime/target_string.c on blocks that overlap.
use cc.Base.{ℕ, ◌≡◌, refl, arith, some, List, [], ◌∷◌}
use cc.Runtime.Memory.{memmove, copy_down, store}
use cc.Runtime.Memory.Move.{Copies, memmove-Copies}

abbrev five_bytes : List ℕ
five_bytes = 10 ∷ 11 ∷ 12 ∷ 13 ∷ 14 ∷ []

moved_up : memmove 1 0 3 five_bytes ≡ some (10 ∷ 10 ∷ 11 ∷ 12 ∷ 14 ∷ [])
unfolding memmove copy_down store
moved_up = refl

memmove-Copies_example : Copies five_bytes 1 0 0 3 (memmove 1 0 3 five_bytes)
memmove-Copies_example = memmove-Copies five_bytes 1 0 3 (omega arith) (omega arith)
