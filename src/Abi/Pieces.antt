-- ===== src/Abi/Pieces.antt =====
-- The numbers of the registers of pieces, and the rounding to eight, of src/backend/abi.c.
use cc.Base.{ℕ, zero, suc, ◌+◌, ◌-◌, ◌*◌, ◌/◌, ◌^◌, ◌≤◌, ◌<◌, ◌≡◌, refl, arith, ap, ◌∙◌}
use cc.Base.{◌⊎◌}
use cc.Base.{List, [], ◌∷◌, ◌++◌, take, size_max, bit_and}
use cc.Base.Bits.{bit_and_high, bit_and_mask}
use cc.Abi.Classify.{AggClass, general_class, sse_class}
use cc.Abi.Assign.{round_up_8, need_general, need_vector, number_pieces}

-- `n` numbers from `from` on.
abbrev pub upward : ℕ → ℕ → List ℕ
upward from zero = []
upward from (suc n) = from ∷ upward (suc from) n

pub upward-append : (from n k : ℕ) → upward from n ++ upward (from + n) k ≡ upward from (n + k)
upward-append from zero k =
    ap (λ (t : ℕ). upward t k) {y = from} (omega arith)
    ∙ ap (λ (t : ℕ). upward from t) {y = 0 + k} (omega arith)
upward-append from (suc n) k =
    ap (λ l. from ∷ l)
      (ap (λ (t : ℕ). upward (suc from) n ++ upward t k) {y = suc from + n} (omega arith)
        ∙ upward-append (suc from) n k)
    ∙ ap (λ (t : ℕ). upward from t) {x = suc (n + k)} {y = suc n + k} (omega arith)

-- The register numbers of the pieces of one class.
abbrev pub generals_of : List AggClass → List ℕ → List ℕ
generals_of [] rs = []
generals_of (c ∷ cs) [] = []
generals_of (general_class ∷ cs) (r ∷ rs) = r ∷ generals_of cs rs
generals_of (sse_class ∷ cs) (r ∷ rs) = generals_of cs rs

abbrev pub vectors_of : List AggClass → List ℕ → List ℕ
vectors_of [] rs = []
vectors_of (c ∷ cs) [] = []
vectors_of (general_class ∷ cs) (r ∷ rs) = vectors_of cs rs
vectors_of (sse_class ∷ cs) (r ∷ rs) = r ∷ vectors_of cs rs

pub generals_of_none : (cs : List AggClass) → generals_of cs [] ≡ []
generals_of_none [] = refl
generals_of_none (c ∷ cs) = refl

pub vectors_of_none : (cs : List AggClass) → vectors_of cs [] ≡ []
vectors_of_none [] = refl
vectors_of_none (c ∷ cs) = refl

pub generals_of-upward :
    (n : ℕ) (cs : List AggClass) (g v : ℕ)
    → generals_of cs (number_pieces (take n cs) g v) ≡ upward g (need_general (take n cs))
unfolding number_pieces need_general
generals_of-upward zero [] g v = refl
generals_of-upward zero (general_class ∷ cs) g v = refl
generals_of-upward zero (sse_class ∷ cs) g v = refl
generals_of-upward (suc n) [] g v = refl
generals_of-upward (suc n) (general_class ∷ cs) g v =
    ap (λ l. g ∷ l) (generals_of-upward n cs (suc g) v)
generals_of-upward (suc n) (sse_class ∷ cs) g v = generals_of-upward n cs g (suc v)

pub vectors_of-upward :
    (n : ℕ) (cs : List AggClass) (g v : ℕ)
    → vectors_of cs (number_pieces (take n cs) g v) ≡ upward v (need_vector (take n cs))
unfolding number_pieces need_vector
vectors_of-upward zero [] g v = refl
vectors_of-upward zero (general_class ∷ cs) g v = refl
vectors_of-upward zero (sse_class ∷ cs) g v = refl
vectors_of-upward (suc n) [] g v = refl
vectors_of-upward (suc n) (general_class ∷ cs) g v = vectors_of-upward n cs (suc g) v
vectors_of-upward (suc n) (sse_class ∷ cs) g v = ap (λ l. v ∷ l) (vectors_of-upward n cs g (suc v))

pub round_mask : (v : ℕ) → v < 2 ^ 64 → bit_and v 0xffff_ffff_ffff_fff8 ≡ v / 8 * 8
round_mask v h = ground (arith, bit_and_high 3 v (2 ^ 61 - 1), bit_and_mask 61 (v / 8))

-- `round_up` gives the next multiple of eight, or SIZE_MAX.
pub round_up_8-cases :
    (v : ℕ) → v ≤ size_max → (round_up_8 v ≡ size_max) ⊎ (round_up_8 v ≡ (v + 7) / 8 * 8)
unfolding round_up_8
round_up_8-cases v h = ground (arith, round_mask (v + 7))

pub round_up_8-multiple : (q : ℕ) → q * 8 < 2 ^ 63 → round_up_8 (q * 8) ≡ q * 8
unfolding round_up_8
round_up_8-multiple q h = ground (arith, round_mask (q * 8 + 7))
