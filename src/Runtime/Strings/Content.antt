-- ===== src/Runtime/Strings/Content.antt =====
-- The routines of src/runtime/target_string.c by the text that a buffer holds: length, comparison and
-- concatenation.
use cc.Base.{ℕ, suc, ◌+◌, ◌<◌, ◌≡◌, ◌↔◌, refl, arith, ap, ◌∙◌}
use cc.Base.{false, ◌==◌, if◌then◌else◌}
use cc.Base.{some, List, [], ◌∷◌, ◌++◌, length}
use cc.Runtime.Memory.{Sign, below, same, above, compare_bytes}
use cc.Runtime.Strings.{strlen, strcpy, strcat, strcmp}

-- The buffer holds the bytes and a terminator behind them, and none of the bytes is one.
pub data Holds : List ℕ → List ℕ → Type 0 where
  ends : (rest : List ℕ) → Holds (0 ∷ rest) []
  byte :
      (c : ℕ) {buffer text : List ℕ}
      → (c == 0) ≡ false
      → Holds buffer text
      → Holds (c ∷ buffer) (c ∷ text)

pub strlen-Holds : {buffer text : List ℕ} → Holds buffer text → strlen buffer ≡ some (length text)
unfolding strlen
strlen-Holds (ends rest) = refl
strlen-Holds (byte c nz h) = rw (nz, strlen-Holds h) refl

-- The order of texts by their bytes, in which a text comes before its extensions.
abbrev pub lexical : List ℕ → List ℕ → Sign
lexical [] [] = same
lexical [] (y ∷ ys) = below
lexical (x ∷ xs) [] = above
lexical (x ∷ xs) (y ∷ ys) = if x == y then lexical xs ys else compare_bytes x y

strcmp-eq_lexical :
    {left right l r : List ℕ}
    → Holds left l
    → Holds right r
    → strcmp left right ≡ some (lexical l r)
unfolding strcmp compare_bytes
strcmp-eq_lexical (ends a) (ends b) = refl
strcmp-eq_lexical (ends a) (byte c nz h) = ground arith
strcmp-eq_lexical (byte c nz h) (ends b) = ground arith
strcmp-eq_lexical (byte c nz h) (byte d nz' h') = ground (arith, strcmp-eq_lexical h h')

pub lexical-same : (xs ys : List ℕ) → lexical xs ys ≡ same → xs ≡ ys
unfolding compare_bytes
lexical-same [] [] e = refl
lexical-same [] (y ∷ ys) e = cc
lexical-same (x ∷ xs) [] e = cc
lexical-same (x ∷ xs) (y ∷ ys) e = ground (arith, lexical-same xs ys)

lexical_self : (xs : List ℕ) → lexical xs xs ≡ same
lexical_self [] = refl
lexical_self (x ∷ xs) = ground (arith, lexical_self xs)

-- On two terminated strings `strcmp` reads nothing past the terminators, answers their order by
-- bytes, and answers 0 exactly when the texts are equal.
pub strcmp-lexical :
    {left right l r : List ℕ}
    → Holds left l
    → Holds right r
    → (strcmp left right ≡ some (lexical l r)) × ((strcmp left right ≡ some same) ↔ (l ≡ r))
strcmp-lexical {left} {right} {l} {r} h h' =
    let e = strcmp-eq_lexical h h' in
    (e, (λ s. lexical-same l r (cc (e, s)), λ p. e ∙ ap some (rw p (lexical_self r))))

strcpy-Holds :
    (ds : List ℕ) {source text : List ℕ}
    → Holds source text
    → length text < length ds
    → (out : List ℕ) × (strcpy ds source ≡ some out) × Holds out text × (length out ≡ length ds)
unfolding strcpy
strcpy-Holds [] h room = absurd (omega arith)
strcpy-Holds (d ∷ ds) (ends rest) room = (0 ∷ ds, refl, ends ds, refl)
strcpy-Holds (d ∷ ds) (byte c nz h) room =
    let (out, e, held, same_length) = strcpy-Holds ds h (omega arith) in
    (c ∷ out, rw (nz, e) refl, byte c nz held, ap suc same_length)

-- With room for both texts and a terminator `strcat` leaves the text of the destination followed by
-- that of the source, in an object of the same size.
pub strcat-append :
    {ds source d s : List ℕ}
    → Holds ds d
    → Holds source s
    → length d + length s < length ds
    → (out : List ℕ) × (strcat ds source ≡ some out) × Holds out (d ++ s) × (length out ≡ length ds)
unfolding strcat
strcat-append (ends rest) h room = strcpy-Holds (0 ∷ rest) h (omega arith)
strcat-append (byte c nz held) h room =
    let (out, e, text, same_length) = strcat-append held h (omega arith) in
    (c ∷ out, rw (nz, e) refl, byte c nz text, ap suc same_length)
