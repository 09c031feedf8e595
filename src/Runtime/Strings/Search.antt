-- ===== src/Runtime/Strings/Search.antt =====
-- The searches of src/runtime/target_string.c find the first place.
use cc.Base.{ℕ, zero, suc, ◌≤◌, ◌<◌, ◌≡◌, refl, arith}
use cc.Base.{Bool, true, false, ◌==◌, if◌then◌else◌, Bool-cases, inl, inr}
use cc.Base.{Option, none, some, List, [], ◌∷◌, length, drop}
use cc.Runtime.Strings.{strstr, strstr_from, matches_here, further}
use cc.Runtime.Strings.Content.{Holds, ends, byte}

-- Does the text begin with the needle?
abbrev pub begins : List ℕ → List ℕ → Bool
begins text [] = true
begins [] (n ∷ needle) = false
begins (c ∷ text) (n ∷ needle) = if c == n then begins text needle else false

matches_here-begins :
    {buffer text needle n : List ℕ}
    → Holds buffer text
    → Holds needle n
    → matches_here buffer needle ≡ some (begins text n)
unfolding matches_here
matches_here-begins (ends rest) (ends other) = refl
matches_here-begins (ends rest) (byte n nz h) = ground arith
matches_here-begins (byte c nz held) (ends other) = refl
matches_here-begins (byte c nz held) (byte n nz' h) = ground (arith, matches_here-begins held h)

-- The first place where the needle begins, by the definition of "first".
abbrev pub FirstAt : List ℕ → List ℕ → Option ℕ → Type 0
FirstAt text needle none = (i : ℕ) → i ≤ length text → begins (drop i text) needle ≡ false
FirstAt text needle (some k) =
    (begins (drop k text) needle ≡ true)
    × (k ≤ length text)
    × ((i : ℕ) → i < k → begins (drop i text) needle ≡ false)

-- A result of the search that is there.
abbrev pub Finds : List ℕ → List ℕ → Option (Option ℕ) → Type 0
Finds text needle none = ⊥
Finds text needle (some found) = FirstAt text needle found

later :
    (c : ℕ) (text needle : List ℕ) (r : Option (Option ℕ))
    → begins (c ∷ text) needle ≡ false
    → Finds text needle r
    → Finds (c ∷ text) needle (further r)
later c text needle none miss f = f
later c text needle (some none) miss f = λ i h. past i h
  where
    past : (i : ℕ) → i ≤ suc (length text) → begins (drop i (c ∷ text)) needle ≡ false
    past zero h = miss
    past (suc i) h = f i (omega arith)
later c text needle (some (some k)) miss f = (f.0, omega (arith, f.1), λ i h. past i h)
  where
    past : (i : ℕ) → i < suc k → begins (drop i (c ∷ text)) needle ≡ false
    past zero h = miss
    past (suc i) h = f.2 i (omega arith)

at_start : (text needle : List ℕ) → begins text needle ≡ true → FirstAt text needle (some 0)
at_start text needle e = (e, omega arith, λ i h. absurd (omega arith))

strstr_from-Finds :
    {buffer text needle : List ℕ} (n : ℕ) {ns : List ℕ}
    → Holds buffer text
    → Holds needle (n ∷ ns)
    → Finds text (n ∷ ns) (strstr_from buffer needle)
unfolding strstr_from
strstr_from-Finds n {ns} (ends rest) h = λ i below. none_here i below
  where
    none_here : (i : ℕ) → i ≤ 0 → begins (drop i []) (n ∷ ns) ≡ false
    none_here zero below = refl
    none_here (suc i) below = refl
strstr_from-Finds {text} n {ns} (byte c {buffer = b} {text = t} nz held) h =
    rw (nz, matches_here-begins (byte c nz held) h)
      (elim (Bool-cases (begins (c ∷ t) (n ∷ ns))) [
        | inl here ↦ rw here (at_start (c ∷ t) (n ∷ ns) here)
        | inr not_here ↦
            rw not_here (later c t (n ∷ ns) (strstr_from b _) not_here (strstr_from-Finds n held h))
      ])

-- On two terminated strings `strstr` reads nothing past the terminators; it answers the offset of
-- the first occurrence of the needle, and NULL when the text has none.
pub strstr-Finds :
    {buffer text needle n : List ℕ}
    → Holds buffer text
    → Holds needle n
    → Finds text n (strstr buffer needle)
unfolding strstr
strstr-Finds {text} held (ends rest) = at_start text [] refl
strstr-Finds held (byte n nz h) = rw nz (strstr_from-Finds n held (byte n nz h))
