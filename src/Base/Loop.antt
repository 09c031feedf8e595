-- ===== src/Base/Loop.antt =====
-- A loop of C that ends by its test or a `break`: the body says whether there is another turn. `none`
-- is fuel that ran out, in the loop or in one inside of it.
use Prim.Native.Nat.{ℕ, zero, suc, ◌<◌}
use mathlib.Core.Option.{Option, none, some}
use native.Mathlib.Omega.{arith}
use mathlib.Core.Bool.{Bool, true, false}
use mathlib.Core.Path.{◌≡◌, refl}
use cc.Base.Maybe.{◌>>=◌}
use cc.Base.Tests.{if◌then◌else◌}

pub data Turn {ℓ} (S : Type ℓ) : Type ℓ where
  again leave : S → Turn S

unfoldable pub turned {ℓ} : {S : Type ℓ} → (S → Option S) → Option (Turn S) → Option S
turned more none = none
turned more (some (again t)) = more t
turned more (some (leave t)) = some t

unfoldable pub loop {ℓ} : {S : Type ℓ} → (S → Option (Turn S)) → ℕ → S → Option S
unfolding turned
loop body zero s = none
loop body (suc fuel) s = turned (loop body fuel) (body s)

-- The computation ends, and its result has the property.
abbrev pub Ends {ℓ} : {A : Type ℓ} → (A → Type 0) → Option A → Type 0
Ends P none = ⊥
Ends P (some a) = P a

-- A turn that is not the last keeps the invariant and makes the measure smaller.
abbrev pub Turns {ℓ} : {S : Type ℓ} → (S → Type 0) → (S → Type 0) → (S → ℕ) → S → Turn S → Type 0
Turns P Q measure s (again t) = P t × (measure t < measure s)
Turns P Q measure s (leave t) = Q t

pub Ends-bind {ℓ κ} :
    {A : Type ℓ} {B : Type κ} (P : A → Type 0) (Q : B → Type 0) (m : Option A) (f : A → Option B)
    → Ends P m
    → ((a : A) → P a → Ends Q (f a))
    → Ends Q (m >>= f)
Ends-bind P Q none f e h = absurd e
Ends-bind P Q (some a) f e h = h a e

pub Ends-map {ℓ} :
    {A : Type ℓ} (P Q : A → Type 0) (m : Option A) → Ends P m → ((a : A) → P a → Q a) → Ends Q m
Ends-map P Q none e h = absurd e
Ends-map P Q (some a) e h = h a e

turned-Ends {ℓ} :
    {S : Type ℓ} (P Q : S → Type 0) (measure : S → ℕ) (s : S) (more : S → Option S)
    → ((t : S) → measure t < measure s → P t → Ends Q (more t))
    → (m : Option (Turn S)) → Ends (Turns P Q measure s) m
    → Ends Q (turned more m)
unfolding turned
turned-Ends P Q measure s more h none e = absurd e
turned-Ends P Q measure s more h (some (again t)) (p, less) = h t less p
turned-Ends P Q measure s more h (some (leave t)) e = e

-- The rule of the invariant and of termination.
pub loop-Ends {ℓ} :
    {S : Type ℓ} (P Q : S → Type 0) (measure : S → ℕ) (body : S → Option (Turn S))
    → ((s : S) → P s → Ends (Turns P Q measure s) (body s))
    → (fuel : ℕ) (s : S) → measure s < fuel
    → P s
    → Ends Q (loop body fuel s)
unfolding loop
loop-Ends P Q measure body keep zero s h p = absurd (omega arith)
loop-Ends P Q measure body keep (suc fuel) s h p =
    turned-Ends P Q measure s (loop body fuel)
      (λ t less q. loop-Ends P Q measure body keep fuel t (omega arith) q) (body s) (keep s p)

pub Ends-if {ℓ} :
    {A : Type ℓ} (P : A → Type 0) (b : Bool) (x y : Option A)
    → (b ≡ true → Ends P x)
    → (b ≡ false → Ends P y)
    → Ends P (if b then x else y)
Ends-if P true x y h k = h refl
Ends-if P false x y h k = k refl

-- The same, with the equation of the first step.
pub Ends-bind_eq {ℓ κ} :
    {A : Type ℓ} {B : Type κ} (P : A → Type 0) (Q : B → Type 0) (m : Option A) (f : A → Option B)
    → Ends P m
    → ((a : A) → m ≡ some a → P a → Ends Q (f a))
    → Ends Q (m >>= f)
Ends-bind_eq P Q none f e h = absurd e
Ends-bind_eq P Q (some a) f e h = h a refl e
