-- ===== src/Linker/Bases.antt =====
-- link_objects of src/linker/linker.c gives the outputs their offsets, one behind the other.
use cc.Base.{ℕ, ◌+◌, ◌-◌, ◌^◌, ◌≤◌, ◌<◌, ◌≡◌, refl, subst, sym, arith, some}
use cc.Base.{List, [], ◌∷◌, All, ltb, ◌==◌, false}
use cc.Base.{size_max}
use native.Mathlib.Nat.{one-le-pow}
use cc.Linker.Objects.{OutputSection}
use cc.Linker.Outputs.{align_output, assign_bases}
use cc.Linker.Align.{AlignsTo, align-AlignsTo}

-- The alignment is a power of two.
pub record IsAligned (o : OutputSection) : Type 0 where
  pub power : ℕ
  pub small : power ≤ 15
  pub is_power : o.alignment ≡ 2 ^ power

-- The bytes that the outputs can take, with their padding.
abbrev pub extent : List OutputSection → ℕ
extent [] = 0
extent (o ∷ os) = o.alignment + o.size + extent os

-- The outputs stand from `base` on, each aligned and behind the one before, and are else the same.
abbrev pub Stacked : ℕ → List OutputSection → List OutputSection → Type 0
Stacked base [] [] = Unit {0}
Stacked base [] (p ∷ ps) = ⊥
Stacked base (o ∷ os) [] = ⊥
Stacked base (o ∷ os) (p ∷ ps) =
    (p ≡ record o { output_offset = p.output_offset })
    × AlignsTo o.alignment base p.output_offset
    × Stacked (p.output_offset + o.size) os ps

align_output-AlignsTo :
    (o : OutputSection) (base : ℕ)
    → IsAligned o
    → base + o.alignment ≤ size_max
    → (at : ℕ) × (align_output o.alignment base ≡ some at) × AlignsTo o.alignment base at
unfolding align_output
align_output-AlignsTo o base v h =
    subst (λ a. (at : ℕ) × (align_output a base ≡ some at) × AlignsTo a base at) (sym v.is_power)
      (power v.power v.small (subst (λ a. base + a ≤ size_max) v.is_power h))
  where
    power :
        (k : ℕ)
        → k ≤ 15
        → base + 2 ^ k ≤ size_max
        → (at : ℕ) × (align_output (2 ^ k) base ≡ some at) × AlignsTo (2 ^ k) base at
    power k small room =
        let positive : 0 < 2 ^ k = one-le-pow k 2 (omega arith) in
        let e : (2 ^ k == 0) ≡ false = ground arith in
        let f : ltb (size_max - (2 ^ k - 1)) base ≡ false = ground arith in
        rw (e, f) (_, refl, align-AlignsTo k base small (omega arith))

-- With room for all outputs and their padding, they get offsets from `base` on, one behind the other,
-- and each a multiple of its alignment.
pub assign_bases-Stacked :
    (base : ℕ) (os : List OutputSection)
    → All IsAligned os
    → base + extent os ≤ size_max
    → (ps : List OutputSection) × (assign_bases base os ≡ some ps) × Stacked base os ps
unfolding assign_bases
assign_bases-Stacked base [] v h = ([], refl, tt)
assign_bases-Stacked base (o ∷ os) (v, vs) h =
    let (at, e, aligns) = align_output-AlignsTo o base v (omega arith) in
    let (ps, f, stacked) = assign_bases-Stacked (at + o.size) os vs (omega (arith, aligns.upper)) in
    let g : ltb (size_max - o.size) at ≡ false = ground (arith, aligns.upper) in
    (record o { output_offset = at } ∷ ps, rw (e, g, f) refl, (refl, aligns, stacked))
