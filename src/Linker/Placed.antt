-- ===== src/Linker/Placed.antt =====
-- One section is placed by link_objects of src/linker/linker.c: aligned, behind what its output has, and
-- with its bytes there.
use mathlib.Core.List.{append-nil, append_assoc}
use native.Mathlib.Nat.{pow-suc, one-le-pow, mod-eq_of_lt}
use cc.Base.{ℕ, zero, suc, ◌+◌, ◌-◌, ◌^◌, ◌≤◌, ◌≡◌, ◌≢◌, refl, ap, subst, sym, ◌∙◌, arith}
use cc.Base.{true, false, Option, some, List, [], ◌++◌, length, length-append, replicate}
use cc.Base.{length-replicate, get_elem?, set, ltb, leb, ◌==◌, if◌then◌else◌, Bool-cases}
use cc.Base.{inl, inr, bit_and, u64, size_max, arith}
use cc.Linker.Objects.{LinkSection, OutputSection}
use cc.Linker.Outputs.{output_append, output_append_zeros, output_align_to, append_section}
use cc.Linker.Outputs.{place_section, complement}
use cc.Linker.Align.{AlignsTo, align-AlignsTo}

-- `more` was appended to an output that holds as many bytes as its size says.
pub record Grown (o p : OutputSection) (more : List ℕ) : Type 0 where
  pub appended : p.bytes ≡ o.bytes ++ more
  pub counted : p.size ≡ o.size + length more
  pub same_base : p.output_offset ≡ o.output_offset
  pub same_alignment : p.alignment ≡ o.alignment

pub Grown-trans :
    {o p q : OutputSection} {a b : List ℕ} → Grown o p a → Grown p q b → Grown o q (a ++ b)
Grown-trans {o} {p} {q} {a} {b} g h = record {
  appended = h.appended ∙ ap (λ x. x ++ b) g.appended ∙ append_assoc o.bytes a b;
  counted = omega (arith, g.counted, h.counted, length-append a b);
  same_base = h.same_base ∙ g.same_base;
  same_alignment = h.same_alignment ∙ g.same_alignment;
}

pub Grown-refl : (o : OutputSection) → Grown o o []
Grown-refl o = record {
  appended = sym (append-nil o.bytes);
  counted = omega arith;
  same_base = refl;
  same_alignment = refl;
}

-- The call gives an output with `more` behind it.
abbrev pub Gives : OutputSection → Option OutputSection → List ℕ → Type 0
Gives o r more = (p : OutputSection) × (r ≡ some p) × Grown o p more

output_append-Gives :
    (o : OutputSection) (more : List ℕ)
    → o.size + length more ≤ size_max
    → Gives o (output_append o more) more
unfolding output_append
output_append-Gives o more h =
    let e : ltb (size_max - o.size) (length more) ≡ false = ground arith in
    rw e
      (_, refl, record { appended = refl; counted = refl; same_base = refl; same_alignment = refl })

output_append_zeros-Gives :
    (o : OutputSection) (n : ℕ)
    → o.size + n ≤ size_max
    → Gives o (output_append_zeros true o n) (replicate n 0)
unfolding output_append_zeros
output_append_zeros-Gives o zero h = (o, refl, Grown-refl o)
output_append_zeros-Gives o (suc n) h =
    let e : (suc n == 0) ≡ false = ground arith in
    rw e (
      output_append-Gives o (replicate (suc n) 0)
        (omega (arith, length-replicate {A = ℕ} (suc n) 0)))

reached : (t s : ℕ) → s ≤ t → s + (t - s) ≡ t
reached t s h = omega arith

-- The padding before a section of this alignment.
pub record Padded (o p : OutputSection) (alignment : ℕ) : Type 0 where
  pub zeros : ℕ
  pub grown : Grown o p (replicate zeros 0)
  pub aligns : AlignsTo alignment o.size p.size

output_align_to-Padded :
    (o : OutputSection) (k : ℕ)
    → k ≤ 15
    → o.size + 2 ^ k ≤ size_max
    → (p : OutputSection) × (output_align_to true o (2 ^ k) ≡ some p) × Padded o p (2 ^ k)
unfolding output_align_to
output_align_to-Padded o zero h room = (
  o,
  refl,
  record {
    zeros = 0;
    grown = Grown-refl o;
    aligns = record { lower = omega arith; upper = omega arith; aligned = ground arith };
  },
)
output_align_to-Padded o (suc k) h room =
    let target = bit_and (o.size + (2 ^ suc k - 1)) (complement (2 ^ suc k - 1)) in
    let aligns : AlignsTo (2 ^ suc k) o.size target =
      align-AlignsTo (suc k) o.size h (omega arith) in
    let large : leb (2 ^ suc k) 1 ≡ false = ground (arith, pow-suc 2 k, one-le-pow k 2) in
    let whole : u64 (o.size + (2 ^ suc k - 1)) ≡ o.size + (2 ^ suc k - 1) =
      mod-eq_of_lt (omega arith) in
    let forward : ltb target o.size ≡ false = ground (arith, aligns.lower) in
    let (p, e, g) =
      output_append_zeros-Gives o (target - o.size) (omega (arith, aligns.lower, aligns.upper)) in
    rw (large, whole, forward)
      (
        p,
        e,
        record {
          zeros = target - o.size;
          grown = g;
          aligns =
              rw
                (
                  g.counted,
                  length-replicate {A = ℕ} (target - o.size) 0,
                  reached target o.size aligns.lower,
                )
                aligns;
        },
      )

-- What link_objects relies on: read_object_file has checked it.
pub record IsSection (s : LinkSection) : Type 0 where
  pub power : ℕ
  pub small : power ≤ 15
  pub is_power : s.alignment ≡ 2 ^ power
  pub sized : s.kind ≢ 3 → length s.bytes ≡ s.size

-- What a section puts into its output.
abbrev pub content : LinkSection → List ℕ
content s = if s.kind == 3 then replicate s.size 0 else s.bytes

length-content : (s : LinkSection) → IsSection s → length (content s) ≡ s.size
length-content s v = elim (Bool-cases (s.kind == 3)) [
  | inl e ↦ rw e (length-replicate {A = ℕ} s.size 0)
  | inr e ↦ rw e (v.sized (λ k. ground arith))
]

append_section-Gives :
    (o : OutputSection) (s : LinkSection)
    → IsSection s
    → o.size + s.size ≤ size_max
    → Gives o (append_section true o s) (content s)
unfolding append_section
append_section-Gives o s v h = elim (Bool-cases (s.kind == 3)) [
  | inl e ↦ rw e (output_append_zeros-Gives o s.size h)
  | inr e ↦ rw e (output_append-Gives o s.bytes (rw (v.sized (λ k. ground arith)) h))
]

-- The section as link_objects leaves it.
abbrev pub placed_at : LinkSection → ℕ → LinkSection
placed_at s at = record s { output_offset = at; output_kind = s.kind }

-- The section is behind what the output had, aligned, with its content; the output ends with it.
pub record Places (o full : OutputSection) (s : LinkSection) (at : ℕ) : Type 0 where
  pub aligns : AlignsTo s.alignment o.size at
  pub ends : full.size ≡ at + s.size
  pub filled : length full.bytes ≡ full.size
  pub more : List ℕ
  pub grown : Grown o full more
  pub front : List ℕ
  pub parts : full.bytes ≡ front ++ content s
  pub before : length front ≡ at

-- The same with the power of two in the place of the alignment.
padded :
    (o : OutputSection) (s : LinkSection)
    → IsSection s
    → o.size + s.alignment ≤ size_max
    → (p : OutputSection) × (output_align_to true o s.alignment ≡ some p) × Padded o p s.alignment
padded o s v h =
    subst (λ a. (p : OutputSection) × (output_align_to true o a ≡ some p) × Padded o p a)
      (sym v.is_power)
      (output_align_to-Padded o v.power v.small (subst (λ a. o.size + a ≤ size_max) v.is_power h))

pub place_section-Places :
    (outputs : List OutputSection) (s : LinkSection) (o : OutputSection)
    → get_elem? outputs s.kind ≡ some o
    → length o.bytes ≡ o.size
    → IsSection s
    → o.size + s.alignment + s.size ≤ size_max
    → (at : ℕ) × (full : OutputSection) × (place_section true outputs s
        ≡ some (set outputs s.kind full, placed_at s at))
      × Places o full s at
unfolding place_section
place_section-Places outputs s o e filled v room =
    let (p, pe, pad) = padded o s v (omega arith) in
    let (full, fe, g) = append_section-Gives p s v (omega (arith, pad.aligns.upper)) in
    let both = Grown-trans pad.grown g in
    let counted : length p.bytes ≡ p.size =
      rw pad.grown.appended
        (omega (arith, pad.grown.counted, length-append o.bytes (replicate pad.zeros 0))) in
    (
      p.size,
      full,
      rw (e, pe, fe) refl,
      record {
        aligns = pad.aligns;
        ends = omega (arith, g.counted, length-content s v);
        filled =
            rw g.appended (omega (arith, g.counted, length-append p.bytes (content s), counted));
        more = _;
        grown = both;
        front = p.bytes;
        parts = g.appended;
        before = counted;
      },
    )
