-- ===== src/Object/Order/Weak.antt =====
-- The comparison of symbols of src/backend/object.c is a weak order, so that sorting by it sorts.
use cc.Base.{ℕ, ◌<◌, ◌≡◌, refl, arith, ap, ◌∙◌}
use cc.Base.{Bool, true, false, List, [], ◌∷◌}
use cc.Runtime.Memory.{Sign, below, same, above, compare_bytes}
use cc.Runtime.Strings.Content.{lexical, lexical-same}
use cc.Runtime.Sort.{qsort}
use cc.Runtime.Sort.Laws.{IsWeakOrder, SortsIf, qsort-Sorts}
use cc.Object.Build.{ObjectSymbol}
use cc.Object.Order.{then_by, compare_numbers, compare_flags, object_symbol_compare, is_above}
use cc.Object.Order.{symbol_greater}

abbrev pub opposite : Sign → Sign
opposite below = above
opposite same = same
opposite above = below

pub record IsComparison {A : Type 0} (compare : A → A → Sign) : Type 0 where
  pub flip : (a b : A) → compare b a ≡ opposite (compare a b)
  pub along : (a b c : A) → compare a b ≡ same → compare a c ≡ compare b c
  pub under :
      (a b c : A) → compare a b ≡ below → is_above (compare b c) ≡ false → compare a c ≡ below

module _ {A : Type 0} (compare : A → A → Sign) (law : IsComparison compare) where
  open law use {flip, along, under}

  not_above :
      (a b c : A) (s : Sign)
      → compare a b ≡ s
      → is_above s ≡ false
      → is_above (compare b c) ≡ false
      → is_above (compare a c) ≡ false
  not_above a b c below e h k = ap is_above (under a b c e k)
  not_above a b c same e h k = ap is_above (along a b c e) ∙ k
  not_above a b c above e h k = cc

  flipped : (s : Sign) → is_above s ≡ true → is_above (opposite s) ≡ false
  flipped below h = cc
  flipped same h = refl
  flipped above h = refl

  pub is_above-IsWeakOrder : IsWeakOrder (λ a b. is_above (compare a b))
  is_above-IsWeakOrder = record {
    asym = λ a b h. ap is_above (flip a b) ∙ flipped (compare a b) h;
    trans = λ a b c h k. not_above a b c (compare a b) refl h k;
  }

module _ {A : Type 0} (first second : A → A → Sign) (one : IsComparison first)
    (two : IsComparison second) where
  then_by-flip : (s t : Sign) → then_by (opposite s) (opposite t) ≡ opposite (then_by s t)
  then_by-flip below t = refl
  then_by-flip same t = refl
  then_by-flip above t = refl

  then_by-same : (s t : Sign) → then_by s t ≡ same → (s ≡ same) × (t ≡ same)
  then_by-same below t h = cc
  then_by-same same t h = (refl, h)
  then_by-same above t h = cc

  under_then :
      (a b c : A) (s t : Sign)
      → first a b ≡ s
      → first b c ≡ t
      → then_by s (second a b) ≡ below
      → is_above (then_by t (second b c)) ≡ false
      → then_by (first a c) (second a c) ≡ below
  under_then a b c below below e f h k =
      ap (λ x. then_by x (second a c)) (one.under a b c e (ap is_above f))
  under_then a b c below same e f h k =
      ap (λ x. then_by x (second a c)) (one.under a b c e (ap is_above f))
  under_then a b c below above e f h k = cc
  under_then a b c same below e f h k = ap (λ x. then_by x (second a c)) (one.along a b c e ∙ f)
  under_then a b c same same e f h k =
      ap (λ x. then_by x (second a c)) (one.along a b c e ∙ f) ∙ two.under a b c h k
  under_then a b c same above e f h k = cc
  under_then a b c above t e f h k = cc

  pub then_by-IsComparison : IsComparison (λ a b. then_by (first a b) (second a b))
  then_by-IsComparison = record {
    flip = λ a b.
        ap (λ s. then_by s (second b a)) (one.flip a b)
        ∙ ap (λ t. then_by (opposite (first a b)) t) (two.flip a b)
        ∙ then_by-flip (first a b) (second a b);
    along = λ a b c h.
        let (p, q) = then_by-same (first a b) (second a b) h in
        ap (λ s. then_by s (second a c)) (one.along a b c p)
        ∙ ap (λ t. then_by (first b c) t) (two.along a b c q);
    under = λ a b c h k. under_then a b c (first a b) (first b c) refl refl h k;
  }

compare_numbers-IsComparison : IsComparison compare_numbers
unfolding compare_numbers
compare_numbers-IsComparison = record {
  flip = λ a b. ground arith;
  along = λ a b c h. ground (arith, h);
  under = λ a b c h k. ground (arith, h, k);
}

compare_flags-flip : (a b : Bool) → compare_flags b a ≡ opposite (compare_flags a b)
unfolding compare_flags
compare_flags-flip false false = refl
compare_flags-flip false true = refl
compare_flags-flip true false = refl
compare_flags-flip true true = refl

compare_flags-along :
    (a b c : Bool) → compare_flags a b ≡ same → compare_flags a c ≡ compare_flags b c
unfolding compare_flags
compare_flags-along false false c h = refl
compare_flags-along false true c h = cc
compare_flags-along true false c h = cc
compare_flags-along true true c h = refl

compare_flags-under :
    (a b c : Bool)
    → compare_flags a b ≡ below
    → is_above (compare_flags b c) ≡ false
    → compare_flags a c ≡ below
unfolding compare_flags
compare_flags-under false false c h k = cc
compare_flags-under false true false h k = cc
compare_flags-under false true true h k = refl
compare_flags-under true false c h k = cc
compare_flags-under true true c h k = cc

compare_flags-IsComparison : IsComparison compare_flags
unfolding compare_flags
compare_flags-IsComparison = record {
  flip = compare_flags-flip;
  along = compare_flags-along;
  under = compare_flags-under;
}

lexical-flip : (xs ys : List ℕ) → lexical ys xs ≡ opposite (lexical xs ys)
unfolding compare_bytes
lexical-flip [] [] = refl
lexical-flip [] (y ∷ ys) = refl
lexical-flip (x ∷ xs) [] = refl
lexical-flip (x ∷ xs) (y ∷ ys) = ground (arith, lexical-flip xs ys)

lexical-under :
    (xs ys zs : List ℕ)
    → lexical xs ys ≡ below
    → is_above (lexical ys zs) ≡ false
    → lexical xs zs ≡ below
unfolding compare_bytes
lexical-under [] [] zs h k = cc
lexical-under [] (y ∷ ys) [] h k = cc
lexical-under [] (y ∷ ys) (z ∷ zs) h k = refl
lexical-under (x ∷ xs) [] zs h k = cc
lexical-under (x ∷ xs) (y ∷ ys) [] h k = cc
lexical-under (x ∷ xs) (y ∷ ys) (z ∷ zs) h k = ground (arith, h, k, lexical-under xs ys zs)

lexical-IsComparison : IsComparison lexical
lexical-IsComparison = record {
  flip = lexical-flip;
  along = λ xs ys zs h. ap (λ l. lexical l zs) (lexical-same xs ys h);
  under = lexical-under;
}

-- A comparison of a part.
on-IsComparison :
    {A B : Type 0} (part : A → B) (compare : B → B → Sign)
    → IsComparison compare
    → IsComparison (λ a b. compare (part a) (part b))
on-IsComparison part compare law = record {
  flip = λ a b. law.flip (part a) (part b);
  along = λ a b c. law.along (part a) (part b) (part c);
  under = λ a b c. law.under (part a) (part b) (part c);
}

number_field : (part : ObjectSymbol → ℕ) → IsComparison (λ a b. compare_numbers (part a) (part b))
number_field part = on-IsComparison part compare_numbers compare_numbers-IsComparison

object_symbol_compare-IsComparison : IsComparison object_symbol_compare
unfolding object_symbol_compare
object_symbol_compare-IsComparison = then_by-IsComparison _ _ (number_field λ s. s.binding) (
    then_by-IsComparison _ _
      (on-IsComparison (λ (s : ObjectSymbol). s.name) lexical lexical-IsComparison)
      (then_by-IsComparison _ _ (number_field λ s. s.value) (
        then_by-IsComparison _ _ (number_field λ s. s.section_index) (
          then_by-IsComparison _ _ (number_field λ s. s.kind) (
            then_by-IsComparison _ _ (number_field λ s. s.size) (
              on-IsComparison (λ (s : ObjectSymbol). s.defined) compare_flags
                compare_flags-IsComparison))))))

-- Sorting the symbols of an object by `object_symbol_compare` with the `qsort` of the runtime. Where its
-- allocation is granted, the result is in the order of the comparison, has the symbols of the table, and
-- keeps symbols that compare equal in their order; where it is refused, the symbols stay as they were.
pub object_symbols-Sorts :
    (slot_given : Bool) (size : ℕ) (symbols : List ObjectSymbol)
    → 0 < size
    → SortsIf symbol_greater slot_given symbols (qsort symbol_greater slot_given size symbols)
object_symbols-Sorts slot_given size symbols pos =
    qsort-Sorts symbol_greater
      (is_above-IsWeakOrder object_symbol_compare object_symbol_compare-IsComparison) slot_given
      size symbols pos
