-- ===== src/Object/Strings/Stands.antt =====
-- What `string_add` of src/backend/object.c gives: the offset of the text in the table's bytes.
use cc.Base.{ℕ, zero, suc, ◌+◌, ◌-◌, ◌^◌, ◌≤◌, ◌<◌, ◌≡◌, refl, arith, sym, ap, ◌∙◌}
use cc.Base.{false, ltb, Bool-cases, inl, inr, size_max}
use cc.Base.{
  Option, none, some, List, [], ◌∷◌, ◌++◌, >>=-eq-some, subst, length, u32, take, length-append,
  Option-cases,
}
use cc.Object.Strings.{
  StringTable, with_name, find_name, name_offset, add_name, known_or_added, string_add,
}
use cc.Object.Strings.Grow.{grown_capacity-ge}
use cc.Semantic.Predicates.{same_bytes}
use cc.Semantic.Names.{same_bytes-eq, same_bytes_self}
use mathlib.Core.Option.{some-injective}
use mathlib.Core.List.{append-nil, append_assoc}

-- The names one behind the other, each with its terminator.
abbrev pub joined : List (List ℕ) → List ℕ
joined [] = []
joined (name ∷ names) = name ++ (0 ∷ joined names)

pub record IsStringTable (t : StringTable) : Type 0 where
  pub content : t.bytes ≡ joined t.names
  pub capacity : length t.bytes ≤ t.capacity
  pub name_capacity : length t.names ≤ t.name_capacity

-- The text and a terminator stand at the offset.
pub record StandsAt (bytes text : List ℕ) (offset : ℕ) : Type 0 where
  pub before : List ℕ
  pub after : List ℕ
  pub around : bytes ≡ before ++ (text ++ (0 ∷ after))
  pub before_length : length before ≡ offset

-- Where the name at an index begins.
abbrev pub start_of : ℕ → List (List ℕ) → ℕ
start_of i names = length (joined (take i names))

name_offset-start_of :
    (i : ℕ) (names : List (List ℕ)) (current done : ℕ)
    → current ≡ u32 done
    → name_offset i names current ≡ u32 (done + start_of i names)
unfolding name_offset
name_offset-start_of zero names current done h = h ∙ ap u32 (omega arith)
name_offset-start_of (suc i) [] current done h = h ∙ ap u32 (omega arith)
name_offset-start_of (suc i) (name ∷ names) current done h =
    let n = length name + 1 in
    name_offset-start_of i names (u32 (current + u32 (u32 (length name) + 1))) (done + n)
      (omega arith)
    ∙ ap u32 (omega (arith, length-append name (0 ∷ joined (take i names))))

find_name-end :
    (names : List (List ℕ)) (text : List ℕ)
    → find_name names text ≡ none
    → find_name (names ++ (text ∷ [])) text ≡ some (length names)
unfolding find_name
find_name-end [] text h = rw (same_bytes_self text) refl
find_name-end (name ∷ names) text h = elim (Option-cases (find_name names text)) [
  | inl e ↦ ground (arith, e, find_name-end names text e)
  | inr (i, e) ↦ ground (arith, e)
]

joined-append :
    (names : List (List ℕ)) (text : List ℕ)
    → joined (names ++ (text ∷ [])) ≡ joined names ++ (text ++ (0 ∷ []))
joined-append [] text = refl
joined-append (name ∷ names) text =
    ap (λ l. name ++ (0 ∷ l)) (joined-append names text)
    ∙ sym (append_assoc name (0 ∷ joined names) (text ++ (0 ∷ [])))

take-all {ℓ} : {A : Type ℓ} (xs ys : List A) → take (length xs) (xs ++ ys) ≡ xs
take-all [] ys = refl
take-all (x ∷ xs) ys = ap (λ l. x ∷ l) (take-all xs ys)

StandsAt-later :
    (name rest text : List ℕ) (k : ℕ)
    → StandsAt rest text k
    → StandsAt (name ++ (0 ∷ rest)) text (length name + 1 + k)
StandsAt-later name rest text k s = record {
  before = name ++ (0 ∷ s.before);
  after = s.after;
  around =
      ap (λ l. name ++ (0 ∷ l)) s.around
      ∙ sym (append_assoc name (0 ∷ s.before) (text ++ (0 ∷ s.after)));
  before_length = length-append name (0 ∷ s.before) ∙ omega (arith, s.before_length);
}

start_of_later :
    (i : ℕ) (name : List ℕ) (names : List (List ℕ))
    → length name + 1 + start_of i names ≡ start_of (suc i) (name ∷ names)
start_of_later i name names = omega (arith, length-append name (0 ∷ joined (take i names)))

-- A name that is found stands where its index says.
found-StandsAt :
    (names : List (List ℕ)) (text : List ℕ) (i : ℕ)
    → find_name names text ≡ some i
    → StandsAt (joined names) text (start_of i names)
unfolding find_name
found-StandsAt [] text i = λ h. cc
found-StandsAt (name ∷ names) text i = elim (Bool-cases (same_bytes name text)) [
  | inl same ↦ rw same λ h.
      subst (λ n. StandsAt (joined (name ∷ names)) text (start_of n (name ∷ names)))
        (some-injective 0 i h)
        (record {
          before = [];
          after = joined names;
          around = ap (λ l. l ++ (0 ∷ joined names)) (same_bytes-eq name text same);
          before_length = refl;
        })
  | inr other ↦ rw other λ h.
      let (j, e, same) = >>=-eq-some (find_name names text) (λ i. some (suc i)) h in
      subst (λ n. StandsAt (joined (name ∷ names)) text (start_of n (name ∷ names)))
        (some-injective (suc j) i same)
        (subst (StandsAt (joined (name ∷ names)) text) (start_of_later j name names) (
          StandsAt-later name (joined names) text (start_of j names)
            (found-StandsAt names text j e)))
]

-- What an addition gives. `known` says that the same text gets the same offset again.
pub record Adds (t : StringTable) (text : List ℕ) (offset : ℕ) (t' : StringTable) : Type 0 where
  pub valid : IsStringTable t'
  pub stands : StandsAt t'.bytes text offset
  pub added : List ℕ
  pub kept : t'.bytes ≡ t.bytes ++ added
  pub known : string_add t' text ≡ some (offset, t')

abbrev pub AddsSome : StringTable → List ℕ → Option (ℕ × StringTable) → Type 0
AddsSome t text none = ⊥
AddsSome t text (some (offset, t')) = Adds t text offset t'

StandsAt-inside : (bytes text : List ℕ) (k : ℕ) → StandsAt bytes text k → k < length bytes
StandsAt-inside bytes text k s = omega (
  arith,
  ap length s.around,
  length-append s.before (text ++ (0 ∷ s.after)),
  length-append text (0 ∷ s.after),
  s.before_length,
)

offset_fits :
    (t : StringTable) (i : ℕ)
    → start_of i t.names < 2 ^ 32
    → start_of i t.names ≡ name_offset i t.names 0
offset_fits t i h = sym (name_offset-start_of i t.names 0 0 (omega arith) ∙ omega arith)

known-Adds :
    (t : StringTable) (text : List ℕ) (i : ℕ)
    → IsStringTable t
    → length t.bytes < 2 ^ 32
    → find_name t.names text ≡ some i
    → Adds t text (name_offset i t.names 0) t
unfolding string_add known_or_added
known-Adds t text i v small e =
    let s = found-StandsAt t.names text i e in
    let inside = StandsAt-inside (joined t.names) text (start_of i t.names) s in
    let size = ap length v.content in
    record {
      valid = v;
      stands =
          subst (λ k. StandsAt t.bytes text k) (offset_fits t i (omega arith))
            (subst (λ b. StandsAt b text (start_of i t.names)) (sym v.content) s);
      added = [];
      kept = sym (append-nil t.bytes);
      known = rw e refl;
    }

-- The offset of a name that is added last.
last_offset :
    (t : StringTable) (text : List ℕ)
    → IsStringTable t
    → length t.bytes < 2 ^ 32
    → name_offset (length t.names) (t.names ++ (text ∷ [])) 0 ≡ u32 (length t.bytes)
last_offset t text v small =
    name_offset-start_of (length t.names) (t.names ++ (text ∷ [])) 0 0 (omega arith)
    ∙ ap u32 (
        omega
          (arith, ap (λ l. length (joined l)) (take-all t.names (text ∷ [])), ap length v.content))

new-Adds :
    (t : StringTable) (text : List ℕ)
    → IsStringTable t
    → length t.bytes + length text < 2 ^ 32
    → find_name t.names text ≡ none
    → AddsSome t text (add_name t text)
unfolding add_name string_add known_or_added
new-Adds t text v small e =
    let fits : ltb (size_max - (length text + 1)) (length t.bytes) ≡ false = ground arith in
    rw fits (record {
      valid = record {
        content = ap (λ b. b ++ (text ++ (0 ∷ []))) v.content ∙ sym (joined-append t.names text);
        capacity = omega (
          arith,
          length-append t.bytes (text ++ (0 ∷ [])),
          length-append text (0 ∷ []),
          grown_capacity-ge t.capacity (length t.bytes + (length text + 1)) (omega arith),
        );
        name_capacity = ground (arith, length-append t.names (text ∷ []), v.name_capacity);
      };
      stands = record { before = t.bytes; after = []; around = refl; before_length = omega arith };
      added = text ++ (0 ∷ []);
      kept = refl;
      known =
          rw (find_name-end t.names text e)
            (ap (λ k. some (k, with_name t text)) (last_offset t text v (omega arith)));
    })

-- On a valid table that stays below 2 ^ 32 bytes `string_add` gives an offset at which the text and its
-- terminator stand, the bytes that were there stay in place, the table is valid again, and adding the
-- same text once more gives the same offset and adds nothing.
pub string_add-Adds :
    (t : StringTable) (text : List ℕ)
    → IsStringTable t
    → length t.bytes + length text < 2 ^ 32
    → AddsSome t text (string_add t text)
unfolding string_add known_or_added
string_add-Adds t text v small = elim (Option-cases (find_name t.names text)) [
  | inl e ↦ rw e (new-Adds t text v small e)
  | inr (i, e) ↦ rw e (known-Adds t text i v (omega arith) e)
]
