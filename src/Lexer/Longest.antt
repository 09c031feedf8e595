-- ===== src/Lexer/Longest.antt =====
-- What lexer_next of src/frontend/lexer.c finds in its list of punctuators, and takes.
use mathlib.Core.List.{append-nil, Mem, mem-cons, not-mem-nil, mem-cons_self, mem-cons_of_mem}
use mathlib.Core.Logic.Or
use native.Mathlib.Bridge.{le_prop}
use cc.Base.{ℕ, ◌+◌, ◌≤◌, ◌<◌, ◌≡◌, refl, ◌∙◌, arith, ◌↔◌, Bool, true, false, not}
use cc.Base.{◌&&◌, Option, none, some, List, [], ◌∷◌, ◌++◌, length, All, ltb, ◌==◌}
use cc.Base.{if◌then◌else◌, Bool-cases, inl, inr, Ends, Ends-bind}
use cc.Diagnostics.{Source}
use cc.Lexer.{Lexer, byte_at, size_of}
use cc.Lexer.Splices.{skip_splices, advance_byte, moved_line}
use cc.Lexer.Scan.{append_text}
use cc.Lexer.Punctuators.{punctuators, match_at, find_punctuator, take_punctuator}
use cc.Lexer.Reads.{Reads, here, byte, Moves, Moves-trans, Moves-refl, Plain}
use cc.Lexer.Reads.{skip_splices-Skips, Reads-trans}
use cc.Lexer.Skipped.{advance-Skips}
use cc.Lexer.Munch.{StandsAt, FirstByte, Reads-FirstByte, plain_unique, match_at_iff, is_prefix}
use cc.Lexer.Munch.{standing_prefix}

-- No later text of the list goes on where an earlier one ends.
unfoldable none_longer : List ℕ → List (List ℕ) → Bool
none_longer t [] = true
none_longer t (u ∷ us) = not (is_prefix t u && ltb (length t) (length u)) && none_longer t us

unfoldable longest_first : List (List ℕ) → Bool
longest_first [] = true
longest_first (t ∷ ts) = none_longer t ts && longest_first ts

punctuators-longest_first : longest_first punctuators ≡ true
unfolding punctuators longest_first none_longer is_prefix
punctuators-longest_first = refl

-- The text is of the list and stands at the position, and every text of the list that does is no longer.
abbrev pub IsLongest : Source → ℕ → List (List ℕ) → List ℕ → Type 0
IsLongest source p ts t =
    Mem t ts × StandsAt source p t × All (λ u. StandsAt source p u → length u ≤ length t) ts

abbrev pub Finds : Source → ℕ → List (List ℕ) → Option (List ℕ) → Type 0
Finds source p ts none = All (λ u. StandsAt source p u → ⊥) ts
Finds source p ts (some t) = IsLongest source p ts t

longest_first-tail :
    (t : List ℕ) (ts : List (List ℕ)) → longest_first (t ∷ ts) ≡ true → longest_first ts ≡ true
unfolding longest_first
longest_first-tail t ts h = ground arith

module _ (source : Source) where
  none_longer-le :
      (p : ℕ) (t : List ℕ) (us : List (List ℕ))
      → none_longer t us ≡ true
      → StandsAt source p t
      → All (λ u. StandsAt source p u → length u ≤ length t) us
  unfolding none_longer
  none_longer-le p t [] h k = tt
  none_longer-le p t (u ∷ us) h (r, k) = (
    (λ (s, j). elim (Bool-cases (ltb (length t) (length u))) [
      | inl e ↦ absurd (ground (arith, standing_prefix source t u k j (ground arith)))
      | inr e ↦ ground arith
    ]),
    none_longer-le p t us (ground arith) (r, k),
  )

  found-Finds :
      (p : ℕ) (t : List ℕ) (ts : List (List ℕ)) (b : Bool) (o : Option (Option (List ℕ)))
      → longest_first (t ∷ ts) ≡ true
      → ((b ≡ true) ↔ StandsAt source p t)
      → Ends (Finds source p ts) o
      → Ends (Finds source p (t ∷ ts)) (if b then some (some t) else o)
  unfolding longest_first
  found-Finds p t ts true o h e f = (
    mem-cons_self,
    e.0 refl,
    ((λ k. omega arith), none_longer-le p t ts (ground arith) (e.0 refl)),
  )
  found-Finds p t ts false none h e f = absurd f
  found-Finds p t ts false (some none) h e f = ((λ k. let j = e.1 k in cc), f)
  found-Finds p t ts false (some (some u)) h e f =
      (mem-cons_of_mem t f.0, f.1, ((λ k. let j : false ≡ true = e.1 k in absurd cc), f.2))

  longest_first-Finds :
      (p : ℕ) (ts : List (List ℕ))
      → longest_first ts ≡ true
      → Ends (Finds source p ts) (find_punctuator source p ts)
  unfolding find_punctuator
  longest_first-Finds p [] h = tt
  longest_first-Finds p (t ∷ ts) h =
      Ends-bind (λ b. (b ≡ true) ↔ StandsAt source p t) (Finds source p (t ∷ ts))
        (match_at source t p) _ (match_at_iff source t p)
        λ b e. found-Finds p t ts b _ h e (longest_first-Finds p ts (longest_first-tail t ts h))

  -- The longest punctuator at a position is found, or there is none.
  pub find_punctuator-Finds :
      (p : ℕ) → Ends (Finds source p punctuators) (find_punctuator source p punctuators)
  find_punctuator-Finds p = longest_first-Finds p punctuators punctuators-longest_first

  advance_step :
      (l : Lexer) (c : ℕ)
      → ((advance_byte l c).position ≡ l.position + 1) × ((advance_byte l c).scratch ≡ l.scratch)
  unfolding advance_byte moved_line
  advance_step l c = elim (Bool-cases (c == b'\n')) [
    | inl e ↦ rw e (refl, refl)
    | inr e ↦ rw e (refl, refl)
  ]

  -- Behind the splices a byte of a punctuator is appended and stepped over.
  stepped-Moves :
      (l m : Lexer) (c : ℕ) (t : List ℕ) (r : ℕ)
      → FirstByte source l.position c t r
      → Moves source (append_text l c) m []
      → Plain source m
      → Moves source l (advance_byte m (byte_at source m.position)) (c ∷ [])
        × (m.position < size_of source)
        × Reads source (advance_byte m (byte_at source m.position)).position r t
  unfolding append_text
  stepped-Moves l m c t r f k plain =
      let e : f.at ≡ m.position = plain_unique source f.skipped k.reads f.plain plain in
      let less : m.position < size_of source = rw e at f.less in
      let is_c : byte_at source m.position ≡ c = rw e at f.is_byte in
      let step = advance_step m (byte_at source m.position) in
      let skip = advance-Skips source m (byte_at source m.position) less in
      (
        record {
          reads = rw step.0 (Reads-trans source k.reads (rw (← is_c) (byte less plain here)));
          appends = step.1 ∙ k.appends ∙ append-nil (l.scratch ++ (c ∷ []));
          same_arena = skip.same_arena ∙ k.same_arena;
          same_keep = skip.same_keep ∙ k.same_keep;
          stays = λ h. skip.stays (k.stays h);
        },
        less,
        rw step.0 (rw e at f.rest),
      )

  take-tail :
      (l n x : Lexer) (c : ℕ) (cs : List ℕ) (b : Bool) (o : Option Lexer)
      → b ≡ false
      → Moves source l n (c ∷ [])
      → Ends (λ m. Moves source n m cs) o
      → Ends (λ m. Moves source l m (c ∷ cs)) (if b then some x else o)
  take-tail l n x c cs true o e h k = absurd cc
  take-tail l n x c cs false none e h k = absurd k
  take-tail l n x c cs false (some m) e h k = Moves-trans source h k

  -- A text that stands where the lexer does is taken.
  pub take_punctuator-Moves :
      (t : List ℕ) (l : Lexer)
      → StandsAt source l.position t
      → Ends (λ m. Moves source l m t) (take_punctuator source t l)
  unfolding take_punctuator
  take_punctuator-Moves [] l h = Moves-refl source l
  take_punctuator-Moves (c ∷ cs) l (r, h) =
      Ends-bind _ (λ m. Moves source l m (c ∷ cs)) (skip_splices source (append_text l c)) _
        (skip_splices-Skips source (append_text l c))
        λ m (k, plain).
          let step = stepped-Moves l m c cs r (Reads-FirstByte source h) k plain in
          take-tail l (advance_byte m (byte_at source m.position)) m c cs _ _ (ground arith) step.0
            (take_punctuator-Moves cs (advance_byte m (byte_at source m.position)) (r, step.2))

not_empty-le :
    (ts : List (List ℕ)) {t : List ℕ} → All (λ u. 0 < length u) ts → Mem t ts → 0 < length t
not_empty-le [] h m = absurd (not-mem-nil m)
not_empty-le (u ∷ ts) h m = Or.elim le_prop (mem-cons.0 m) (λ e. rw e h.0) (not_empty-le ts h.1)

-- No punctuator is empty.
pub punctuator_not_empty : {t : List ℕ} → Mem t punctuators → 0 < length t
unfolding punctuators
punctuator_not_empty m = not_empty-le punctuators (ground arith) m
