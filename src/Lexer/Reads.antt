-- ===== src/Lexer/Reads.antt =====
-- What a stretch of a source reads as, and the parts of src/frontend/lexer.c that step over splices.
use mathlib.Core.List.{append-nil, append_assoc}
use cc.Base.{ℕ, zero, suc, ◌+◌, ◌-◌, ◌≤◌, ◌<◌, ◌≡◌, refl, ap, sym, ◌∙◌, arith}
use cc.Base.{Option, none, some, List, [], ◌∷◌, ◌++◌, length, get_or, ltb}
use cc.Base.{Ends, Turns, loop-Ends, Bool-cases, inl, inr, ltb→lt}
use cc.Diagnostics.{Source}
use cc.Lexer.{Lexer, byte_at, size_of, loop_fuel}
use cc.Lexer.Splices.{splice_next, splice_at, splice_turn, skip_turn, skip_splices}
use cc.Lexer.Splices.{moved_line}

-- The bytes from one position to another, without the spliced line ends between them.
pub data Reads (source : Source) : ℕ → ℕ → List ℕ → Type 0 where
  here : {p : ℕ} → Reads source p p []
  splice :
      {p q r : ℕ} {t : List ℕ}
      → splice_next source p ≡ some q
      → Reads source q r t
      → Reads source p r t
  byte :
      {p r : ℕ} {t : List ℕ}
      → p < size_of source
      → splice_next source p ≡ none
      → Reads source (p + 1) r t
      → Reads source p r (byte_at source p ∷ t)

-- Where the lexer stands: inside the source, with a line and a column that its position bounds.
abbrev pub Fits : Source → Lexer → Type 0
Fits source l =
    (l.position ≤ size_of source) × (l.line ≤ l.position + 1) × (l.column ≤ l.position + 1)

-- The lexer went from `l` to `m` and appended what it read.
pub record Moves (source : Source) (l m : Lexer) (t : List ℕ) : Type 0 where
  pub reads : Reads source l.position m.position t
  pub appends : m.scratch ≡ l.scratch ++ t
  pub same_arena : m.arena ≡ l.arena
  pub same_keep : m.keep_newlines ≡ l.keep_newlines
  pub stays : Fits source l → Fits source m

module _ (source : Source) where
  pub splice_next-bounds :
      (p : ℕ) {q : ℕ} → splice_next source p ≡ some q → (p + 1 < q) × (q ≤ size_of source)
  unfolding splice_next
  splice_next-bounds p {q} e = ground arith

  get_or-past : (xs : List ℕ) (i : ℕ) → length xs ≤ i → get_or xs i 0 ≡ 0
  get_or-past [] i h = refl
  get_or-past (x ∷ xs) zero h = absurd (omega arith)
  get_or-past (x ∷ xs) (suc i) h = get_or-past xs i (omega arith)

  pub splice_next-past : (p : ℕ) → size_of source ≤ p → splice_next source p ≡ none
  unfolding splice_next
  splice_next-past p h = ground (arith, get_or-past source.bytes p h)

  pub Reads-trans :
      {p q r : ℕ} {s t : List ℕ}
      → Reads source p q s
      → Reads source q r t
      → Reads source p r (s ++ t)
  Reads-trans here k = k
  Reads-trans (splice e h) k = splice e (Reads-trans h k)
  Reads-trans (byte less e h) k = byte less e (Reads-trans h k)

  -- Every byte read is one step at least.
  pub Reads-length : {p q : ℕ} {t : List ℕ} → Reads source p q t → p + length t ≤ q
  Reads-length here = omega arith
  Reads-length (splice {p} e h) = omega (arith, splice_next-bounds p e, Reads-length h)
  Reads-length (byte less e h) = omega (arith, Reads-length h)

  pub Moves-trans :
      {l m n : Lexer} {s t : List ℕ}
      → Moves source l m s
      → Moves source m n t
      → Moves source l n (s ++ t)
  Moves-trans {l} {m} {n} {s} {t} a b = record {
    reads = Reads-trans a.reads b.reads;
    appends = b.appends ∙ ap (λ x. x ++ t) a.appends ∙ append_assoc l.scratch s t;
    same_arena = b.same_arena ∙ a.same_arena;
    same_keep = b.same_keep ∙ a.same_keep;
    stays = λ h. b.stays (a.stays h);
  }

  pub Moves-refl : (l : Lexer) → Moves source l l []
  Moves-refl l = record {
    reads = here;
    appends = sym (append-nil l.scratch);
    same_arena = refl;
    same_keep = refl;
    stays = λ h. h;
  }

  -- The lexer stands at no splice.
  abbrev pub Plain : Lexer → Type 0
  Plain l = splice_next source l.position ≡ none

  splice_at-Moves :
      (l : Lexer) (q : ℕ)
      → splice_next source l.position ≡ some q
      → Moves source l (moved_line l q) []
  unfolding moved_line
  splice_at-Moves l q e = record {
    reads = splice e here;
    appends = sym (append-nil l.scratch);
    same_arena = refl;
    same_keep = refl;
    stays = λ h. omega (arith, splice_next-bounds l.position e);
  }

  abbrev SkipsTo : Lexer → Lexer → Type 0
  SkipsTo l m = Moves source l m [] × Plain m

  splice_turn-Turns :
      (l m : Lexer)
      → Moves source l m []
      → (o : Option ℕ) → splice_next source m.position ≡ o
      → m.position < size_of source
      → Turns
          (λ n. Moves source l n [])
          (SkipsTo l)
          (λ n. size_of source - n.position)
          m
          (splice_turn m (splice_at source m))
  unfolding splice_turn splice_at moved_line
  splice_turn-Turns l m h none e less = rw e (h, e)
  splice_turn-Turns l m h (some q) e less =
      rw e (Moves-trans h (splice_at-Moves m q e), omega (arith, splice_next-bounds m.position e))

  skip_turn-Turns :
      (l m : Lexer)
      → Moves source l m []
      → Ends
          (Turns (λ n. Moves source l n []) (SkipsTo l) (λ n. size_of source - n.position) m)
          (skip_turn source m)
  unfolding skip_turn
  skip_turn-Turns l m h = elim (Bool-cases (ltb m.position (size_of source))) [
    | inl e ↦ rw e (splice_turn-Turns l m h _ refl (ltb→lt _ _ e))
    | inr e ↦ rw e (h, splice_next-past m.position (ground arith))
  ]

  -- Spliced lines are skipped, and only those.
  pub skip_splices-Skips : (l : Lexer) → Ends (SkipsTo l) (skip_splices source l)
  unfolding skip_splices
  skip_splices-Skips l =
      loop-Ends (λ m. Moves source l m []) (SkipsTo l) (λ m. size_of source - m.position)
        (skip_turn source) (skip_turn-Turns l) (loop_fuel source) l (omega arith) (Moves-refl l)
