-- ===== src/Lexer/Munch.antt =====
-- The punctuator that lexer_next of src/frontend/lexer.c finds is the longest that stands in the source.
use cc.Base.{ℕ, ◌+◌, ◌-◌, ◌≤◌, ◌<◌, ◌≡◌, refl, arith, ◌↔◌, Bool, true, false, not, ◌&&◌, ◌||◌}
use cc.Base.{Option, none, some, List, [], ◌∷◌, length, leb, ◌==◌, if◌then◌else◌}
use cc.Base.{Bool-cases, inl, inr, Ends, Turns, Ends-bind, loop-Ends}
use cc.Diagnostics.{Source}
use cc.Lexer.{byte_at, size_of, loop_fuel}
use cc.Lexer.Splices.{splice_next, logical_position, logical_turn, logical_next}
use cc.Lexer.Punctuators.{match_at}
use cc.Lexer.Reads.{Reads, here, splice, byte, Reads-trans, splice_next-bounds}
use cc.Lexer.Reads.{splice_next-past}

-- The text stands at `p`.
abbrev pub StandsAt : Source → ℕ → List ℕ → Type 0
StandsAt source p t = (r : ℕ) × Reads source p r t

unfoldable pub is_prefix : List ℕ → List ℕ → Bool
is_prefix [] u = true
is_prefix (a ∷ t) [] = false
is_prefix (a ∷ t) (b ∷ u) = (a == b) && is_prefix t u

-- Its first byte is behind the splices at `p`.
pub record FirstByte (source : Source) (p c : ℕ) (t : List ℕ) (r : ℕ) : Type 0 where
  pub at : ℕ
  pub skipped : Reads source p at []
  pub plain : splice_next source at ≡ none
  pub less : at < size_of source
  pub is_byte : byte_at source at ≡ c
  pub rest : Reads source (at + 1) r t

module _ (source : Source) where
  pub Reads-FirstByte :
      {p r c : ℕ} {t : List ℕ} → Reads source p r (c ∷ t) → FirstByte source p c t r
  Reads-FirstByte (splice e h) =
      let f = Reads-FirstByte h in
      record {
        at = f.at;
        skipped = splice e f.skipped;
        plain = f.plain;
        less = f.less;
        is_byte = f.is_byte;
        rest = f.rest;
      }
  Reads-FirstByte {p} (byte less plain h) = record {
    at = p;
    skipped = here;
    plain = plain;
    less = less;
    is_byte = refl;
    rest = h;
  }

  -- Where the splices at a position end is determined.
  pub plain_unique :
      {p q r : ℕ}
      → Reads source p q []
      → Reads source p r []
      → splice_next source q ≡ none
      → splice_next source r ≡ none
      → q ≡ r
  plain_unique here here e f = refl
  plain_unique here (splice g k) e f = cc
  plain_unique (splice g h) here e f = cc
  plain_unique {p} {q} {r} (splice {q = a} g h) (splice {q = b} g' k) e f =
      let same : a ≡ b = cc in plain_unique h (rw (same) k) e f

  SkipsSplices : ℕ → ℕ → Type 0
  SkipsSplices p q = Reads source p q [] × (splice_next source q ≡ none)

  logical_next-Turns :
      (p m : ℕ) (o : Option ℕ)
      → Reads source p m []
      → splice_next source m ≡ o
      → Turns
          (λ q. Reads source p q [])
          (SkipsSplices p)
          (λ q. size_of source - q)
          m
          (logical_next m o)
  unfolding logical_next SkipsSplices
  logical_next-Turns p m none h e = (h, e)
  logical_next-Turns p m (some q) h e =
      (Reads-trans source h (splice e here), omega (arith, splice_next-bounds source m e))

  logical_turn-Turns :
      (p m : ℕ)
      → Reads source p m []
      → Ends
          (Turns (λ q. Reads source p q []) (SkipsSplices p) (λ q. size_of source - q) m)
          (logical_turn source m)
  unfolding logical_turn SkipsSplices
  logical_turn-Turns p m h = elim (Bool-cases (leb (size_of source) m)) [
    | inl e ↦ rw e (h, splice_next-past source m (ground arith))
    | inr e ↦ rw e (logical_next-Turns p m _ h refl)
  ]

  pub logical_position-Skips :
      (p : ℕ)
      → Ends (λ q. Reads source p q [] × (splice_next source q ≡ none)) (logical_position source p)
  unfolding logical_position SkipsSplices
  logical_position-Skips p =
      loop-Ends (λ q. Reads source p q []) (SkipsSplices p) (λ q. size_of source - q)
        (logical_turn source) (logical_turn-Turns p) (loop_fuel source) p (omega arith) here

  -- The comparison of the rest decides, behind a first byte that is right.
  match-tail :
      (p q c : ℕ) (cs : List ℕ) (m : Option Bool)
      → Reads source p q []
      → splice_next source q ≡ none
      → Ends (λ b. (b ≡ true) ↔ StandsAt source (q + 1) cs) m
      → Ends
          (λ b. (b ≡ true) ↔ StandsAt source p (c ∷ cs))
          (if leb (size_of source) q || not (byte_at source q == c) then some false else m)
  match-tail p q c cs none h plain e = absurd e
  match-tail p q c cs (some b) h plain e =
      elim (Bool-cases (leb (size_of source) q || not (byte_at source q == c))) [
        | inl f ↦ rw f ((λ k. cc), λ (r, k). absurd (wrong f (Reads-FirstByte k)))
        | inr f ↦ rw f (
          (λ k.
              let (r, t) = e.0 k in
              (r, Reads-trans source h (first (ground arith) (ground arith) t))),
          λ (r, k). e.1 (r, same (Reads-FirstByte k)),
        )
      ]
    where
      wrong :
          {r : ℕ}
          → (leb (size_of source) q || not (byte_at source q == c)) ≡ true
          → FirstByte source p c cs r
          → ⊥
      wrong f k = let e : k.at ≡ q = plain_unique k.skipped h k.plain plain in ground arith

      first :
          {r : ℕ}
          → q < size_of source
          → byte_at source q ≡ c
          → Reads source (q + 1) r cs
          → Reads source q r (c ∷ cs)
      first less e t = rw (← e) (byte less plain t)

      same : {r : ℕ} → FirstByte source p c cs r → Reads source (q + 1) r cs
      same k = let e : k.at ≡ q = plain_unique k.skipped h k.plain plain in rw e at k.rest

  pub match_at_iff :
      (t : List ℕ) (p : ℕ) → Ends (λ b. (b ≡ true) ↔ StandsAt source p t) (match_at source t p)
  unfolding match_at
  match_at_iff [] p = ((λ k. (p, here)), λ k. refl)
  match_at_iff (c ∷ cs) p =
      Ends-bind (λ q. Reads source p q [] × (splice_next source q ≡ none)) _
        (logical_position source p) _ (logical_position-Skips p)
        λ q (h, plain).
          match-tail p q c cs (match_at source cs (q + 1)) h plain (match_at_iff cs (q + 1))

  -- One text of two at a place begins the other.
  pub standing_prefix :
      (t u : List ℕ) {p r s : ℕ}
      → Reads source p r t
      → Reads source p s u
      → length t ≤ length u
      → is_prefix t u ≡ true
  unfolding is_prefix
  standing_prefix [] u h k le = refl
  standing_prefix (a ∷ t) [] h k le = absurd (omega arith)
  standing_prefix (a ∷ t) (b ∷ u) h k le =
      let f = Reads-FirstByte h in
      let g = Reads-FirstByte k in
      let e : f.at ≡ g.at = plain_unique f.skipped g.skipped f.plain g.plain in
      let tail : is_prefix t u ≡ true =
        standing_prefix t u f.rest (rw (← e) at g.rest) (omega arith) in
      let bytes : a ≡ b = cc in ground (arith, tail, bytes)
