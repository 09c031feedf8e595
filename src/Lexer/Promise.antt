-- ===== src/Lexer/Promise.antt =====
-- lexer_next of src/frontend/lexer.c: every call gives a token of the source, and moves on.
use cc.Base.{ℕ, zero, suc, ◌+◌, ◌-◌, ◌≤◌, ◌<◌, ◌≡◌, refl, ◌∙◌, arith, Bool, true, false}
use cc.Base.{◌&&◌, ◌||◌, List, [], ◌∷◌, length, Option, none, some, ltb, leb, ◌==◌, u32_max}
use cc.Base.{Bool-cases, inl, inr, ◌⊎◌, Ends, Ends-bind, Ends-map, Ends-if, codes}
use cc.Diagnostics.{Source}
use cc.Lexer.{Lexer, Token, TokenKind, token_eof, token_newline, token_identifier, token_number}
use cc.Lexer.{token_character, token_string, token_punctuator, byte_at, size_of}
use cc.Lexer.{lexer_emit, is_ident_start, is_ident_continue}
use cc.Lexer.Splices.{skip_splices, skip_line_end, behind_return, advance_byte, moved_line}
use cc.Lexer.Space.{Space, skip_space, is_line_end}
use cc.Lexer.Scan.{Opening, scratch_begin, append_text, finish_token, lex_quoted}
use cc.Lexer.Scan.{number_goes_on, quoted_closed}
use cc.Lexer.Punctuators.{punctuators, find_punctuator}
use cc.Lexer.Next.{Scanned, scanned, next_eof, next_line, next_identifier, next_number, next_quoted}
use cc.Lexer.Next.{next_invalid, next_found, next_punctuator, next_byte, next_from, begins_number}
use cc.Lexer.Next.{opening, lexer_next}
use cc.Lexer.Tokens.{is_eof}
use cc.Lexer.Reads.{Reads, Fits, Moves, Plain, Reads-length, skip_splices-Skips}
use cc.Lexer.Taken.{Travels, Passes, Stopped, in_identifier, in_number, identifier-Stopped}
use cc.Lexer.Taken.{
  number-Stopped, append_spliced-Passes, appended-Moves, taken_position, Travels-trans,
}
use cc.Lexer.Taken.{Travels-le}
use cc.Lexer.Quoted.{quoted-Travels}
use cc.Lexer.Skipped.{Skips, Skips-trans, Moves-Skips, emit-Skips, advance-Skips}
use cc.Lexer.Comments.{Clears, AtToken}
use cc.Lexer.Blank.{skip_space-Skips}
use cc.Lexer.Gaps.{Gap, LineEnd, feed, return_feed, lone_return, no_gap, over_line_end}
use cc.Lexer.Gaps.{Gap-trans, Reads-Gap}
use cc.Base.{subst, sym}
use cc.Lexer.Longest.{Finds, punctuator_not_empty, find_punctuator-Finds, take_punctuator-Moves}
use cc.Lexer.Emitted.{SpelledAs, AsLong, Room, Scans, emitted-Scans}

starts_number :
    (source : Source) (p c : ℕ) (scratch : List ℕ)
    → begins_number source p c ≡ true
    → number_goes_on scratch c ≡ true
unfolding number_goes_on
starts_number source p c scratch e = ground arith

module _ (source : Source) where
  Scans-from :
      {l m : Lexer} {r : Scanned}
      → Clears source l.keep_newlines l m
      → Scans source m r
      → Scans source l r
  Scans-from {l} {m} {r} (a, gap) h = record {
    from = h.from;
    ahead = omega (arith, a.ahead, h.ahead);
    gap =
        Gap-trans source gap (subst (λ k. Gap source k m.position r.token.start) a.same_keep h.gap);
    ordered = h.ordered;
    at_end = h.at_end;
    fits = h.fits;
    spelled = h.spelled;
    longest = h.longest;
    at_eof = h.at_eof;
    forward = h.forward;
    room = h.room;
    same_keep = h.same_keep ∙ a.same_keep;
  }

  begin-Skips : (m : Lexer) → Skips source m (scratch_begin m)
  unfolding scratch_begin
  begin-Skips m = record {
    ahead = omega arith;
    same_arena = refl;
    same_keep = refl;
    stays = λ h. h;
  }

  -- What the loops read behind scratch_begin is what the scratch buffer has.
  begun :
      (m n : Lexer)
      → Travels source (scratch_begin m) n
      → Skips source m n
        × Reads source m.position n.position n.scratch
        × (m.position + length n.scratch ≤ n.position)
  unfolding scratch_begin
  begun m n (t, h) = (
    Skips-trans source (begin-Skips m) (Moves-Skips source h),
    rw h.appends h.reads,
    rw h.appends (Reads-length source h.reads),
  )

  -- What is skipped needs nothing of the arena.
  Room-Skips : {l m : Lexer} → Skips source l m → Room source l → Room source m
  Room-Skips a h = record {
    valid = rw a.same_arena h.valid;
    enough = rw a.same_arena (omega (arith, a.ahead, h.enough));
  }

  behind_return-Skips :
      (m : Lexer)
      → m.position < size_of source
      → byte_at source m.position ≡ b'\r'
      → Skips source m (behind_return source m)
        × (m.position < (behind_return source m).position)
        × LineEnd source m.position (behind_return source m).position
  unfolding behind_return moved_line
  behind_return-Skips m less returns =
      elim (Bool-cases
        (ltb (m.position + 1) (size_of source) && (byte_at source (m.position + 1) == b'\n'))) [
          | inl e ↦ rw e (
            record {
              ahead = omega arith;
              same_arena = refl;
              same_keep = refl;
              stays = λ h. ground arith;
            },
            omega arith,
            return_feed (ground (arith, e)) returns (ground (arith, e)),
          )
          | inr e ↦ rw e (
            record {
              ahead = omega arith;
              same_arena = refl;
              same_keep = refl;
              stays = λ h. omega arith;
            },
            omega arith,
            lone_return less returns (λ k f. ground (arith, e, k, f)),
          )
        ]

  advance_on : (l : Lexer) (c : ℕ) → (advance_byte l c).position ≡ l.position + 1
  unfolding advance_byte moved_line
  advance_on l c = ground arith

  -- A line end is stepped over.
  skip_line_end-Skips :
      (m : Lexer)
      → m.position < size_of source
      → is_line_end (byte_at source m.position) ≡ true
      → Skips source m (skip_line_end source m)
        × (m.position < (skip_line_end source m).position)
        × LineEnd source m.position (skip_line_end source m).position
  unfolding skip_line_end
  skip_line_end-Skips m less e =
      let inside : leb (size_of source) m.position ≡ false = ground arith in
      elim (Bool-cases (byte_at source m.position == b'\r')) [
        | inl f ↦ rw (inside, f) (behind_return-Skips m less (ground arith))
        | inr f ↦
            let g : (byte_at source m.position == b'\n') ≡ true = ground arith in
            let on = advance_on m (byte_at source m.position) in
            rw (inside, f, g)
              (
                advance-Skips source m _ less,
                omega (arith, on),
                subst (LineEnd source m.position) (sym on) (feed less (ground arith)),
              )
      ]

  -- The lexer where a token begins.
  record Begins (l m : Lexer) (o : Opening) : Type 0 where
    at_start : o.start ≡ m.position
    at_line : o.line ≡ m.line
    at_column : o.column ≡ m.column
    skipped : Skips source l m
    gap : Gap source l.keep_newlines l.position m.position
    plain : Plain source m
    room : Room source l
    fits : Fits source l
    small : size_of source < u32_max

  -- Behind a loop that read something.
  text-Scans :
      (l m n : Lexer) (token : Token) (o : Opening) (kind : TokenKind) (good : Bool)
      → Begins l m o
      → Travels source (scratch_begin m) n
      → m.position < n.position
      → is_eof kind ≡ false
      → (Reads source m.position n.position n.scratch
          → SpelledAs kind source m.position n.position n.scratch)
      → (good ≡ true → kind ≡ token_punctuator → AsLong source m.position n.scratch)
      → Scans source l (scanned good (finish_token source n token o kind))
  text-Scans l m n token o kind good b h less e spell long =
      let text = begun m n h in
      emitted-Scans source b.small l m n token o kind good b.room b.fits b.at_start b.at_line
        b.at_column b.skipped b.gap text.0 (spell text.1) (rw e (less, text.2)) long

  next_eof-Scans :
      (l m : Lexer) (token : Token) (o : Opening)
      → Begins l m o
      → size_of source ≤ m.position
      → Scans source l (next_eof source token o m)
  unfolding next_eof scratch_begin
  next_eof-Scans l m token o b h =
      let at : Fits source m = b.skipped.stays b.fits in
      emitted-Scans source b.small l m (scratch_begin m) token o token_eof true b.room b.fits
        b.at_start b.at_line b.at_column b.skipped b.gap (begin-Skips m) Reads.here
        (omega arith, refl) (λ k k'. absurd cc)

  -- A loop that would go on where it began did not stop there.
  moved_on :
      (m n : Lexer)
      → (goes : ℕ → Bool) → goes m.position ≡ true
      → m.position ≤ n.position
      → m.position < size_of source
      → (size_of source ≤ n.position) ⊎ (goes n.position ≡ false)
      → m.position < n.position
  moved_on m n goes e le less (inl past) = omega arith
  moved_on m n goes e le less (inr f) = elim (Bool-cases (ltb m.position n.position)) [
    | inl g ↦ ground arith
    | inr g ↦ let same : m.position ≡ n.position = ground arith in absurd cc
  ]

  next_identifier-Scans :
      (l m : Lexer) (token : Token) (o : Opening)
      → Begins l m o
      → m.position < size_of source
      → is_ident_start (byte_at source m.position) ≡ true
      → Ends (Scans source l) (next_identifier source token o m)
  unfolding next_identifier
  next_identifier-Scans l m token o b less e =
      Ends-bind (Stopped source (in_identifier source) (scratch_begin m)) (Scans source l) _ _
        (identifier-Stopped source (scratch_begin m))
        λ n (h, stop).
          text-Scans l m n token o token_identifier true b h
            (moved_on m n (λ p. is_ident_continue (byte_at source p)) (ground arith)
              (begun m n h).0.ahead less stop)
            refl (λ k. k) (λ k k'. absurd cc)

  next_number-Scans :
      (l m : Lexer) (token : Token) (o : Opening)
      → Begins l m o
      → m.position < size_of source
      → begins_number source m.position (byte_at source m.position) ≡ true
      → Ends (Scans source l) (next_number source token o m)
  unfolding next_number
  next_number-Scans l m token o b less e =
      Ends-bind (Stopped source (in_number source) (scratch_begin m)) (Scans source l) _ _
        (number-Stopped source (scratch_begin m))
        λ n (h, stop).
          text-Scans l m n token o token_number true b h
            (moved_on m n (λ p. number_goes_on n.scratch (byte_at source p)) (goes n.scratch)
              (begun m n h).0.ahead less stop)
            refl (λ k. k) (λ k k'. absurd cc)
    where
      goes : (scratch : List ℕ) → number_goes_on scratch (byte_at source m.position) ≡ true
      goes scratch = starts_number source m.position (byte_at source m.position) scratch e

  next_line-Scans :
      (more : Lexer → Option Scanned) (l m : Lexer) (token : Token) (o : Opening)
      → Begins l m o
      → m.position < size_of source
      → is_line_end (byte_at source m.position) ≡ true
      → ((n : Lexer) → Skips source m n → m.position < n.position → Ends (Scans source n) (more n))
      → Ends (Scans source l) (next_line more source token o m)
  unfolding next_line append_text scratch_begin
  next_line-Scans more l m token o b less e again =
      let step = skip_line_end-Skips m less e in
      Ends-if (Scans source l) (skip_line_end source m).keep_newlines _ _
        (λ f.
          emitted-Scans source b.small l m
            (append_text (scratch_begin (skip_line_end source m)) b'\n') token
            (record o { at_bol = true }) token_newline true b.room b.fits b.at_start b.at_line
            b.at_column b.skipped b.gap
            (record {
              ahead = step.0.ahead;
              same_arena = step.0.same_arena;
              same_keep = step.0.same_keep;
              stays = step.0.stays;
            })
            (refl, step.2) (step.1, omega (arith, step.1)) (λ k k'. absurd cc))
        (λ f.
          Ends-map (Scans source (skip_line_end source m)) (Scans source l) _
            (again (skip_line_end source m) step.0 step.1)
            λ r h.
              Scans-from
                (
                  Skips-trans source b.skipped step.0,
                  Gap-trans source b.gap (
                      over_line_end (sym b.skipped.same_keep ∙ sym step.0.same_keep ∙ f) step.2
                        no_gap),
                )
                h)

  quoted_closed-Travels :
      (o : Opening) (kind : TokenKind) (l : Lexer) (r : Lexer × Bool)
      → Travels source l r.0
      → Travels source l (quoted_closed source o kind r)
        × ((quoted_closed source o kind r).position ≡ r.0.position)
  unfolding quoted_closed lexer_emit
  quoted_closed-Travels o kind l (n, true) h = (h, refl)
  quoted_closed-Travels o kind l (n, false) (t, h) = (
    (
      t,
      record {
        reads = h.reads;
        appends = h.appends;
        same_arena = h.same_arena;
        same_keep = h.same_keep;
        stays = h.stays;
      },
    ),
    refl,
  )

  lex_quoted-Scans :
      (l m : Lexer) (token : Token) (o : Opening) (kind : TokenKind) (quote : ℕ)
      → Begins l m o
      → m.position < size_of source
      → byte_at source m.position ≡ quote
      → is_eof kind ≡ false
      → ((n : Lexer)
          → Reads source m.position n.position n.scratch
          → SpelledAs kind source m.position n.position n.scratch)
      → (kind ≡ token_punctuator → ⊥)
      → Ends
          (λ (r : (Lexer × Token) × Bool). Scans source l (scanned r.1 r.0))
          (lex_quoted source m token o quote kind)
  unfolding lex_quoted scratch_begin
  lex_quoted-Scans l m token o kind quote b less e eof spell other =
      let first : Lexer = advance_byte (append_text (scratch_begin m) quote) quote in
      Ends-bind (λ (s : Lexer × Bool). Travels source first s.0) _ _ _
        (quoted-Travels source quote first)
        λ r h.
          let behind = quoted_closed-Travels o kind first r h in
          let start : Moves source (scratch_begin m) first (quote ∷ []) =
            appended-Moves source (scratch_begin m) quote less b.plain e in
          text-Scans l m (quoted_closed source o kind r) token o kind r.1 b
            (Travels-trans source (_, start) behind.0)
            (omega (
              arith,
              taken_position source (scratch_begin m) quote,
              Travels-le source first r.0 h,
              behind.1,
            ))
            eof (spell (quoted_closed source o kind r)) (λ k k'. absurd (other k'))

  next_quoted-Scans :
      (l m : Lexer) (token : Token) (o : Opening) (quote : ℕ)
      → Begins l m o
      → m.position < size_of source
      → byte_at source m.position ≡ quote
      → Ends (Scans source l) (next_quoted source token o m quote)
  unfolding next_quoted
  next_quoted-Scans l m token o quote b less e = elim (Bool-cases (quote == b'"')) [
    | inl f ↦ rw f (
        Ends-bind (λ (r : (Lexer × Token) × Bool). Scans source l (scanned r.1 r.0))
          (Scans source l) _ _
          (lex_quoted-Scans l m token o token_string quote b less e refl (λ n k. k) (λ k. cc))
          λ r h. h)
    | inr f ↦ rw f (
        Ends-bind (λ (r : (Lexer × Token) × Bool). Scans source l (scanned r.1 r.0))
          (Scans source l) _ _
          (lex_quoted-Scans l m token o token_character quote b less e refl (λ n k. k) (λ k. cc))
          λ r h. h)
  ]

  next_invalid-Scans :
      (l m : Lexer) (token : Token) (o : Opening)
      → Begins l m o
      → m.position < size_of source
      → Ends (Scans source l) (next_invalid source token o m)
  unfolding next_invalid lexer_emit scratch_begin
  next_invalid-Scans l m token o b less =
      let e = lexer_emit source m 1003 o.line o.column (codes "invalid input byte") in
      Ends-bind (Passes source (scratch_begin e)) (Scans source l) _ _
        (append_spliced-Passes source (scratch_begin e))
        λ n (h, on).
          text-Scans l e n token o token_punctuator false
            (record {
              at_start = b.at_start;
              at_line = b.at_line;
              at_column = b.at_column;
              skipped = Skips-trans source b.skipped (emit-Skips source m 1003 _ _ _);
              gap = b.gap;
              plain = b.plain;
              room = b.room;
              fits = b.fits;
              small = b.small;
            })
            h (on less) refl (λ k. k) (λ k k'. absurd cc)

  next_found-Scans :
      (l m : Lexer) (token : Token) (o : Opening) (found : Option (List ℕ))
      → Begins l m o
      → m.position < size_of source
      → Finds source m.position punctuators found
      → Ends (Scans source l) (next_found source token o m found)
  unfolding next_found scratch_begin
  next_found-Scans l m token o none b less h = next_invalid-Scans l m token o b less
  next_found-Scans l m token o (some t) b less (listed, stands, longest) =
      Ends-bind (λ n. Moves source (scratch_begin m) n t) (Scans source l) _ _
        (take_punctuator-Moves source t (scratch_begin m) stands)
        λ n h.
          text-Scans l m n token o token_punctuator true b (t, h)
            (omega (arith, Reads-length source h.reads, punctuator_not_empty listed)) refl (λ k. k)
            (λ k k'. rw h.appends (listed, longest))

  next_punctuator-Scans :
      (l m : Lexer) (token : Token) (o : Opening)
      → Begins l m o
      → m.position < size_of source
      → Ends (Scans source l) (next_punctuator source token o m)
  unfolding next_punctuator
  next_punctuator-Scans l m token o b less =
      Ends-bind (Finds source m.position punctuators) (Scans source l)
        (find_punctuator source m.position punctuators) (next_found source token o m)
        (find_punctuator-Finds source m.position)
        λ found h. next_found-Scans l m token o found b less h

  next_byte-Scans :
      (more : Lexer → Option Scanned) (l m : Lexer) (token : Token) (o : Opening) (c : ℕ)
      → Begins l m o
      → m.position < size_of source
      → byte_at source m.position ≡ c
      → ((n : Lexer) → Skips source m n → m.position < n.position → Ends (Scans source n) (more n))
      → Ends (Scans source l) (next_byte more source token o m c)
  unfolding next_byte
  next_byte-Scans more l m token o c b less e again =
      Ends-if (Scans source l) (is_line_end c) _ _
        (λ f. next_line-Scans more l m token o b less (rw e f) again)
        λ f.
          Ends-if (Scans source l) (is_ident_start c) _ _
            (λ g. next_identifier-Scans l m token o b less (rw e g))
            λ g.
              Ends-if (Scans source l) (begins_number source m.position c) _ _
                (λ h. next_number-Scans l m token o b less (rw e h))
                λ h.
                  Ends-if (Scans source l) (c == b'\'' || c == b'"') _ _
                    (λ k. next_quoted-Scans l m token o c b less e)
                    λ k. next_punctuator-Scans l m token o b less

  next_from-Scans :
      (more : Lexer → Option Scanned) (l m : Lexer) (token : Token) (o : Opening)
      → Begins l m o
      → ((n : Lexer) → Skips source m n → m.position < n.position → Ends (Scans source n) (more n))
      → Ends (Scans source l) (next_from more source token o m)
  unfolding next_from
  next_from-Scans more l m token o b again =
      Ends-if (Scans source l) (leb (size_of source) m.position) _ _
        (λ e. next_eof-Scans l m token o b (ground arith))
        λ e. next_byte-Scans more l m token o _ b (ground arith) refl again

  -- With 17 bytes of the arena for each byte that is left of the source, and 16, and a source below
  -- 2 ^ 32 - 1 bytes, lexer_next ends on fuel above what is left of the source. Before its token there is
  -- no part of a token, as Gap says, the token has the text that the source reads as between its ends, or
  -- a line feed for one line end, and the lexer stands behind it.
  pub lexer_next-Scans :
      (fuel : ℕ) (l : Lexer) (token : Token)
      → size_of source < u32_max
      → size_of source - l.position < fuel
      → Room source l
      → Fits source l
      → Ends (Scans source l) (lexer_next fuel source l token)
  unfolding lexer_next
  lexer_next-Scans zero l token small h room fits = absurd (omega arith)
  lexer_next-Scans (suc fuel) l token small h room fits =
      Ends-bind
        (λ (s : Space). Clears source l.keep_newlines l s.lexer × AtToken source s.lexer.position)
        (Scans source l) (skip_space source l) _ (skip_space-Skips source l.keep_newlines l)
        λ s ((skips, gap), stopped).
          Ends-bind _ (Scans source l) (skip_splices source s.lexer) _
            (skip_splices-Skips source s.lexer)
            λ m (moves, plain).
              let to_m = Skips-trans source skips (Moves-Skips source moves) in
              next_from-Scans (λ n. lexer_next fuel source n token) l m token (opening s m)
                (record {
                  at_start = refl;
                  at_line = refl;
                  at_column = refl;
                  skipped = to_m;
                  gap = Gap-trans source gap (Reads-Gap source moves.reads refl);
                  plain = plain;
                  room = room;
                  fits = fits;
                  small = small;
                })
                λ n to_n on.
                  lexer_next-Scans fuel n token small (omega (arith, to_m.ahead))
                    (Room-Skips (Skips-trans source to_m to_n) room) (to_n.stays (to_m.stays fits))
