-- ===== src/Lexer/Comments.antt =====
-- The loops of skip_space of src/frontend/lexer.c over comments.
use cc.Base.{subst, sym, ℕ, ◌+◌, ◌≤◌, ◌<◌, ◌≡◌, refl, arith, Bool, true, false, ◌||◌, Option}
use cc.Base.{none, ltb, leb, Bool-cases, inl, inr, ◌⊎◌, ltb→lt}
use cc.Base.{Turn, Ends, Turns, Ends-bind, loop-Ends}
use cc.Diagnostics.{Source}
use cc.Lexer.{Lexer, byte_at, size_of, loop_fuel, lexer_emit}
use cc.Lexer.Splices.{splice_next, skip_splices}
use cc.Lexer.Space.{Space, is_line_end, two_on, closes, line_comment_byte, line_comment_turn}
use cc.Lexer.Space.{line_comment, block_comment_turn, behind_comment, block_comment}
use cc.Lexer.Reads.{skip_splices-Skips}
use cc.Lexer.Skipped.{Skips, Skips-refl, Skips-trans, Moves-Skips, advance-Skips, emit-Skips}
use cc.Lexer.Skipped.{two_on-Skips, left_at, advance_on}
use cc.Lexer.Gaps.{IsSpace, IsBreak, InLine, line_start, line_byte, AtBreak, Closes, InBlock}
use cc.Lexer.Gaps.{block_start, block_byte, Two, Gap, no_gap, over_line}
use cc.Lexer.Gaps.{over_block, over_open_block, InLine-trans, InBlock-trans, Gap-trans}
use cc.Lexer.Gaps.{Reads-InLine}

-- At `position` a comment begins.
abbrev pub OpensComment : Source → ℕ → Type 0
OpensComment source position =
    (position + 1 < size_of source)
    × (byte_at source position ≡ b'/')
    × ((byte_at source (position + 1) ≡ b'/') ⊎ (byte_at source (position + 1) ≡ b'*'))

-- Nothing is left to skip.
abbrev pub AtToken : Source → ℕ → Type 0
AtToken source position =
    (size_of source ≤ position)
    ⊎ ((splice_next source position ≡ none)
        × (IsSpace (byte_at source position) → ⊥)
        × (OpensComment source position → ⊥))

-- What was skipped from `l` to `m` is no part of a token.
abbrev pub Clears : Source → Bool → Lexer → Lexer → Type 0
Clears source keep l m = Skips source l m × Gap source keep l.position m.position

-- Inside of a comment of one line, and inside of another comment.
abbrev Within : Source → Lexer → Lexer → Type 0
Within source l m = Skips source l m × InLine source l.position m.position

abbrev Enclosed : Source → Lexer → Lexer × Bool → Type 0
Enclosed source l (m, true) = ⊥
Enclosed source l (m, false) = Skips source l m × InBlock source l.position m.position

-- Behind the comment, or at the end of the source inside of it.
abbrev Left : Source → ℕ → Bool → ℕ → Type 0
Left source p true r = (q : ℕ) × InBlock source p q × Closes source q × (r ≡ q + 2)
Left source p false r = InBlock source p r × (size_of source ≤ r)

abbrev Leaves : Source → Lexer → Lexer × Bool → Type 0
Leaves source l r = Skips source l r.0 × Left source l.position r.1 r.0.position

is_line_end-IsBreak : (b : ℕ) → is_line_end b ≡ true → IsBreak b
is_line_end-IsBreak b e = ground arith

not_line_end : (b : ℕ) → is_line_end b ≡ false → IsBreak b → ⊥
not_line_end b e (inl k) = ground (arith, e, k)
not_line_end b e (inr k) = ground (arith, e, k)

not_closing : (source : Source) (p : ℕ) → closes source p ≡ false → Closes source p → ⊥
not_closing source p e (less, a, b) = ground (arith, e, less, a, b)

module _ (source : Source) (keep : Bool) where
  line_comment_byte-Turns :
      (l m n : Lexer)
      → Within source l n
      → m.position ≤ n.position
      → splice_next source n.position ≡ none
      → Turns
          (Within source l)
          (λ q. Within source l q × AtBreak source q.position)
          (left_at source)
          m
          (line_comment_byte source n)
  unfolding line_comment_byte
  line_comment_byte-Turns l m n h le plain =
      elim (Bool-cases
        (leb (size_of source) n.position || is_line_end (byte_at source n.position))) [
          | inl e ↦ rw e (h, ground arith)
          | inr e ↦
              let inside : n.position < size_of source = ground arith in
              let solid : is_line_end (byte_at source n.position) ≡ false = ground (arith, e) in
              rw e (
                (
                  Skips-trans source h.0 (record {
                    ahead = omega arith;
                    same_arena = refl;
                    same_keep = refl;
                    stays = λ k. omega (arith, k, inside);
                  }),
                  InLine-trans source h.1
                      (line_byte inside plain (not_line_end _ solid) line_start),
                ),
                omega (arith, le, inside),
              )
        ]

  line_comment_turn-Turns :
      (l m : Lexer)
      → Within source l m
      → Ends
          (Turns
            (Within source l)
            (λ q. Within source l q × AtBreak source q.position)
            (left_at source)
            m)
          (line_comment_turn source m)
  unfolding line_comment_turn
  line_comment_turn-Turns l m h = elim (Bool-cases (ltb m.position (size_of source))) [
    | inl e ↦ rw e (
        Ends-bind _
          (Turns (Within source l) (λ q. Within source l q × AtBreak source q.position)
            (left_at source) m)
          (skip_splices source m) _ (skip_splices-Skips source m)
          λ n (k, plain).
            let s = Moves-Skips source k in
            line_comment_byte-Turns l m n
              (Skips-trans source h.0 s, InLine-trans source h.1 (Reads-InLine source k.reads refl))
              s.ahead plain)
    | inr e ↦ rw e (h, inl (ground arith))
  ]

  block_comment_turn-Turns :
      (l : Lexer) (s : Lexer × Bool)
      → Enclosed source l s
      → Ends
          (Turns (Enclosed source l) (Leaves source l) (λ t. left_at source t.0) s)
          (block_comment_turn source s)
  unfolding block_comment_turn
  block_comment_turn-Turns l (m, true) h = absurd h
  block_comment_turn-Turns l (m, false) h = elim (Bool-cases (ltb m.position (size_of source))) [
    | inl e ↦ elim (Bool-cases (closes source m.position)) [
      | inl f ↦
          rw (e, f)
            (
              Skips-trans source h.0 (two_on-Skips source m (ground arith)),
              (m.position, h.1, (ground arith, ground arith, ground arith), refl),
            )
      | inr f ↦
          let on = advance_on source m (byte_at source m.position) in
          rw (e, f)
            (
              (
                Skips-trans source h.0 (advance-Skips source m _ (ltb→lt _ _ e)),
                subst (InBlock source l.position) (sym on) (
                    InBlock-trans source h.1
                      (block_byte (ltb→lt _ _ e) (not_closing source m.position f) block_start)),
              ),
              ground (arith, on),
            )
    ]
    | inr e ↦ rw e (h.0, (h.1, ground arith))
  ]

  -- Another turn of the outer loop, further on.
  abbrev pub Goes : Lexer → Space → Option (Turn Space) → Type 0
  Goes l s = Ends (
      Turns (λ (t : Space). Clears source keep l t.lexer)
        (λ (t : Space). Clears source keep l t.lexer × AtToken source t.lexer.position)
        (λ (t : Space). left_at source t.lexer) s)

  pub line_comment-Goes :
      (l : Lexer) (s : Space)
      → Clears source keep l s.lexer
      → Two source s.lexer.position b'/' b'/'
      → Goes l s (line_comment source s)
  unfolding line_comment
  line_comment-Goes l s h two =
      let past = two_on-Skips source s.lexer two.0 in
      Ends-bind (λ (q : Lexer). Within source (two_on s.lexer) q × AtBreak source q.position) _ _ _
        (loop-Ends (Within source (two_on s.lexer))
          (λ q. Within source (two_on s.lexer) q × AtBreak source q.position) (left_at source)
          (line_comment_turn source) (line_comment_turn-Turns (two_on s.lexer)) (loop_fuel source)
          (two_on s.lexer) (omega arith) (Skips-refl source (two_on s.lexer), line_start))
        λ n (k, stop). (
          (
            Skips-trans source h.0 (Skips-trans source past k.0),
            Gap-trans source h.1 (over_line two k.1 stop no_gap),
          ),
          omega (arith, k.0.ahead, two.0),
        )

  behind_comment-Skips :
      (l : Lexer) (s : Space) (r : Lexer × Bool)
      → Skips source l r.0
      → Skips source l (behind_comment source s r).lexer
        × ((behind_comment source s r).lexer.position ≡ r.0.position)
  unfolding behind_comment lexer_emit
  behind_comment-Skips l s (m, true) h = (h, refl)
  behind_comment-Skips l s (m, false) h =
      (Skips-trans source h (emit-Skips source m 1001 _ _ _), refl)

  Left-Gap :
      (p r : ℕ) (closed : Bool)
      → Two source p b'/' b'*'
      → Left source (p + 2) closed r
      → Gap source keep p r
  Left-Gap p r true two (q, inside, closing, e) =
      subst (Gap source keep p) (sym e) (over_block two inside closing no_gap)
  Left-Gap p r false two (inside, past) = over_open_block two inside past no_gap

  pub block_comment-Goes :
      (l : Lexer) (s : Space)
      → Clears source keep l s.lexer
      → Two source s.lexer.position b'/' b'*'
      → Goes l s (block_comment source s)
  unfolding block_comment
  block_comment-Goes l s h two =
      let past = two_on-Skips source s.lexer two.0 in
      Ends-bind (Leaves source (two_on s.lexer)) _ _ _
        (loop-Ends (Enclosed source (two_on s.lexer)) (Leaves source (two_on s.lexer))
          (λ (t : Lexer × Bool). left_at source t.0) (block_comment_turn source)
          (block_comment_turn-Turns (two_on s.lexer)) (loop_fuel source) (two_on s.lexer, false)
          (omega arith) (Skips-refl source (two_on s.lexer), block_start))
        λ r k.
          let to_r = Skips-trans source h.0 (Skips-trans source past k.0) in
          let behind = behind_comment-Skips l s r to_r in
          (
            (
              behind.0,
              subst (Gap source keep l.position) (sym behind.1)
                  (Gap-trans source h.1 (Left-Gap s.lexer.position r.0.position r.1 two k.1)),
            ),
            omega (arith, behind.1, k.0.ahead, two.0),
          )
