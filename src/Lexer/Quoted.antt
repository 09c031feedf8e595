-- ===== src/Lexer/Quoted.antt =====
-- The loop of lex_quoted in src/frontend/lexer.c ends, with what it read in the scratch buffer.
use cc.Base.{ℕ, ◌≤◌, ◌<◌, ◌≡◌, refl, arith, Bool, false, not, ◌&&◌, Option}
use cc.Base.{[], ltb, leb, ◌==◌, Bool-cases, inl, inr}
use cc.Base.{Turn, loop, Ends, Turns, Ends-bind, loop-Ends}
use cc.Diagnostics.{Source}
use cc.Lexer.{Lexer, byte_at, size_of, loop_fuel}
use cc.Lexer.Splices.{skip_splices, advance_byte}
use cc.Lexer.Space.{is_line_end}
use cc.Lexer.Scan.{append_text, append_spliced, escaped, quoted_byte, quoted_here, quoted_turn}
use cc.Lexer.Reads.{Moves-refl, Plain, skip_splices-Skips}
use cc.Lexer.Taken.{Travels, Travels-trans, Travels-le, appended-Moves, taken_position}
use cc.Lexer.Taken.{append_spliced-Passes, rest_of}

module _ (source : Source) where
  abbrev Reached : Lexer → Lexer × Bool → Type 0
  Reached l s = Travels source l s.0

  abbrev left_of : Lexer × Bool → ℕ
  left_of s = rest_of source s.0

  -- Behind the step of one turn from `m`.
  abbrev QuotedTurns : Lexer → Lexer × Bool → Option (Turn (Lexer × Bool)) → Type 0
  QuotedTurns l s = Ends (Turns (Reached l) (Reached l) left_of s)

  escaped-Turns :
      (l n : Lexer) (s : Lexer × Bool)
      → Travels source l n
      → 0 < left_of s
      → s.0.position < n.position
      → QuotedTurns l s (escaped source n)
  unfolding escaped
  escaped-Turns l n s h some_left on =
      Ends-bind _ (Turns (Reached l) (Reached l) left_of s) (skip_splices source n) _
        (skip_splices-Skips source n)
        λ k (moves, plain).
          elim (Bool-cases
            (ltb k.position (size_of source) && not (is_line_end (byte_at source k.position)))) [
              | inl e ↦ rw e (
                  Ends-bind _ (Turns (Reached l) (Reached l) left_of s) (append_spliced source k) _
                    (append_spliced-Passes source k)
                    λ j (t, past). (
                      Travels-trans source (Travels-trans source h ([], moves)) t,
                      omega (arith, Travels-le source n k ([], moves), Travels-le source k j t),
                    ))
              | inr e ↦ rw e (
                Travels-trans source h ([], moves),
                omega (arith, Travels-le source n k ([], moves)),
              )
            ]

  quoted_byte-Turns :
      (quote : ℕ) (l n : Lexer) (s : Lexer × Bool) (c : ℕ)
      → Travels source l n
      → s.0.position ≤ n.position
      → n.position < size_of source
      → Plain source n
      → byte_at source n.position ≡ c
      → QuotedTurns l s (quoted_byte source quote n c)
  unfolding quoted_byte
  quoted_byte-Turns quote l n s c h le less plain e = elim (Bool-cases (is_line_end c)) [
    | inl f ↦ rw f h
    | inr f ↦ elim (Bool-cases (c == b'\\')) [
      | inl g ↦
          rw (f, g)
            (escaped-Turns l (advance_byte (append_text n c) c) s on_it (omega arith)
              (omega (arith, taken_position source n c)))
      | inr g ↦ elim (Bool-cases (c == quote)) [
        | inl k ↦ rw (f, g, k) on_it
        | inr k ↦ rw (f, g, k) (on_it, omega (arith, taken_position source n c))
      ]
    ]
  ]
    where
      on_it : Travels source l (advance_byte (append_text n c) c)
      on_it = Travels-trans source h (_, appended-Moves source n c less plain e)

  quoted_here-Turns :
      (quote : ℕ) (l n : Lexer) (s : Lexer × Bool)
      → Travels source l n
      → s.0.position ≤ n.position
      → Plain source n
      → QuotedTurns l s (quoted_here source quote n)
  unfolding quoted_here
  quoted_here-Turns quote l n s h le plain = elim (Bool-cases (leb (size_of source) n.position)) [
    | inl e ↦ rw e h
    | inr e ↦
        rw e
          (quoted_byte-Turns quote l n s (byte_at source n.position) h le (ground arith) plain refl)
  ]

  quoted_turn-Turns :
      (quote : ℕ) (l : Lexer) (s : Lexer × Bool)
      → Travels source l s.0
      → QuotedTurns l s (quoted_turn source quote s)
  unfolding quoted_turn
  quoted_turn-Turns quote l (m, closed) h = elim (Bool-cases (ltb m.position (size_of source))) [
    | inl e ↦ rw e (
        Ends-bind _ (Turns (Reached l) (Reached l) left_of (m, closed)) (skip_splices source m) _
          (skip_splices-Skips source m)
          λ n (k, plain).
            quoted_here-Turns quote l n (m, closed) (Travels-trans source h ([], k))
              (Travels-le source m n ([], k)) plain)
    | inr e ↦ rw e h
  ]

  pub quoted-Travels :
      (quote : ℕ) (l : Lexer)
      → Ends
          (λ (s : Lexer × Bool). Travels source l s.0)
          (loop (quoted_turn source quote) (loop_fuel source) (l, false))
  quoted-Travels quote l =
      loop-Ends (Reached l) (Reached l) left_of (quoted_turn source quote)
        (quoted_turn-Turns quote l) (loop_fuel source) (l, false) (omega arith)
        ([], Moves-refl source l)
