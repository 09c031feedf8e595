-- ===== src/Lexer/Blank.antt =====
-- What skip_space of src/frontend/lexer.c goes over, and where it stops.
use cc.Base.{subst, sym, ℕ, ◌+◌, ◌<◌, ◌≡◌, refl, arith, Bool, true, false, ◌&&◌, Option}
use cc.Base.{none, some, ltb, ◌==◌, Bool-cases, inl, inr, ltb→lt}
use cc.Base.{Ends, Ends-bind, loop-Ends}
use cc.Diagnostics.{Source}
use cc.Lexer.{Lexer, byte_at, size_of, loop_fuel}
use cc.Lexer.Splices.{splice_next, splice_at, skip_splices, moved_line}
use cc.Lexer.Space.{Space, is_blank, is_line_end}
use cc.Lexer.Space.{comment}
use cc.Lexer.Space.{space_byte, space_or_splice, space_turn, skip_space}
use cc.Lexer.Reads.{splice_next-bounds, skip_splices-Skips}
use cc.Lexer.Skipped.{Skips, Skips-trans, Moves-Skips, advance-Skips}
use cc.Lexer.Skipped.{left_at, advance_on}
use cc.Lexer.Gaps.{IsSpace}
use cc.Lexer.Gaps.{Gap, no_gap, over_splice, over_space}
use cc.Lexer.Gaps.{Gap-trans}
use cc.Lexer.Gaps.{Reads-Gap}
use cc.Lexer.Comments.{AtToken, Clears, Goes, line_comment-Goes, block_comment-Goes}

is_blank-IsSpace : (b : ℕ) → is_blank b ≡ true → IsSpace b
is_blank-IsSpace b e = ground arith

not_blank : (b : ℕ) → is_blank b ≡ false → IsSpace b → ⊥
not_blank b e (inl k) = ground (arith, e, k)
not_blank b e (inr (inl k)) = ground (arith, e, k)
not_blank b e (inr (inr (inl k))) = ground (arith, e, k)
not_blank b e (inr (inr (inr k))) = ground (arith, e, k)

module _ (source : Source) (keep : Bool) where
  -- At a slash that is no splice.
  comment-Goes :
      (l : Lexer) (s : Space)
      → Clears source keep l s.lexer
      → s.lexer.position + 1 < size_of source
      → byte_at source s.lexer.position ≡ b'/'
      → splice_next source s.lexer.position ≡ none
      → is_blank (byte_at source s.lexer.position) ≡ false
      → Goes source keep l s (comment source s (byte_at source (s.lexer.position + 1)))
  unfolding comment
  comment-Goes l s h less slash plain solid =
      elim (Bool-cases (byte_at source (s.lexer.position + 1) == b'/')) [
        | inl e ↦ rw e (line_comment-Goes source keep l s h (less, slash, ground arith))
        | inr e ↦ elim (Bool-cases (byte_at source (s.lexer.position + 1) == b'*')) [
          | inl f ↦ rw (e, f) (block_comment-Goes source keep l s h (less, slash, ground arith))
          | inr f ↦
              rw (e, f)
                (
                  h,
                  inr (
                    plain,
                    not_blank _ solid,
                    λ k. elim k.2 [ inl a ↦ ground (arith, e, a) | inr a ↦ ground (arith, f, a) ],
                  ),
                )
        ]
      ]

  space_byte-Goes :
      (l : Lexer) (s : Space)
      → Clears source keep l s.lexer
      → s.lexer.position < size_of source
      → splice_next source s.lexer.position ≡ none
      → Goes source keep l s (space_byte source s (byte_at source s.lexer.position))
  unfolding space_byte
  space_byte-Goes l s h less plain =
      elim (Bool-cases (is_blank (byte_at source s.lexer.position))) [
        | inl e ↦
            let on = advance_on source s.lexer (byte_at source s.lexer.position) in
            rw e (
              (
                Skips-trans source h.0 (advance-Skips source s.lexer _ less),
                subst (Gap source keep l.position) (sym on)
                    (Gap-trans source h.1 (over_space less (is_blank-IsSpace _ e) no_gap)),
              ),
              omega (arith, on),
            )
        | inr e ↦ elim (Bool-cases (is_line_end (byte_at source s.lexer.position))) [
          | inl f ↦ rw (e, f) (h, inr (plain, not_blank _ e, λ k. ground (arith, f, k.1)))
          | inr f ↦
              elim (Bool-cases (
                (byte_at source s.lexer.position == b'/')
                && ltb (s.lexer.position + 1) (size_of source))) [
                  | inl g ↦
                      rw (e, f, g) (comment-Goes l s h (ground arith) (ground (arith, g)) plain e)
                  | inr g ↦
                      rw (e, f, g) (h, inr (plain, not_blank _ e, λ k. ground (arith, g, k.0, k.1)))
                ]
        ]
      ]

  splice-Skips :
      (l : Lexer) (q : ℕ)
      → splice_next source l.position ≡ some q
      → Skips source l (moved_line l q)
        × (l.position < (moved_line l q).position)
        × ((moved_line l q).position ≡ q)
  unfolding moved_line
  splice-Skips l q e = (
    record {
      ahead = omega (arith, splice_next-bounds source l.position e);
      same_arena = refl;
      same_keep = refl;
      stays = λ h. omega (arith, splice_next-bounds source l.position e);
    },
    omega (arith, splice_next-bounds source l.position e),
    refl,
  )

  space_or_splice-Goes :
      (l : Lexer) (s : Space) (o : Option ℕ)
      → Clears source keep l s.lexer
      → s.lexer.position < size_of source
      → splice_next source s.lexer.position ≡ o
      → Goes source keep l s (space_or_splice source s (splice_at source s.lexer))
  unfolding splice_at space_or_splice
  space_or_splice-Goes l s none h less e = rw e (space_byte-Goes l s h less e)
  space_or_splice-Goes l s (some q) h less e =
      let step = splice-Skips s.lexer q e in
      rw e (
        (
          Skips-trans source h.0 step.0,
          subst (Gap source keep l.position) (sym step.2)
              (Gap-trans source h.1 (over_splice e no_gap)),
        ),
        omega (arith, step.1),
      )

  space_turn-Goes :
      (l : Lexer) (s : Space)
      → Clears source keep l s.lexer
      → Goes source keep l s (space_turn source s)
  unfolding space_turn
  space_turn-Goes l s h = elim (Bool-cases (ltb s.lexer.position (size_of source))) [
    | inl e ↦ rw e (space_or_splice-Goes l s _ h (ltb→lt _ _ e) refl)
    | inr e ↦ rw e (h, inl (ground arith))
  ]

  -- White space and comments are skipped, and nothing else: skip_space ends, takes nothing from the
  -- arena, and goes over spaces, spliced line ends, comments up to the end of their line and comments up
  -- to their first star and slash, or to the end of the source, alone. It stops at the end of the source
  -- or at a byte that is no space and begins no splice and no comment.
  pub skip_space-Skips :
      (l : Lexer)
      → Ends
          (λ (s : Space). Clears source keep l s.lexer × AtToken source s.lexer.position)
          (skip_space source l)
  unfolding skip_space
  skip_space-Skips l =
      Ends-bind _ _ (skip_splices source l) _ (skip_splices-Skips source l) λ m (k, plain).
        loop-Ends (λ (s : Space). Clears source keep l s.lexer)
          (λ (s : Space). Clears source keep l s.lexer × AtToken source s.lexer.position)
          (λ (s : Space). left_at source s.lexer) (space_turn source) (space_turn-Goes l)
          (loop_fuel source) (record { lexer = m; has_space = false; at_bol = l.column == 1 })
          (omega arith) (Moves-Skips source k, Reads-Gap source k.reads refl)
