-- ===== src/Lexer/Starved.antt =====
-- The loop of lex_source_marked in src/frontend/lexer.c when the arena has no room for the token that is
-- the end of the source: finish_token leaves the token of the turn before, and lexer_next answers true.
use cc.Base.{ℕ, zero, suc, ◌+◌, ◌≤◌, ◌<◌, ◌≡◌, refl, arith, true, false, [], ◌∷◌}
use cc.Base.{length, length-append, none, some, ltb, leb, ◌==◌, u32_max}
use cc.Base.{Bool-cases, inl, inr, again, loop, turned}
use cc.Arena.{arena_alloc}
use cc.Diagnostics.{Source}
use cc.Lexer.{Lexer, Token, token_eof, size_of, lexer_emit}
use cc.Lexer.Splices.{skip_turn, skip_splices}
use cc.Lexer.Space.{space_turn, skip_space}
use cc.Lexer.Scan.{Opening, scratch_begin, finish_token, token_stored, too_large}
use cc.Lexer.Next.{next_eof, next_from, lexer_next}
use cc.Lexer.Tokens.{Lexed, pushed, lex_turn, is_eof}
use cc.Lexer.Whole.{token_list_push-Pushes}

-- At the end of the source, with no room for one byte, and a token in the slot that is not the end.
pub record IsStarved (source : Source) (s : Lexed) : Type 0 where
  pub at_end : size_of source ≤ s.lexer.position
  pub no_room : arena_alloc s.lexer.arena 1 ≡ none
  pub stale : is_eof s.slot.kind ≡ false
  pub stored : length s.list.items ≤ s.list.capacity

module _ (source : Source) where
  skip_splices-end : (l : Lexer) → size_of source ≤ l.position → skip_splices source l ≡ some l
  unfolding skip_splices skip_turn loop turned
  skip_splices-end l h = let e : ltb l.position (size_of source) ≡ false = ground arith in rw e refl

  skip_space-end :
      (l : Lexer)
      → size_of source ≤ l.position
      → skip_space source l ≡ some (record { lexer = l; has_space = false; at_bol = l.column == 1 })
  unfolding skip_space space_turn loop turned
  skip_space-end l h =
      let e : ltb l.position (size_of source) ≡ false = ground arith in
      rw (skip_splices-end l h) (rw e refl)

  -- finish_token changes no more than the diagnostics.
  finish-refused :
      (l : Lexer) (token : Token) (o : Opening)
      → l.scratch ≡ []
      → arena_alloc l.arena 1 ≡ none
      → (d : Lexer) × (finish_token source l token o token_eof ≡ (d, token))
        × (d.arena ≡ l.arena)
        × (d.position ≡ l.position)
  unfolding finish_token token_stored lexer_emit
  finish-refused l token o e h =
      rw (e, h)
        (elim (Bool-cases (too_large l o)) [
          | inl f ↦ rw f (_, refl, refl, refl)
          | inr f ↦ rw f (_, refl, refl, refl)
        ])

  -- lexer_next answers true with the old token, where it was.
  lexer_next-stale :
      (fuel : ℕ) (l : Lexer) (token : Token)
      → size_of source ≤ l.position
      → arena_alloc l.arena 1 ≡ none
      → (d : Lexer) × (lexer_next (suc fuel) source l token
          ≡ some (record { lexer = d; token = token; good = true }))
        × (d.arena ≡ l.arena)
        × (d.position ≡ l.position)
  unfolding lexer_next next_from next_eof scratch_begin
  lexer_next-stale fuel l token h no_room =
      let e : leb (size_of source) l.position ≡ true = ground arith in
      let f =
        finish-refused (record l { scratch = [] }) token
          (record {
            start = l.position;
            line = l.line;
            column = l.column;
            at_bol = l.column == 1;
            has_space = false;
          })
          refl no_room in
      (f.0, rw (skip_space-end l h) (rw (skip_splices-end l h) (rw e (rw f.1 refl))), f.2, f.3)

  -- Every turn is followed by another.
  lex_turn-again :
      (s : Lexed)
      → IsStarved source s
      → length s.list.items < u32_max
      → (t : Lexed) × (lex_turn source s ≡ some (again t))
        × IsStarved source t
        × (length t.list.items ≡ length s.list.items + 1)
  unfolding lex_turn pushed
  lex_turn-again s h small =
      let n = lexer_next-stale (size_of source) s.lexer s.slot h.at_end h.no_room in
      let p = token_list_push-Pushes s.list s.slot small h.stored in
      (
        record { lexer = n.0; list = p.0; slot = s.slot; good = true },
        rw n.1 (rw p.1 (rw h.stale refl)),
        record {
          at_end = rw n.3 h.at_end;
          no_room = rw n.2 h.no_room;
          stale = h.stale;
          stored = p.3;
        },
        rw p.2 (omega (arith, length-append s.list.items (s.slot ∷ []))),
      )

  -- At the end of the source, with no room for one byte in the arena and no end token in the slot, the
  -- loop of lex_source_marked does not end, as far as the list can take 2 ^ 32 - 1 tokens.
  pub lex_turn-never_ends :
      (fuel : ℕ) (s : Lexed)
      → IsStarved source s
      → length s.list.items + fuel ≤ u32_max
      → loop (lex_turn source) fuel s ≡ none
  unfolding loop turned
  lex_turn-never_ends zero s h small = refl
  lex_turn-never_ends (suc fuel) s h small =
      let (t, e, again_h, more) = lex_turn-again s h (omega arith) in
      rw e (lex_turn-never_ends fuel t again_h (omega arith))
