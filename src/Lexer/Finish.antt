-- ===== src/Lexer/Finish.antt =====
-- finish_token of src/frontend/lexer.c, where the arena has room for the text of the token.
use cc.Base.{ℕ, ◌+◌, ◌≤◌, ◌≡◌, refl, arith, false, Option, none}
use cc.Base.{some, length, u32, u32_max}
use cc.Arena.{Arena, Place}
use cc.Arena.Invariant.{IsArena, rounded}
use cc.Arena.Alloc.{Grants, arena_alloc-Grants}
use cc.Diagnostics.{Source}
use cc.Lexer.{Lexer, Token, TokenKind}
use cc.Lexer.Scan.{Opening, flags_of, token_stored, too_large, finish_token}

-- The token is made of the opening, the position and the scratch buffer, and its text is in the arena.
pub record Finished (source : Source) (l : Lexer) (o : Opening) (kind : TokenKind) (m : Lexer)
    (token : Token) : Type 0 where
  pub is_token : token ≡ record {
    kind = kind;
    flags = flags_of o;
    source = source;
    start = o.start;
    end = l.position;
    line = o.line;
    column = o.column;
    text = l.scratch;
  }
  pub is_lexer : m ≡ record l { arena = m.arena }
  pub valid : IsArena m.arena
  pub same_limit : m.arena.limit ≡ l.arena.limit
  pub counted : m.arena.total ≤ l.arena.total + length l.scratch + 16

rounded_le : (n : ℕ) → rounded (n + 1) ≤ n + 16
rounded_le n = ground arith

u32_small : (n : ℕ) → n ≤ u32_max → u32 n ≡ n
u32_small n h = omega arith

stored-Finished :
    (source : Source) (l : Lexer) (token : Token) (o : Opening) (kind : TokenKind)
    (stored : Option (Place × Arena))
    → Grants l.arena (length l.scratch + 1) stored
    → o.start ≤ u32_max
    → l.position ≤ u32_max
    → o.line ≤ u32_max
    → o.column ≤ u32_max
    → Finished source l o kind
        (token_stored source l token o kind stored).0
        (token_stored source l token o kind stored).1
unfolding token_stored
stored-Finished source l token o kind none g a b c d = absurd g
stored-Finished source l token o kind (some (p, arena')) g a b c d = record {
  is_token =
      rw (u32_small o.start a, u32_small l.position b, u32_small o.line c, u32_small o.column d)
        refl;
  is_lexer = refl;
  valid = g.valid;
  same_limit = g.same_limit;
  counted = omega (arith, g.counted, rounded_le (length l.scratch));
}

pub finish_token-Finished :
    (source : Source) (l : Lexer) (token : Token) (o : Opening) (kind : TokenKind)
    → IsArena l.arena
    → l.arena.total + length l.scratch + 16 ≤ l.arena.limit
    → o.start ≤ u32_max
    → l.position ≤ u32_max
    → o.line ≤ u32_max
    → o.column ≤ u32_max
    → Finished source l o kind
        (finish_token source l token o kind).0
        (finish_token source l token o kind).1
unfolding finish_token
finish_token-Finished source l token o kind v room a b c d = rw small (
    stored-Finished source l token o kind _
      (arena_alloc-Grants l.arena (length l.scratch + 1) v (omega (arith, v.bounded))
        (omega (arith, rounded_le (length l.scratch))))
      a b c d)
  where
    small : too_large l o ≡ false
    small = ground arith
