-- ===== src/Lexer/Emitted.antt =====
-- What lexer_next of src/frontend/lexer.c promises, and that finish_token keeps the promise where the
-- loops before it did.
use mathlib.Core.List.{Mem}
use cc.Base.{
  ℕ, ◌+◌, ◌-◌, ◌*◌, ◌≤◌, ◌<◌, ◌≡◌, refl, ap, ◌∙◌, sym, arith, Bool, true, false, List, [],
}
use cc.Base.{◌∷◌, length, All, u32_max}
use cc.Arena.Invariant.{IsArena}
use cc.Diagnostics.{Source}
use cc.Lexer.{Lexer, Token, TokenKind, token_newline, token_punctuator, size_of}
use cc.Lexer.Scan.{Opening, finish_token}
use cc.Lexer.Punctuators.{punctuators}
use cc.Lexer.Next.{Scanned, scanned}
use cc.Lexer.Tokens.{is_eof}
use cc.Lexer.Reads.{Reads, Fits}
use cc.Lexer.Skipped.{Skips}
use cc.Lexer.Gaps.{Gap, LineEnd}
use cc.Lexer.Munch.{StandsAt}
use cc.Lexer.Finish.{Finished, finish_token-Finished}

-- The text of a token of the kind, from `start` to `end`: what the source reads as there, but a line
-- feed for one line end.
abbrev pub SpelledAs : TokenKind → Source → ℕ → ℕ → List ℕ → Type 0
SpelledAs token_newline source start end text = (text ≡ b'\n' ∷ []) × LineEnd source start end
SpelledAs _ source start end text = Reads source start end text

-- The text is a punctuator, and none that stands in its place is longer.
abbrev pub AsLong : Source → ℕ → List ℕ → Type 0
AsLong source start text =
    Mem text punctuators × All (λ u. StandsAt source start u → length u ≤ length text) punctuators

-- Enough of the arena is left for the tokens of what is left of the source.
pub record Room (source : Source) (l : Lexer) : Type 0 where
  pub valid : IsArena l.arena
  pub enough : l.arena.total + 17 * (size_of source - l.position) + 16 ≤ l.arena.limit

pub record Scans (source : Source) (l : Lexer) (r : Scanned) : Type 0 where
  pub from : r.token.source ≡ source
  pub ahead : l.position ≤ r.token.start
  pub gap : Gap source l.keep_newlines l.position r.token.start
  pub ordered : r.token.start ≤ r.token.end
  pub at_end : r.token.end ≡ r.lexer.position
  pub fits : Fits source r.lexer
  pub spelled : SpelledAs r.token.kind source r.token.start r.token.end r.token.text
  pub longest :
      r.good ≡ true → r.token.kind ≡ token_punctuator → AsLong source r.token.start r.token.text
  pub at_eof : is_eof r.token.kind ≡ true → r.token.start ≡ size_of source
  pub forward : is_eof r.token.kind ≡ false → r.token.start < r.token.end
  pub room : is_eof r.token.kind ≡ false → Room source r.lexer
  pub same_keep : r.lexer.keep_newlines ≡ l.keep_newlines

-- What the loops read from `m` to `n` for a token that is the end of the source, or is not.
abbrev pub Read : Bool → Source → Lexer → Lexer → Type 0
Read true source m n = (m.position ≡ size_of source) × (n.scratch ≡ [])
Read false source m n = (m.position < n.position) × (m.position + length n.scratch ≤ n.position)

module _ (source : Source) (small : size_of source < u32_max) where
  left_over :
      (l m n : Lexer) (eof : Bool)
      → Room source l
      → Skips source l m
      → Skips source m n
      → Fits source n
      → Read eof source m n
      → (n.arena.total + length n.scratch + 16 ≤ n.arena.limit)
        × (eof ≡ false
            → n.arena.total + length n.scratch + 16 + 17 * (size_of source - n.position) + 16
              ≤ n.arena.limit)
  left_over l m n true h a b f (at, e) =
      (rw (b.same_arena, a.same_arena, e) (omega (arith, h.enough)), λ k. cc)
  left_over l m n false h a b f r = (
    rw (b.same_arena, a.same_arena) (omega (arith, h.enough, a.ahead, b.ahead)),
    λ k. rw (b.same_arena, a.same_arena) (omega (arith, h.enough, a.ahead, b.ahead)),
  )

  Finished-Scans :
      (l m n q : Lexer) (token : Token) (o : Opening) (kind : TokenKind) (good : Bool)
      → Finished source n o kind q token
      → o.start ≡ m.position
      → Skips source l m
      → Gap source l.keep_newlines l.position m.position
      → Skips source m n
      → Fits source n
      → SpelledAs kind source m.position n.position n.scratch
      → Read (is_eof kind) source m n
      → (good ≡ true → kind ≡ token_punctuator → AsLong source m.position n.scratch)
      → (is_eof kind ≡ false
          → n.arena.total + length n.scratch + 16 + 17 * (size_of source - n.position) + 16
            ≤ n.arena.limit)
      → Scans source l (record { lexer = q; token = token; good = good })
  Finished-Scans l m n q token o kind good f e a gap b fits sp rd long left =
      rw (f.is_token, e)
        (record {
          from = refl;
          ahead = a.ahead;
          gap = gap;
          ordered = b.ahead;
          at_end = sym same_position;
          fits =
              rw
                (
                  same_position,
                  ap (λ (x : Lexer). x.line) f.is_lexer,
                  ap (λ (x : Lexer). x.column) f.is_lexer,
                )
                fits;
          spelled = sp;
          longest = long;
          at_eof = λ k. (rw k at rd).0;
          forward = λ k. (rw k at rd).0;
          room = λ k. record {
            valid = f.valid;
            enough = rw same_position (omega (arith, left k, f.counted, f.same_limit));
          };
          same_keep = ap (λ (x : Lexer). x.keep_newlines) f.is_lexer ∙ b.same_keep ∙ a.same_keep;
        })
    where
      same_position : q.position ≡ n.position
      same_position = ap (λ (x : Lexer). x.position) f.is_lexer

  -- The promise of lexer_next is kept by the token that finish_token makes.
  pub emitted-Scans :
      (l m n : Lexer) (token : Token) (o : Opening) (kind : TokenKind) (good : Bool)
      → Room source l
      → Fits source l
      → o.start ≡ m.position
      → o.line ≡ m.line
      → o.column ≡ m.column
      → Skips source l m
      → Gap source l.keep_newlines l.position m.position
      → Skips source m n
      → SpelledAs kind source m.position n.position n.scratch
      → Read (is_eof kind) source m n
      → (good ≡ true → kind ≡ token_punctuator → AsLong source m.position n.scratch)
      → Scans source l (scanned good (finish_token source n token o kind))
  emitted-Scans l m n token o kind good h f e e' e'' a gap b sp rd long =
      let at_m : Fits source m = a.stays f in
      let at_n : Fits source n = b.stays at_m in
      let room = left_over l m n (is_eof kind) h a b at_n rd in
      Finished-Scans l m n _ _ o kind good
        (finish_token-Finished source n token o kind (rw (b.same_arena ∙ a.same_arena) h.valid)
          room.0 (omega arith) (omega arith) (omega arith) (omega arith))
        e a gap b at_n sp rd long room.1
