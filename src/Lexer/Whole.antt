-- ===== src/Lexer/Whole.antt =====
-- lex_source_marked of src/frontend/lexer.c: a source that the arena has room for is turned into tokens.
use cc.Base.{ℕ, ◌/◌, ◌≤◌, ◌<◌, ◌≡◌, refl, arith, Bool, true, false}
use cc.Base.{List, [], ◌∷◌, ◌++◌, length, length-append, some, ltb, ◌==◌}
use cc.Base.{u32_max, size_max, Bool-cases, inl, inr, ◌⊎◌, All}
use cc.Arena.{Arena}
use cc.Diagnostics.{Source}
use cc.Lexer.{Lexer, Token, size_of, loop_fuel}
use cc.Lexer.Next.{Scanned, lexer_next}
use cc.Lexer.Tokens.{TokenList, token_list_push}
use cc.Lexer.Tokens.{next_list_capacity, is_eof, Lexed, pushed}
use cc.Lexer.Gaps.{Gap}
use cc.Lexer.Reads.{Fits}
use cc.Lexer.Emitted.{SpelledAs, Room}

-- A token of the source that begins at `p` or behind it.
pub record IsToken (source : Source) (keep : Bool) (p : ℕ) (t : Token) : Type 0 where
  pub from : t.source ≡ source
  pub behind : p ≤ t.start
  pub gap : Gap source keep p t.start
  pub forward : t.start ≤ t.end
  pub inside : t.end ≤ size_of source
  pub spelled : SpelledAs t.kind source t.start t.end t.text

-- Tokens that follow each other from `p` to `q`.
abbrev pub Follow : Source → Bool → ℕ → List Token → ℕ → Type 0
Follow source keep p [] q = (p ≤ q) × Gap source keep p q
Follow source keep p (t ∷ ts) q = IsToken source keep p t × Follow source keep t.end ts q

-- No token of the list is the end of the source.
abbrev pub NoEof : List Token → Type 0
NoEof = All (λ t. is_eof t.kind ≡ false)

-- lexer_next gave the token with the answer false.
abbrev pub Refused : Source → Token → Type 0
Refused source t =
    (l : Lexer) × (old : Token) × (r : Scanned) × (lexer_next (loop_fuel source) source l old
      ≡ some r)
    × (r.good ≡ false)
    × (r.token ≡ t)

-- The tokens follow each other through the source. The last is its end, or was refused; no other is
-- the end.
pub record Lexes (source : Source) (keep : Bool) (r : Lexed) : Type 0 where
  pub answered : r.good ≡ true
  pub front : List Token
  pub last : Token
  pub listed : r.list.items ≡ front ++ (last ∷ [])
  pub follow : Follow source keep 0 r.list.items last.end
  pub no_eof : NoEof front
  pub stopped : ((is_eof last.kind ≡ true) × (last.start ≡ size_of source)) ⊎ Refused source last
  pub stored : length r.list.items ≤ r.list.capacity

-- Between two turns.
record Goes (source : Source) (keep : Bool) (s : Lexed) : Type 0 where
  follow : Follow source keep 0 s.list.items s.lexer.position
  no_eof : NoEof s.list.items
  few : length s.list.items ≤ s.lexer.position
  stored : length s.list.items ≤ s.list.capacity
  room : Room source s.lexer
  fits : Fits source s.lexer
  same_keep : s.lexer.keep_newlines ≡ keep

-- A list of fewer than 2 ^ 32 tokens takes another.
pub token_list_push-Pushes :
    (list : TokenList) (t : Token)
    → length list.items < u32_max
    → length list.items ≤ list.capacity
    → (pushed : TokenList) × (token_list_push list t ≡ some pushed)
      × (pushed.items ≡ list.items ++ (t ∷ []))
      × (length pushed.items ≤ pushed.capacity)
unfolding token_list_push next_list_capacity
token_list_push-Pushes list t small stored =
    elim (Bool-cases (length list.items == list.capacity)) [
      | inl e ↦
          let fits : ltb (size_max / 48) (next_list_capacity list.capacity) ≡ false =
            ground arith in
          rw (e, fits) (_, refl, refl, ground (arith, length-append list.items (t ∷ [])))
      | inr e ↦ rw e (_, refl, refl, ground (arith, length-append list.items (t ∷ [])))
    ]
