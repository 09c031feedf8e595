-- ===== src/Lexer/Scan.antt =====
-- The text of a token in src/frontend/lexer.c: append_text, append_spliced, finish_token, lex_quoted and
-- the loops of lexer_next over identifiers and numbers.
use cc.Base.{ℕ, ◌+◌, ◌-◌, ◌*◌, bit_or, Bool, true, false, not, ◌&&◌, ◌||◌, Option, none, some}
use cc.Base.{
  List, [], ◌∷◌, ◌++◌, length, get_or, ltb, leb, ◌==◌, if◌then◌else◌, ◌>>=◌, u32, u32_max,
}
use cc.Base.{Turn, again, leave, loop, codes}
use cc.Arena.{Arena, Place, arena_alloc}
use cc.Diagnostics.{Source}
use cc.Lexer.{Lexer, Token, TokenKind, token_string, byte_at, size_of, loop_fuel, lexer_emit}
use cc.Lexer.{is_ident_continue}
use cc.Lexer.Splices.{skip_splices, advance_byte}
use cc.Lexer.Space.{is_line_end}

-- Where a token begins, and what stood before it: the locals of lexer_next.
pub record Opening : Type 0 where
  pub start : ℕ
  pub line : ℕ
  pub column : ℕ
  pub at_bol : Bool
  pub has_space : Bool

unfoldable pub scratch_begin : Lexer → Lexer
scratch_begin lexer = record lexer { scratch = [] }

unfoldable pub append_text : Lexer → ℕ → Lexer
append_text lexer byte =
    let next = if lexer.scratch_capacity == 0 then 64 else lexer.scratch_capacity * 2 in
    record lexer {
      scratch = lexer.scratch ++ (byte ∷ []);
      scratch_capacity =
          (if leb lexer.scratch_capacity (length lexer.scratch + 1)
            then next
            else lexer.scratch_capacity);
    }

abbrev pub take_byte : Source → Lexer → Lexer
take_byte source lexer =
    let byte = byte_at source lexer.position in advance_byte (append_text lexer byte) byte

unfoldable pub append_spliced : Source → Lexer → Option Lexer
append_spliced source lexer = skip_splices source lexer >>= λ l.
    some (if ltb l.position (size_of source) then take_byte source l else l)

unfoldable pub flags_of : Opening → ℕ
flags_of o = bit_or (if o.at_bol then 1 else 0) (if o.has_space then 2 else 0)

-- With the place of the text in the arena, or NULL. The old token is left as it was on a failure.
unfoldable pub token_stored :
    Source → Lexer → Token → Opening → TokenKind → Option (Place × Arena) → Lexer × Token
token_stored source lexer token o kind none =
    (lexer_emit source lexer 1004 o.line o.column (codes "cannot store token text"), token)
token_stored source lexer token o kind (some (p, arena')) = (
  record lexer { arena = arena' },
  record {
    kind = kind;
    flags = flags_of o;
    source = source;
    start = u32 o.start;
    end = u32 lexer.position;
    line = u32 o.line;
    column = u32 o.column;
    text = lexer.scratch;
  },
)

abbrev pub too_large : Lexer → Opening → Bool
too_large lexer o =
    ltb u32_max o.start || ltb u32_max lexer.position || ltb u32_max o.line || ltb u32_max o.column

unfoldable pub finish_token : Source → Lexer → Token → Opening → TokenKind → Lexer × Token
finish_token source lexer token o kind =
    let stored = arena_alloc lexer.arena (length lexer.scratch + 1) in
    if too_large lexer o
    then (
      lexer_emit source lexer 1004 o.line o.column
          (codes "source is too large for 32-bit token positions"),
      token,
    )
    else token_stored source lexer token o kind stored

-- Behind the backslash of an escape.
unfoldable pub escaped : Source → Lexer → Option (Turn (Lexer × Bool))
escaped source lexer = skip_splices source lexer >>= λ l.
    (if ltb l.position (size_of source) && not (is_line_end (byte_at source l.position))
      then (append_spliced source l >>= λ m. some (again (m, false)))
      else some (again (l, false)))

-- The loop of lex_quoted; the flag is `closed`.
unfoldable pub quoted_byte : Source → ℕ → Lexer → ℕ → Option (Turn (Lexer × Bool))
quoted_byte source quote lexer byte =
    let taken = advance_byte (append_text lexer byte) byte in
    if is_line_end byte
    then some (leave (lexer, false))
    else if byte == b'\\'
    then escaped source taken
    else if byte == quote
    then some (leave (taken, true))
    else some (again (taken, false))

unfoldable pub quoted_here : Source → ℕ → Lexer → Option (Turn (Lexer × Bool))
quoted_here source quote lexer =
    if leb (size_of source) lexer.position
    then some (leave (lexer, false))
    else quoted_byte source quote lexer (byte_at source lexer.position)

unfoldable pub quoted_turn : Source → ℕ → Lexer × Bool → Option (Turn (Lexer × Bool))
quoted_turn source quote (lexer, closed) =
    if ltb lexer.position (size_of source)
    then (skip_splices source lexer >>= λ l. quoted_here source quote l)
    else some (leave (lexer, closed))

abbrev pub unterminated : TokenKind → List ℕ
unterminated token_string = codes "unterminated string literal"
unterminated _ = codes "unterminated character literal"

unfoldable pub quoted_closed : Source → Opening → TokenKind → Lexer × Bool → Lexer
quoted_closed source o kind (lexer, true) = lexer
quoted_closed source o kind (lexer, false) =
    lexer_emit source lexer 1002 o.line o.column (unterminated kind)

-- The lexer, the token and `closed`.
unfoldable pub lex_quoted :
    Source → Lexer → Token → Opening → ℕ → TokenKind → Option ((Lexer × Token) × Bool)
lex_quoted source lexer token o quote kind =
    loop (quoted_turn source quote) (loop_fuel source)
      (advance_byte (append_text (scratch_begin lexer) quote) quote, false)
    >>= λ r. some (finish_token source (quoted_closed source o kind r) token o kind, r.1)

unfoldable pub ident_here : Source → Lexer → Option (Turn Lexer)
ident_here source lexer =
    if leb (size_of source) lexer.position
      || not (is_ident_continue (byte_at source lexer.position))
    then some (leave lexer)
    else (append_spliced source lexer >>= λ l. some (again l))

unfoldable pub ident_turn : Source → Lexer → Option (Turn Lexer)
ident_turn source lexer =
    if ltb lexer.position (size_of source)
    then (skip_splices source lexer >>= λ l. ident_here source l)
    else some (leave lexer)

abbrev pub is_exponent : ℕ → Bool
is_exponent previous = previous == b'e' || previous == b'E' || previous == b'p' || previous == b'P'

-- Is `current` a part of the number that the scratch buffer has the beginning of?
unfoldable pub number_goes_on : List ℕ → ℕ → Bool
number_goes_on scratch current =
    is_ident_continue current
    || (current == b'.')
    || ((current == b'+' || current == b'-')
        && not (length scratch == 0)
        && is_exponent (get_or scratch (length scratch - 1) 0))

unfoldable pub number_here : Source → Lexer → Option (Turn Lexer)
number_here source lexer =
    if leb (size_of source) lexer.position
    then some (leave lexer)
    else if number_goes_on lexer.scratch (byte_at source lexer.position)
    then (append_spliced source lexer >>= λ l. some (again l))
    else some (leave lexer)

unfoldable pub number_turn : Source → Lexer → Option (Turn Lexer)
number_turn source lexer =
    if ltb lexer.position (size_of source)
    then (skip_splices source lexer >>= λ l. number_here source l)
    else some (leave lexer)
