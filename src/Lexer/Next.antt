-- ===== src/Lexer/Next.antt =====
-- The next token of src/frontend/lexer.c: lexer_next. It takes the token that it writes, since it leaves
-- that as it was where finish_token fails; its own call takes fuel.
use cc.Base.{ℕ, zero, suc, ◌+◌, Bool, true, false, ◌&&◌, ◌||◌, Option, none, some, List, leb, ltb}
use cc.Base.{◌==◌, if◌then◌else◌, ◌>>=◌, loop, codes}
use cc.Diagnostics.{Source}
use cc.Lexer.{Lexer, Token, token_eof, token_newline, token_identifier, token_number}
use cc.Lexer.{token_character, token_string, token_punctuator, byte_at, size_of, loop_fuel}
use cc.Lexer.{lexer_emit, is_ident_start, is_digit}
use cc.Lexer.Splices.{skip_splices, skip_line_end}
use cc.Lexer.Space.{Space, skip_space, is_line_end}
use cc.Lexer.Scan.{Opening, scratch_begin, append_text, append_spliced, finish_token, lex_quoted}
use cc.Lexer.Scan.{ident_turn, number_turn}
use cc.Lexer.Punctuators.{punctuators, find_punctuator, take_punctuator}

-- What lexer_next leaves behind its pointers, and its answer.
pub record Scanned : Type 0 where
  pub lexer : Lexer
  pub token : Token
  pub good : Bool

abbrev pub scanned : Bool → Lexer × Token → Scanned
scanned good (lexer, token) = record { lexer = lexer; token = token; good = good }

unfoldable pub next_eof : Source → Token → Opening → Lexer → Scanned
next_eof source token o lexer =
    scanned true (finish_token source (scratch_begin lexer) token o token_eof)

-- `more` is the call of lexer_next by itself.
unfoldable pub next_line :
    (Lexer → Option Scanned) → Source → Token → Opening → Lexer → Option Scanned
next_line more source token o lexer =
    let behind = skip_line_end source lexer in
    let line = append_text (scratch_begin behind) b'\n' in
    if behind.keep_newlines
    then some
        (scanned true (finish_token source line token (record o { at_bol = true }) token_newline))
    else more behind

unfoldable pub next_identifier : Source → Token → Opening → Lexer → Option Scanned
next_identifier source token o lexer =
    loop (ident_turn source) (loop_fuel source) (scratch_begin lexer) >>= λ l.
    some (scanned true (finish_token source l token o token_identifier))

unfoldable pub next_number : Source → Token → Opening → Lexer → Option Scanned
next_number source token o lexer =
    loop (number_turn source) (loop_fuel source) (scratch_begin lexer) >>= λ l.
    some (scanned true (finish_token source l token o token_number))

unfoldable pub next_quoted : Source → Token → Opening → Lexer → ℕ → Option Scanned
next_quoted source token o lexer quote =
    lex_quoted source lexer token o quote (if quote == b'"' then token_string else token_character)
    >>= λ (r, closed). some (scanned closed r)

unfoldable pub next_invalid : Source → Token → Opening → Lexer → Option Scanned
next_invalid source token o lexer =
    append_spliced source
      (scratch_begin (lexer_emit source lexer 1003 o.line o.column (codes "invalid input byte")))
    >>= λ l. some (scanned false (finish_token source l token o token_punctuator))

-- With the punctuator that was found.
unfoldable pub next_found : Source → Token → Opening → Lexer → Option (List ℕ) → Option Scanned
next_found source token o lexer none = next_invalid source token o lexer
next_found source token o lexer (some text) =
    take_punctuator source text (scratch_begin lexer) >>= λ l.
    some (scanned true (finish_token source l token o token_punctuator))

unfoldable pub next_punctuator : Source → Token → Opening → Lexer → Option Scanned
next_punctuator source token o lexer =
    find_punctuator source lexer.position punctuators >>= next_found source token o lexer

abbrev pub begins_number : Source → ℕ → ℕ → Bool
begins_number source position byte =
    is_digit byte
    || ((byte == b'.')
        && ltb (position + 1) (size_of source)
        && is_digit (byte_at source (position + 1)))

unfoldable pub next_byte :
    (Lexer → Option Scanned) → Source → Token → Opening → Lexer → ℕ → Option Scanned
next_byte more source token o lexer byte =
    if is_line_end byte
    then next_line more source token o lexer
    else if is_ident_start byte
    then next_identifier source token o lexer
    else if begins_number source lexer.position byte
    then next_number source token o lexer
    else if byte == b'\'' || byte == b'"'
    then next_quoted source token o lexer byte
    else next_punctuator source token o lexer

unfoldable pub next_from :
    (Lexer → Option Scanned) → Source → Token → Opening → Lexer → Option Scanned
next_from more source token o lexer =
    if leb (size_of source) lexer.position
    then some (next_eof source token o lexer)
    else next_byte more source token o lexer (byte_at source lexer.position)

abbrev pub opening : Space → Lexer → Opening
opening s lexer = record {
  start = lexer.position;
  line = lexer.line;
  column = lexer.column;
  at_bol = s.at_bol;
  has_space = s.has_space;
}

unfoldable pub lexer_next : ℕ → Source → Lexer → Token → Option Scanned
lexer_next zero source lexer token = none
lexer_next (suc fuel) source lexer token = skip_space source lexer >>= λ s.
    skip_splices source s.lexer >>= λ l.
    next_from (λ m. lexer_next fuel source m token) source token (opening s l) l
