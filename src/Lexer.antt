-- ===== src/Lexer.antt =====
-- The lexer of src/frontend/lexer.c with the state of src/frontend/frontend.h. The source of the lexer
-- is an argument of every function here. Every read of a byte is behind a test of the position
-- against the length. Positions, lines and columns are at most the length of the source plus two, so
-- that their sums do not wrap; a block of 2 ^ 63 bytes is never granted, so that the capacity of the
-- scratch buffer does not wrap either. Each loop takes the length of the source plus one as its fuel.
pub mod Splices
pub mod Space
pub mod Scan
pub mod Punctuators
pub mod Next
pub mod Tokens
pub mod Reads
pub mod Taken
pub mod Quoted
pub mod Skipped
pub mod Gaps
pub mod Comments
pub mod Blank
pub mod Munch
pub mod Longest
pub mod Finish
pub mod Emitted
pub mod Promise
pub mod Whole
pub mod Starved
pub mod Keywords
use cc.Base.{
  ℕ, zero, suc, ◌+◌, ◌*◌, ◌≤◌, ◌<◌, Bool, true, false, not, ◌&&◌, ◌||◌, Option, none, some,
}
use cc.Base.{List, [], ◌∷◌, ◌++◌, length, get_or, ltb, leb, ◌==◌, if◌then◌else◌}
use cc.Arena.{Arena}
use cc.Diagnostics.{Source, DiagnosticSink, diag_lex, diagnostic_emit}

pub data TokenKind : Type 0 where
  token_eof token_newline token_identifier token_number token_character token_string : TokenKind
  token_punctuator token_keyword : TokenKind

-- `hideset` is NULL for every token made here.
pub record Token : Type 0 where
  pub kind : TokenKind
  pub flags : ℕ
  pub source : Source
  pub start : ℕ
  pub end : ℕ
  pub line : ℕ
  pub column : ℕ
  pub text : List ℕ

-- `scratch` holds the `scratch_length` bytes in use.
pub record Lexer : Type 0 where
  pub arena : Arena
  pub position : ℕ
  pub line : ℕ
  pub column : ℕ
  pub diagnostics : DiagnosticSink
  pub keep_newlines : Bool
  pub scratch : List ℕ
  pub scratch_capacity : ℕ

unfoldable pub lexer_create : Arena → DiagnosticSink → Lexer
lexer_create arena diagnostics = record {
  arena = arena;
  position = 0;
  line = 1;
  column = 1;
  diagnostics = diagnostics;
  keep_newlines = true;
  scratch = [];
  scratch_capacity = 0;
}

unfoldable pub lexer_destroy : Lexer → Lexer
lexer_destroy lexer = record lexer { scratch = []; scratch_capacity = 0 }

abbrev pub is_ident_start : ℕ → Bool
is_ident_start byte =
    (byte == b'_') || (leb b'a' byte && leb byte b'z') || (leb b'A' byte && leb byte b'Z')

abbrev pub is_digit : ℕ → Bool
is_digit byte = leb b'0' byte && leb byte b'9'

abbrev pub is_ident_continue : ℕ → Bool
is_ident_continue byte = is_ident_start byte || is_digit byte

abbrev pub byte_at : Source → ℕ → ℕ
byte_at source position = get_or source.bytes position 0

abbrev pub size_of : Source → ℕ
size_of source = length source.bytes

abbrev pub loop_fuel : Source → ℕ
loop_fuel source = suc (size_of source)

unfoldable pub lexer_emit : Source → Lexer → ℕ → ℕ → ℕ → List ℕ → Lexer
lexer_emit source lexer id line column message = record lexer {
  diagnostics = diagnostic_emit lexer.diagnostics (record {
    id = id;
    phase = diag_lex;
    source = some source;
    line = line;
    column = column;
    message = message;
  });
}
