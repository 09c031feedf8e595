-- ===== src/Lexer/Space.antt =====
-- White space and comments of src/frontend/lexer.c: skip_space.
use cc.Base.{ℕ, ◌+◌, Bool, true, false, ◌&&◌, ◌||◌, Option, none, some, ltb, leb, ◌==◌}
use cc.Base.{if◌then◌else◌, ◌>>=◌, Turn, again, leave, loop, codes}
use cc.Diagnostics.{Source}
use cc.Lexer.{Lexer, byte_at, size_of, loop_fuel, lexer_emit}
use cc.Lexer.Splices.{splice_at, skip_splices, advance_byte}

-- The lexer and what skip_space writes through its pointers.
pub record Space : Type 0 where
  pub lexer : Lexer
  pub has_space : Bool
  pub at_bol : Bool

abbrev pub is_line_end : ℕ → Bool
is_line_end byte = byte == b'\r' || byte == b'\n'

abbrev pub is_blank : ℕ → Bool
is_blank byte = byte == b' ' || byte == b'\t' || byte == 12 || byte == 11

abbrev pub two_on : Lexer → Lexer
two_on lexer = record lexer { position = lexer.position + 2; column = lexer.column + 2 }

unfoldable pub line_comment_byte : Source → Lexer → Turn Lexer
line_comment_byte source lexer =
    if leb (size_of source) lexer.position || is_line_end (byte_at source lexer.position)
    then leave lexer
    else again (record lexer { position = lexer.position + 1; column = lexer.column + 1 })

-- The loop to the end of the line.
unfoldable pub line_comment_turn : Source → Lexer → Option (Turn Lexer)
line_comment_turn source lexer =
    if ltb lexer.position (size_of source)
    then (skip_splices source lexer >>= λ l. some (line_comment_byte source l))
    else some (leave lexer)

unfoldable pub line_comment : Source → Space → Option (Turn Space)
line_comment source s = loop (line_comment_turn source) (loop_fuel source) (two_on s.lexer) >>= λ l.
    some (again (record s { lexer = l; has_space = true }))

abbrev pub closes : Source → ℕ → Bool
closes source position =
    ltb (position + 1) (size_of source)
    && (byte_at source position == b'*')
    && (byte_at source (position + 1) == b'/')

-- The loop to the end of the comment; the flag is `closed`.
unfoldable pub block_comment_turn : Source → Lexer × Bool → Option (Turn (Lexer × Bool))
block_comment_turn source (lexer, closed) =
    if ltb lexer.position (size_of source)
    then (if closes source lexer.position
        then some (leave (two_on lexer, true))
        else some (again (advance_byte lexer (byte_at source lexer.position), closed)))
    else some (leave (lexer, closed))

-- Behind the comment that began at `s`.
unfoldable pub behind_comment : Source → Space → Lexer × Bool → Space
behind_comment source s (lexer, true) = record s { lexer = lexer; has_space = true }
behind_comment source s (lexer, false) = record s {
  lexer =
      lexer_emit source lexer 1001 s.lexer.line s.lexer.column (codes "unterminated block comment");
}

unfoldable pub block_comment : Source → Space → Option (Turn Space)
block_comment source s =
    loop (block_comment_turn source) (loop_fuel source) (two_on s.lexer, false) >>= λ r.
    some (again (behind_comment source s r))

-- At a slash with `next` behind it.
unfoldable pub comment : Source → Space → ℕ → Option (Turn Space)
comment source s next =
    if next == b'/'
    then line_comment source s
    else if next == b'*'
    then block_comment source s
    else some (leave s)

unfoldable pub space_byte : Source → Space → ℕ → Option (Turn Space)
space_byte source s byte =
    if is_blank byte
    then some (again (record s { lexer = advance_byte s.lexer byte; has_space = true }))
    else if is_line_end byte
    then some (leave (record s { at_bol = true }))
    else if (byte == b'/') && ltb (s.lexer.position + 1) (size_of source)
    then comment source s (byte_at source (s.lexer.position + 1))
    else some (leave s)

unfoldable pub space_or_splice : Source → Space → Option Lexer → Option (Turn Space)
space_or_splice source s (some lexer) = some (again (record s { lexer = lexer }))
space_or_splice source s none = space_byte source s (byte_at source s.lexer.position)

unfoldable pub space_turn : Source → Space → Option (Turn Space)
space_turn source s =
    if ltb s.lexer.position (size_of source)
    then space_or_splice source s (splice_at source s.lexer)
    else some (leave s)

unfoldable pub skip_space : Source → Lexer → Option Space
skip_space source lexer = skip_splices source lexer >>= λ l.
    loop (space_turn source) (loop_fuel source)
      (record { lexer = l; has_space = false; at_bol = lexer.column == 1 })
