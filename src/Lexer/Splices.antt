-- ===== src/Lexer/Splices.antt =====
-- Spliced lines and line ends of src/frontend/lexer.c: splice_at, skip_splices, logical_position,
-- advance_byte and skip_line_end.
use cc.Base.{ℕ, ◌+◌, not, ◌&&◌, ◌||◌, Option, none, some, ltb, leb, ◌==◌}
use cc.Base.{if◌then◌else◌, ◌>>=◌, Turn, again, leave, loop}
use cc.Diagnostics.{Source}
use cc.Lexer.{Lexer, byte_at, size_of, loop_fuel}

-- The position behind a backslash at `position` and the line end behind it; what splice_at and
-- logical_position both write out.
unfoldable pub splice_next : Source → ℕ → Option ℕ
splice_next source position =
    let return_here =
      ltb (position + 1) (size_of source) && (byte_at source (position + 1) == b'\r') in
    let next = if return_here then position + 2 else position + 1 in
    if not (byte_at source position == b'\\')
    then none
    else if leb (size_of source) next || not (byte_at source next == b'\n')
    then none
    else some (next + 1)

unfoldable pub moved_line : Lexer → ℕ → Lexer
moved_line lexer position = record lexer { position = position; line = lexer.line + 1; column = 1 }

-- `none` is false.
unfoldable pub splice_at : Source → Lexer → Option Lexer
splice_at source lexer = splice_next source lexer.position >>= λ next. some (moved_line lexer next)

unfoldable pub advance_byte : Lexer → ℕ → Lexer
advance_byte lexer byte =
    if byte == b'\n'
    then moved_line lexer (lexer.position + 1)
    else record lexer { position = lexer.position + 1; column = lexer.column + 1 }

unfoldable pub splice_turn : Lexer → Option Lexer → Turn Lexer
splice_turn lexer none = leave lexer
splice_turn lexer (some lexer') = again lexer'

unfoldable pub skip_turn : Source → Lexer → Option (Turn Lexer)
skip_turn source lexer =
    if ltb lexer.position (size_of source)
    then some (splice_turn lexer (splice_at source lexer))
    else some (leave lexer)

unfoldable pub skip_splices : Source → Lexer → Option Lexer
skip_splices source = loop (skip_turn source) (loop_fuel source)

unfoldable pub logical_next : ℕ → Option ℕ → Turn ℕ
logical_next position none = leave position
logical_next position (some next) = again next

unfoldable pub logical_turn : Source → ℕ → Option (Turn ℕ)
logical_turn source position =
    if leb (size_of source) position
    then some (leave position)
    else some (logical_next position (splice_next source position))

unfoldable pub logical_position : Source → ℕ → Option ℕ
logical_position source = loop (logical_turn source) (loop_fuel source)

-- Behind a carriage return, and the line feed that may follow it.
unfoldable pub behind_return : Source → Lexer → Lexer
behind_return source lexer =
    let feed =
      ltb (lexer.position + 1) (size_of source) && (byte_at source (lexer.position + 1) == b'\n') in
    moved_line lexer (if feed then lexer.position + 2 else lexer.position + 1)

unfoldable pub skip_line_end : Source → Lexer → Lexer
skip_line_end source lexer =
    let byte = byte_at source lexer.position in
    if leb (size_of source) lexer.position
    then lexer
    else if byte == b'\r'
    then behind_return source lexer
    else if byte == b'\n'
    then advance_byte lexer byte
    else lexer
