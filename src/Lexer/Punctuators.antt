-- ===== src/Lexer/Punctuators.antt =====
-- The punctuators of src/frontend/lexer.c, and the loops of lexer_next that look for one and take it.
use cc.Base.{ℕ, ◌+◌, Bool, true, false, not, ◌||◌, Option, none, some, List, [], ◌∷◌, leb}
use cc.Base.{◌==◌, if◌then◌else◌, ◌>>=◌, codes}
use cc.Diagnostics.{Source}
use cc.Lexer.{Lexer, byte_at, size_of}
use cc.Lexer.Splices.{skip_splices, logical_position, advance_byte}
use cc.Lexer.Scan.{append_text}

unfoldable pub punctuators : List (List ℕ)
punctuators =
    codes "..."
    ∷ codes "<<="
    ∷ codes ">>="
    ∷ codes "->"
    ∷ codes "++"
    ∷ codes "--"
    ∷ codes "<<"
    ∷ codes ">>"
    ∷ codes "<="
    ∷ codes ">="
    ∷ codes "=="
    ∷ codes "!="
    ∷ codes "&&"
    ∷ codes "||"
    ∷ codes "+="
    ∷ codes "-="
    ∷ codes "*="
    ∷ codes "/="
    ∷ codes "%="
    ∷ codes "&="
    ∷ codes "^="
    ∷ codes "|="
    ∷ codes "##"
    ∷ codes "+"
    ∷ codes "-"
    ∷ codes "*"
    ∷ codes "/"
    ∷ codes "%"
    ∷ codes "="
    ∷ codes "<"
    ∷ codes ">"
    ∷ codes "!"
    ∷ codes "~"
    ∷ codes "&"
    ∷ codes "^"
    ∷ codes "|"
    ∷ codes "?"
    ∷ codes ":"
    ∷ codes ";"
    ∷ codes ","
    ∷ codes "."
    ∷ codes "("
    ∷ codes ")"
    ∷ codes "["
    ∷ codes "]"
    ∷ codes "{"
    ∷ codes "}"
    ∷ codes "#"
    ∷ []

-- The loop that compares one punctuator with what stands at `probe`.
unfoldable pub match_at : Source → List ℕ → ℕ → Option Bool
match_at source [] probe = some true
match_at source (c ∷ cs) probe = logical_position source probe >>= λ p.
    let rest = match_at source cs (p + 1) in
    if leb (size_of source) p || not (byte_at source p == c) then some false else rest

-- The first of the list that stands at `position`, or none.
unfoldable pub find_punctuator : Source → ℕ → List (List ℕ) → Option (Option (List ℕ))
find_punctuator source position [] = some none
find_punctuator source position (p ∷ ps) =
    let rest = find_punctuator source position ps in
    match_at source p position >>= λ found. if found then some (some p) else rest

-- The loop that appends one punctuator and steps over it.
unfoldable pub take_punctuator : Source → List ℕ → Lexer → Option Lexer
take_punctuator source [] lexer = some lexer
take_punctuator source (c ∷ cs) lexer = skip_splices source (append_text lexer c) >>= λ l.
    let rest = take_punctuator source cs (advance_byte l (byte_at source l.position)) in
    if leb (size_of source) l.position then some l else rest
