-- ===== src/Lexer/Tokens.antt =====
-- Lists of tokens in src/frontend/lexer.c, and the loop over a whole source: lex_source_marked. The
-- field `count` of a list is the length of `items`.
use cc.Base.{ℕ, ◌+◌, ◌*◌, ◌/◌, ◌-◌, Bool, true, false, not, ◌||◌, Option, none, some, List}
use cc.Base.{[], ◌∷◌, ◌++◌, map, length, get_elem?, ltb, leb, ◌==◌, if◌then◌else◌, ◌>>=◌, size_max}
use cc.Base.{Turn, again, leave, loop, codes}
use cc.Arena.{Arena}
use cc.Diagnostics.{Source, DiagnosticSink}
use cc.Lexer.{Lexer, Token, TokenKind, token_eof, token_newline, token_identifier, token_number}
use cc.Lexer.{token_character, token_string, token_punctuator, token_keyword, size_of, loop_fuel}
use cc.Lexer.{lexer_create, lexer_destroy}
use cc.Lexer.Next.{Scanned, lexer_next}
use cc.Semantic.Predicates.{same_bytes}

pub record TokenList : Type 0 where
  pub items : List Token
  pub capacity : ℕ

unfoldable pub token_kind_name : TokenKind → List ℕ
token_kind_name token_eof = codes "eof"
token_kind_name token_newline = codes "newline"
token_kind_name token_identifier = codes "identifier"
token_kind_name token_number = codes "number"
token_kind_name token_character = codes "character"
token_kind_name token_string = codes "string"
token_kind_name token_punctuator = codes "punctuator"
token_kind_name token_keyword = codes "keyword"

unfoldable pub keywords : List (List ℕ)
keywords =
    codes "auto"
    ∷ codes "break"
    ∷ codes "case"
    ∷ codes "char"
    ∷ codes "const"
    ∷ codes "continue"
    ∷ codes "default"
    ∷ codes "do"
    ∷ codes "double"
    ∷ codes "else"
    ∷ codes "enum"
    ∷ codes "extern"
    ∷ codes "float"
    ∷ codes "for"
    ∷ codes "goto"
    ∷ codes "if"
    ∷ codes "inline"
    ∷ codes "int"
    ∷ codes "long"
    ∷ codes "register"
    ∷ codes "restrict"
    ∷ codes "return"
    ∷ codes "short"
    ∷ codes "signed"
    ∷ codes "sizeof"
    ∷ codes "static"
    ∷ codes "struct"
    ∷ codes "switch"
    ∷ codes "typedef"
    ∷ codes "union"
    ∷ codes "unsigned"
    ∷ codes "void"
    ∷ codes "volatile"
    ∷ codes "while"
    ∷ codes "true"
    ∷ codes "false"
    ∷ codes "_Alignas"
    ∷ codes "_Alignof"
    ∷ codes "_Atomic"
    ∷ codes "_Bool"
    ∷ codes "_Complex"
    ∷ codes "_Generic"
    ∷ codes "_Imaginary"
    ∷ codes "_Noreturn"
    ∷ codes "_Static_assert"
    ∷ codes "_Thread_local"
    ∷ codes "static_assert"
    ∷ codes "__uint128_t"
    ∷ []

-- The loop over the keywords.
unfoldable pub is_keyword_of : List ℕ → List (List ℕ) → Bool
is_keyword_of text [] = false
is_keyword_of text (k ∷ ks) =
    let rest = is_keyword_of text ks in if same_bytes text k then true else rest

unfoldable pub classified_as : TokenKind → List ℕ → TokenKind
classified_as token_identifier text =
    if is_keyword_of text keywords then token_keyword else token_identifier
classified_as kind text = kind

unfoldable pub classify : Token → Token
classify token = record token { kind = classified_as token.kind token.text }

unfoldable pub token_list_classify_keywords : TokenList → TokenList
token_list_classify_keywords list = record list { items = map classify list.items }

unfoldable pub token_list_init : TokenList
token_list_init = record { items = []; capacity = 0 }

unfoldable pub token_list_free : TokenList → TokenList
token_list_free list = token_list_init

-- `sizeof(Token)`.
abbrev pub token_bytes : ℕ
token_bytes = 48

abbrev pub reserve_cap : ℕ
reserve_cap = 1365

abbrev pub list_step : ℕ
list_step = 4096

-- `none` is false. The list is no null pointer here.
unfoldable pub token_list_reserve : TokenList → ℕ → Option TokenList
token_list_reserve list capacity =
    let wanted = if ltb reserve_cap capacity then reserve_cap else capacity in
    if leb wanted list.capacity
    then some list
    else if ltb (size_max / token_bytes) wanted
    then none
    else some (record list { capacity = wanted })

unfoldable pub next_list_capacity : ℕ → ℕ
next_list_capacity capacity =
    if capacity == 0 then 32 else if ltb capacity 4096 then capacity * 2 else capacity + list_step

unfoldable pub token_list_push : TokenList → Token → Option TokenList
token_list_push list token =
    let next = next_list_capacity list.capacity in
    if length list.items == list.capacity
    then (if ltb (size_max / token_bytes) next
        then none
        else some (record { items = list.items ++ (token ∷ []); capacity = next }))
    else some (record list { items = list.items ++ (token ∷ []) })

unfoldable pub token_list_last : TokenList → Option Token
token_list_last list =
    if length list.items == 0 then none else get_elem? list.items (length list.items - 1)

-- What lex_source_marked leaves behind its pointers, and its answer.
pub record Lexed : Type 0 where
  pub lexer : Lexer
  pub list : TokenList
  pub slot : Token
  pub good : Bool

abbrev pub is_eof : TokenKind → Bool
is_eof token_eof = true
is_eof _ = false

-- Behind the push of the token that was scanned.
unfoldable pub pushed : Lexed → Scanned → Option TokenList → Turn Lexed
pushed s r none = leave (record s { lexer = lexer_destroy r.lexer; slot = r.token; good = false })
pushed s r (some list) =
    if not r.good || is_eof r.token.kind
    then leave (record { lexer = lexer_destroy r.lexer; list = list; slot = r.token; good = true })
    else again (record { lexer = r.lexer; list = list; slot = r.token; good = true })

-- The local `token` has no first value in each turn; here it keeps what the turn before left.
unfoldable pub lex_turn : Source → Lexed → Option (Turn Lexed)
lex_turn source s = lexer_next (loop_fuel source) source s.lexer s.slot >>= λ r.
    some (pushed s r (token_list_push s.list r.token))

-- `slot` is what stands where the local `token` will.
unfoldable pub lex_reserved :
    Arena → Source → DiagnosticSink → Token → Bool → Option TokenList → Option Lexed
lex_reserved arena source diagnostics slot keep none = some (record {
  lexer = record (lexer_create arena diagnostics) { keep_newlines = keep };
  list = token_list_init;
  slot = slot;
  good = false;
})
lex_reserved arena source diagnostics slot keep (some list) =
    loop (lex_turn source) (loop_fuel source) (record {
      lexer = record (lexer_create arena diagnostics) { keep_newlines = keep };
      list = list;
      slot = slot;
      good = true;
    })

unfoldable pub lex_source_marked : Arena → Source → DiagnosticSink → Token → Bool → Option Lexed
lex_source_marked arena source diagnostics slot keep =
    lex_reserved arena source diagnostics slot keep
      (token_list_reserve token_list_init (size_of source / 3 + 64))

unfoldable pub lex_source : Arena → Source → DiagnosticSink → Token → Option Lexed
lex_source arena source diagnostics slot = lex_source_marked arena source diagnostics slot true
