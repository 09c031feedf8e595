-- ===== src/Tests/Lexing.antt =====
-- The lexer of src/frontend/lexer.c on short sources.
use cc.Base.{ℕ, ◌≡◌, refl, arith, true, false, some, none, List, [], ◌∷◌, map, Ends, Option, ◌>>=◌}
use cc.Base.{codes, turned, loop, length}
use cc.Arena.{Arena, arena_alloc, align_size, size_add, make_room, needs_block, new_block_capacity}
use cc.Arena.{block_capacity_for, push_block, bump}
use cc.Arena.Invariant.{IsArena}
use cc.Diagnostics.{Source, DiagnosticSink}
use cc.Lexer.{Lexer, Token, TokenKind, token_identifier, lexer_create}
use cc.Lexer.{token_number, lexer_destroy}
use cc.Lexer.Splices.{splice_next, splice_at, splice_turn, skip_turn, skip_splices, moved_line}
use cc.Lexer.Splices.{advance_byte, logical_next, logical_turn, logical_position, behind_return}
use cc.Lexer.Splices.{skip_line_end}
use cc.Lexer.Space.{
  Space, skip_space, space_turn, space_or_splice, space_byte, comment, line_comment,
}
use cc.Lexer.Space.{line_comment_turn, line_comment_byte}
use cc.Lexer.Scan.{scratch_begin, append_text, append_spliced, finish_token, token_stored, flags_of}
use cc.Lexer.Scan.{ident_turn, ident_here, number_turn, number_here, number_goes_on}
use cc.Lexer.Punctuators.{punctuators, match_at, find_punctuator, take_punctuator}
use cc.Lexer.Next.{next_eof, next_line, next_identifier, next_number, next_found, next_punctuator}
use cc.Lexer.Next.{next_byte, next_from, lexer_next}
use cc.Lexer.Tokens.{Lexed, TokenList, lex_source_marked, lex_reserved, lex_turn, pushed}
use cc.Lexer.Tokens.{token_list_push, token_list_reserve, token_list_init, next_list_capacity}
use cc.Lexer.Comments.{Clears, AtToken}
use cc.Lexer.Blank.{skip_space-Skips}
use cc.Lexer.Longest.{Finds, find_punctuator-Finds}
use cc.Lexer.Emitted.{Scans}
use cc.Lexer.Promise.{lexer_next-Scans}
use cc.Lexer.Starved.{IsStarved, lex_turn-never_ends}
use cc.Lexer.Keywords.{Classified, token_list_classify_keywords-Classifies}
use cc.Lexer.Tokens.{keywords, is_keyword_of, classified_as, classify, token_list_classify_keywords}
use cc.Lexer.{token_keyword}
use cc.Semantic.Predicates.{same_bytes}
use cc.Base.{get_elem?}

-- Two lines with a splice inside an operator and a comment.
abbrev sum_line : Source
sum_line = record { path = codes "sum.c"; bytes = codes "a+\\\n=1 // b\n"; id = 1 }

abbrev empty_arena : Arena
empty_arena = record { head = []; total = 0; limit = 100000; generation = 1; made = 0 }

abbrev no_diagnostics : DiagnosticSink
no_diagnostics = record { items = []; capacity = 0; limit = 0; warnings_are_errors = false }

abbrev blank_token : Token
blank_token = record {
  kind = token_number;
  flags = 0;
  source = sum_line;
  start = 0;
  end = 0;
  line = 0;
  column = 0;
  text = [];
}

abbrev texts_of : Option Lexed → Option (List (List ℕ))
texts_of r = r >>= λ s. some (map (λ (t : Token). t.text) s.list.items)

sum_line_tokens :
    texts_of (lex_source_marked empty_arena sum_line no_diagnostics blank_token true)
    ≡ some (codes "a" ∷ codes "+=" ∷ codes "1" ∷ codes "\n" ∷ [] ∷ [])
unfolding lex_source_marked lex_reserved lex_turn pushed token_list_push token_list_reserve
    token_list_init next_list_capacity loop turned lexer_create lexer_destroy lexer_next next_from
    next_byte next_eof next_line next_identifier next_number next_punctuator next_found
    find_punctuator match_at take_punctuator punctuators scratch_begin append_text append_spliced
    finish_token token_stored flags_of ident_turn ident_here number_turn number_here number_goes_on
    skip_space space_turn space_or_splice space_byte comment line_comment line_comment_turn
    line_comment_byte splice_next splice_at splice_turn skip_turn skip_splices moved_line
    advance_byte logical_next logical_turn logical_position behind_return skip_line_end arena_alloc
    align_size size_add make_room needs_block new_block_capacity block_capacity_for push_block bump
sum_line_tokens = refl

empty_arena-IsArena : IsArena empty_arena
empty_arena-IsArena = omega arith

abbrev at_start : Lexer
at_start = record {
  arena = empty_arena;
  position = 0;
  line = 1;
  column = 1;
  diagnostics = no_diagnostics;
  keep_newlines = true;
  scratch = [];
  scratch_capacity = 0;
}

lexer_next-Scans_example :
    Ends (Scans sum_line at_start) (lexer_next 13 sum_line at_start blank_token)
lexer_next-Scans_example =
    lexer_next-Scans sum_line 13 at_start blank_token (omega arith) (omega arith)
      (record { valid = empty_arena-IsArena; enough = omega arith }) (omega arith)

find_punctuator-Finds_example :
    Ends (Finds sum_line 1 punctuators) (find_punctuator sum_line 1 punctuators)
find_punctuator-Finds_example = find_punctuator-Finds sum_line 1

skip_space-Skips_example :
    Ends
      (λ (s : Space). Clears sum_line true at_start s.lexer × AtToken sum_line s.lexer.position)
      (skip_space sum_line at_start)
skip_space-Skips_example = skip_space-Skips sum_line true at_start

-- The arena is used up, and the slot holds a token that is not the end.
abbrev starved : Lexed
starved = record {
  lexer = record at_start {
    arena = record empty_arena { total = 100000; head = [] };
    position = 13;
  };
  list = record { items = []; capacity = 64 };
  slot = blank_token;
  good = true;
}

starved-IsStarved : IsStarved sum_line starved
unfolding arena_alloc align_size size_add
starved-IsStarved = record {
  at_end = omega arith;
  no_room = refl;
  stale = refl;
  stored = omega arith;
}

lex_turn-never_ends_example : loop (lex_turn sum_line) 1000000 starved ≡ none
lex_turn-never_ends_example =
    lex_turn-never_ends sum_line 1000000 starved starved-IsStarved (omega arith)

abbrev if_token : Token
if_token = record blank_token { kind = token_identifier; text = codes "if"; end = 2 }

abbrev two_tokens : TokenList
two_tokens = record { items = blank_token ∷ if_token ∷ []; capacity = 64 }

if_is_keyword :
    (token_list_classify_keywords two_tokens).items
    ≡ blank_token ∷ record if_token { kind = token_keyword } ∷ []
unfolding token_list_classify_keywords classify classified_as is_keyword_of keywords same_bytes
if_is_keyword = refl

token_list_classify_keywords-Classifies_example :
    (kind' : TokenKind) × (get_elem? (token_list_classify_keywords two_tokens).items 1
      ≡ some (record if_token { kind = kind' }))
    × Classified token_identifier (codes "if") kind'
    × (length (token_list_classify_keywords two_tokens).items ≡ 2)
token_list_classify_keywords-Classifies_example =
    token_list_classify_keywords-Classifies two_tokens 1 if_token refl
