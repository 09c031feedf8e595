-- ===== src/Lexer/Keywords.antt =====
-- token_list_classify_keywords of src/frontend/lexer.c: exactly the identifiers that are spelled like a
-- keyword become one.
use mathlib.Core.List.{Mem, mem-cons, not-mem-nil, mem-cons_self, mem-cons_of_mem}
use mathlib.Core.Logic.Or
use cc.Base.{ℕ, zero, suc, ◌≡◌, refl, ap, ◌↔◌, ◌⊎◌, inl, inr, true, false, List, [], ◌∷◌}
use cc.Base.{map, Option, some, length, get_elem?, Bool-cases, ◌>>=◌}
use cc.Lexer.{Token, TokenKind, token_eof, token_newline, token_identifier, token_number}
use cc.Lexer.{token_character, token_string, token_punctuator, token_keyword}
use cc.Lexer.Tokens.{TokenList, keywords, is_keyword_of, classified_as, classify}
use cc.Lexer.Tokens.{token_list_classify_keywords}
use cc.Semantic.Names.{same_bytes-eq, same_bytes_self}
use cc.Semantic.Predicates.{same_bytes}

-- The index at which a text stands in the list, or that it does not.
is_keyword_of-Mem :
    (text : List ℕ) (ks : List (List ℕ)) → is_keyword_of text ks ≡ true → Mem text ks
unfolding is_keyword_of
is_keyword_of-Mem text [] h = cc
is_keyword_of-Mem text (k ∷ ks) h = elim (Bool-cases (same_bytes text k)) [
  | inl e ↦ let f : text ≡ k = same_bytes-eq text k e in rw f mem-cons_self
  | inr e ↦ mem-cons_of_mem k (is_keyword_of-Mem text ks (rw e at h))
]

Mem-is_keyword_of :
    (text : List ℕ) (ks : List (List ℕ)) → Mem text ks → is_keyword_of text ks ≡ true
unfolding is_keyword_of
Mem-is_keyword_of text [] m = absurd (not-mem-nil m)
Mem-is_keyword_of text (k ∷ ks) m = elim (Bool-cases (same_bytes text k)) [
  | inl e ↦ rw e refl
  | inr e ↦
      let p : IsProp (is_keyword_of text ks ≡ true) = hlevel in
      rw e (
        Or.elim p (mem-cons.0 m)
          (λ f. let g : same_bytes text k ≡ true = rw (← f) (same_bytes_self text) in absurd cc)
          (Mem-is_keyword_of text ks))
]

length-map : (f : Token → Token) (ts : List Token) → length (map f ts) ≡ length ts
length-map f [] = refl
length-map f (t ∷ ts) = ap suc (length-map f ts)

get_elem?-map :
    (f : Token → Token) (ts : List Token) (i : ℕ) {t : Token}
    → get_elem? ts i ≡ some t
    → get_elem? (map f ts) i ≡ some (f t)
get_elem?-map f [] i h = cc
get_elem?-map f (u ∷ ts) zero h = ap (λ (o : Option Token). o >>= λ x. some (f x)) h
get_elem?-map f (u ∷ ts) (suc i) h = get_elem?-map f ts i h

-- Its kind is a keyword's exactly when it was, or when it is an identifier with the text of a keyword,
-- and a kind that does not become a keyword's stays.
abbrev pub Classified : TokenKind → List ℕ → TokenKind → Type 0
Classified kind text kind' =
    ((kind' ≡ token_keyword)
      ↔ ((kind ≡ token_keyword) ⊎ ((kind ≡ token_identifier) × Mem text keywords)))
    × ((kind' ≡ kind) ⊎ (kind' ≡ token_keyword))

other :
    (kind : TokenKind) (text : List ℕ)
    → (kind ≡ token_keyword → ⊥)
    → (kind ≡ token_identifier → ⊥)
    → Classified kind text kind
other kind text no_keyword no_identifier =
    (((λ h. inl h), λ h. elim h [ inl k ↦ k | inr k ↦ absurd (no_identifier k.0) ]), inl refl)

classified_as-Classified :
    (kind : TokenKind) (text : List ℕ) → Classified kind text (classified_as kind text)
unfolding classified_as
classified_as-Classified token_identifier text = elim (Bool-cases (is_keyword_of text keywords)) [
  | inl e ↦ rw e (((λ h. inr (refl, is_keyword_of-Mem text keywords e)), λ h. refl), inr refl)
  | inr e ↦ rw e (((λ h. absurd cc), wrong e), inl refl)
]
  where
    wrong :
        is_keyword_of text keywords ≡ false
        → (token_identifier ≡ token_keyword)
          ⊎ ((token_identifier ≡ token_identifier) × Mem text keywords)
        → token_identifier ≡ token_keyword
    wrong e (inl h) = h
    wrong e (inr (h, m)) = let g = Mem-is_keyword_of text keywords m in absurd cc
classified_as-Classified token_keyword text = (((λ h. inl refl), λ h. refl), inl refl)
classified_as-Classified token_eof text = other token_eof text (λ h. cc) (λ h. cc)
classified_as-Classified token_newline text = other token_newline text (λ h. cc) (λ h. cc)
classified_as-Classified token_number text = other token_number text (λ h. cc) (λ h. cc)
classified_as-Classified token_character text = other token_character text (λ h. cc) (λ h. cc)
classified_as-Classified token_string text = other token_string text (λ h. cc) (λ h. cc)
classified_as-Classified token_punctuator text = other token_punctuator text (λ h. cc) (λ h. cc)

-- The token at an index of the list is the one that was there, of the same source, text and place, and
-- its kind is a keyword's exactly when it was, or when it was an identifier with the text of a keyword;
-- a kind that does not become a keyword's stays. No token comes or goes.
pub token_list_classify_keywords-Classifies :
    (list : TokenList) (i : ℕ) (t : Token)
    → get_elem? list.items i ≡ some t
    → (kind' : TokenKind) × (get_elem? (token_list_classify_keywords list).items i
        ≡ some (record t { kind = kind' }))
      × Classified t.kind t.text kind'
      × (length (token_list_classify_keywords list).items ≡ length list.items)
unfolding token_list_classify_keywords classify
token_list_classify_keywords-Classifies list i t h = (
  classified_as t.kind t.text,
  get_elem?-map classify list.items i h,
  classified_as-Classified t.kind t.text,
  length-map classify list.items,
)
