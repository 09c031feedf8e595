-- ===== src/Lexer/Taken.antt =====
-- The bytes that src/frontend/lexer.c appends are those that it steps over: append_spliced, and the loops
-- over identifiers, numbers and quoted text end, with what they read in the scratch buffer.
use cc.Base.{ℕ, ◌+◌, ◌-◌, ◌≤◌, ◌<◌, ◌≡◌, refl, arith, Bool, true, false}
use cc.Base.{Option, none, some, List, [], ◌∷◌, ◌++◌, ltb, leb, ◌==◌, if◌then◌else◌}
use cc.Base.{Turn, again, leave, loop, Ends, Turns, Ends-bind, loop-Ends}
use cc.Base.{Bool-cases, inl, inr, ◌⊎◌, ltb→lt, ◌>>=◌}
use cc.Diagnostics.{Source}
use cc.Lexer.{Lexer, byte_at, size_of, loop_fuel, is_ident_continue}
use cc.Lexer.Splices.{splice_next, skip_splices, advance_byte, moved_line}
use cc.Lexer.Scan.{append_text, append_spliced, take_byte, ident_here, ident_turn, number_here}
use cc.Lexer.Scan.{number_turn, number_goes_on}
use cc.Lexer.Reads.{here, byte, Moves, Reads-length, Moves-trans, Moves-refl}
use cc.Lexer.Reads.{Plain, skip_splices-Skips}

abbrev pub Travels : Source → Lexer → Lexer → Type 0
Travels source l m = (t : List ℕ) × Moves source l m t

-- The same, and past `l` where that was not the end.
abbrev pub Passes : Source → Lexer → Lexer → Type 0
Passes source l m = Travels source l m × (l.position < size_of source → l.position < m.position)

module _ (source : Source) where
  pub Travels-trans : {l m n : Lexer} → Travels source l m → Travels source m n → Travels source l n
  Travels-trans (s, a) (t, b) = (s ++ t, Moves-trans source a b)

  pub Travels-le : (l m : Lexer) → Travels source l m → l.position ≤ m.position
  Travels-le l m (t, a) = omega (arith, Reads-length source a.reads)

  -- One byte is appended and stepped over.
  pub appended-Moves :
      (l : Lexer) (c : ℕ)
      → l.position < size_of source
      → splice_next source l.position ≡ none
      → byte_at source l.position ≡ c
      → Moves source l (advance_byte (append_text l c) c) (c ∷ [])
  unfolding append_text advance_byte moved_line
  appended-Moves l c less plain e = elim (Bool-cases (c == b'\n')) [
    | inl h ↦ rw h record {
      reads = rw (← e) (byte less plain here);
      appends = refl;
      same_arena = refl;
      same_keep = refl;
      stays = λ k. omega arith;
    }
    | inr h ↦ rw h record {
      reads = rw (← e) (byte less plain here);
      appends = refl;
      same_arena = refl;
      same_keep = refl;
      stays = λ k. omega arith;
    }
  ]

  advance_position : (l : Lexer) (c : ℕ) → (advance_byte l c).position ≡ l.position + 1
  unfolding advance_byte moved_line
  advance_position l c = ground arith

  append_position : (l : Lexer) (c : ℕ) → (append_text l c).position ≡ l.position
  unfolding append_text
  append_position l c = refl

  pub taken_position :
      (l : Lexer) (c : ℕ) → (advance_byte (append_text l c) c).position ≡ l.position + 1
  taken_position l c = rw (advance_position (append_text l c) c, append_position l c) refl

  spliced-Passes :
      (l m : Lexer)
      → Moves source l m []
      → Plain source m
      → (b : Bool) → ltb m.position (size_of source) ≡ b
      → Passes source l (if b then take_byte source m else m)
  spliced-Passes l m h plain true e = (
    (_, Moves-trans source h (appended-Moves m _ (ltb→lt _ _ e) plain refl)),
    λ less. omega (arith, taken_position m (byte_at source m.position), Travels-le l m ([], h)),
  )
  spliced-Passes l m h plain false e = (([], h), λ less. ground arith)

  pub append_spliced-Passes : (l : Lexer) → Ends (Passes source l) (append_spliced source l)
  unfolding append_spliced
  append_spliced-Passes l =
      Ends-bind _ (Passes source l) (skip_splices source l) _ (skip_splices-Skips source l)
        λ m (h, plain). spliced-Passes l m h plain _ refl

  abbrev pub rest_of : Lexer → ℕ
  rest_of m = size_of source - m.position

  -- The loop goes on at the byte where the lexer stands.
  abbrev pub Stopped : (Lexer → Bool) → Lexer → Lexer → Type 0
  Stopped goes l n = Travels source l n × ((size_of source ≤ n.position) ⊎ (goes n ≡ false))

  abbrev TextTurns : (Lexer → Bool) → Lexer → Lexer → Option (Turn Lexer) → Type 0
  TextTurns goes l m = Ends (Turns (Travels source l) (Stopped goes l) rest_of m)

  -- Another turn behind a step that appends.
  again-Turns :
      (goes : Lexer → Bool) (l m n : Lexer)
      → Travels source l n
      → m.position ≤ n.position
      → n.position < size_of source
      → TextTurns goes l m (append_spliced source n >>= λ k. some (again k))
  again-Turns goes l m n h le less =
      Ends-bind _ (Turns (Travels source l) (Stopped goes l) rest_of m) (append_spliced source n) _
        (append_spliced-Passes n) λ k (t, on). (Travels-trans h t, omega (arith, on less))

  abbrev pub in_identifier : Lexer → Bool
  in_identifier n = is_ident_continue (byte_at source n.position)

  ident_here-Turns :
      (l m n : Lexer)
      → Travels source l n
      → m.position ≤ n.position
      → TextTurns in_identifier l m (ident_here source n)
  unfolding ident_here
  ident_here-Turns l m n h le = elim (Bool-cases (leb (size_of source) n.position)) [
    | inl e ↦ rw e (h, inl (ground arith))
    | inr e ↦ elim (Bool-cases (is_ident_continue (byte_at source n.position))) [
      | inl f ↦ rw (e, f) (again-Turns in_identifier l m n h le (ground arith))
      | inr f ↦ rw (e, f) (h, inr f)
    ]
  ]

  abbrev pub in_number : Lexer → Bool
  in_number n = number_goes_on n.scratch (byte_at source n.position)

  number_here-Turns :
      (l m n : Lexer)
      → Travels source l n
      → m.position ≤ n.position
      → TextTurns in_number l m (number_here source n)
  unfolding number_here
  number_here-Turns l m n h le = elim (Bool-cases (leb (size_of source) n.position)) [
    | inl e ↦ rw e (h, inl (ground arith))
    | inr e ↦ elim (Bool-cases (number_goes_on n.scratch (byte_at source n.position))) [
      | inl f ↦ rw (e, f) (again-Turns in_number l m n h le (ground arith))
      | inr f ↦ rw (e, f) (h, inr f)
    ]
  ]

  -- A turn that skips splices first.
  skipping-Turns :
      (goes : Lexer → Bool) (body : Lexer → Option (Turn Lexer))
      → ((l m n : Lexer)
          → Travels source l n
          → m.position ≤ n.position
          → TextTurns goes l m (body n))
      → (l m : Lexer) → Travels source l m
      → (b : Bool) → ltb m.position (size_of source) ≡ b
      → TextTurns goes l m (if b then (skip_splices source m >>= body) else some (leave m))
  skipping-Turns goes body step l m h true e =
      Ends-bind _ (Turns (Travels source l) (Stopped goes l) rest_of m) (skip_splices source m) body
        (skip_splices-Skips source m)
        λ n (k, plain). step l m n (Travels-trans h ([], k)) (Travels-le m n ([], k))
  skipping-Turns goes body step l m h false e = (h, inl (ground arith))

  -- The loop over an identifier ends, at a byte that does not go on with it.
  pub identifier-Stopped :
      (l : Lexer) → Ends (Stopped in_identifier l) (loop (ident_turn source) (loop_fuel source) l)
  unfolding ident_turn
  identifier-Stopped l =
      loop-Ends (Travels source l) (Stopped in_identifier l) rest_of (ident_turn source)
        (λ m h. skipping-Turns in_identifier (ident_here source) ident_here-Turns l m h _ refl)
        (loop_fuel source) l (omega arith) ([], Moves-refl source l)

  pub number-Stopped :
      (l : Lexer) → Ends (Stopped in_number l) (loop (number_turn source) (loop_fuel source) l)
  unfolding number_turn
  number-Stopped l =
      loop-Ends (Travels source l) (Stopped in_number l) rest_of (number_turn source)
        (λ m h. skipping-Turns in_number (number_here source) number_here-Turns l m h _ refl)
        (loop_fuel source) l (omega arith) ([], Moves-refl source l)
