-- ===== src/Lexer/Gaps.antt =====
-- What stands between two tokens of a source of src/frontend/lexer.c: white space, comments, spliced line
-- ends, and line ends where no tokens are made of them.
use cc.Base.{ℕ, ◌+◌, ◌≤◌, ◌<◌, ◌≡◌, ◌≢◌, Bool, false, ◌⊎◌}
use cc.Base.{none, some, List, []}
use cc.Diagnostics.{Source}
use cc.Lexer.{byte_at, size_of}
use cc.Lexer.Splices.{splice_next}
use cc.Lexer.Reads.{Reads, here, splice, byte}

-- A space, a tab, a form feed or a vertical tab.
abbrev pub IsSpace : ℕ → Type 0
IsSpace b = (b ≡ b' ') ⊎ ((b ≡ b'\t') ⊎ ((b ≡ 12) ⊎ (b ≡ 11)))

abbrev pub IsBreak : ℕ → Type 0
IsBreak b = (b ≡ b'\n') ⊎ (b ≡ b'\r')

-- One end of a line: a line feed, a return and a line feed, or a return without one.
pub data LineEnd (source : Source) : ℕ → ℕ → Type 0 where
  feed : {p : ℕ} → p < size_of source → byte_at source p ≡ b'\n' → LineEnd source p (p + 1)
  return_feed :
      {p : ℕ}
      → p + 1 < size_of source
      → byte_at source p ≡ b'\r'
      → byte_at source (p + 1) ≡ b'\n'
      → LineEnd source p (p + 2)
  lone_return :
      {p : ℕ}
      → p < size_of source
      → byte_at source p ≡ b'\r'
      → (p + 1 < size_of source → byte_at source (p + 1) ≢ b'\n')
      → LineEnd source p (p + 1)

-- Bytes of one line, which spliced line ends do not end.
pub data InLine (source : Source) : ℕ → ℕ → Type 0 where
  line_start : {p : ℕ} → InLine source p p
  line_splice : {p q r : ℕ} → splice_next source p ≡ some q → InLine source q r → InLine source p r
  line_byte :
      {p r : ℕ}
      → p < size_of source
      → splice_next source p ≡ none
      → (IsBreak (byte_at source p) → ⊥)
      → InLine source (p + 1) r
      → InLine source p r

-- The line ends here, or the source.
abbrev pub AtBreak : Source → ℕ → Type 0
AtBreak source p = (size_of source ≤ p) ⊎ IsBreak (byte_at source p)

-- A star and a slash.
abbrev pub Closes : Source → ℕ → Type 0
Closes source p =
    (p + 1 < size_of source) × (byte_at source p ≡ b'*') × (byte_at source (p + 1) ≡ b'/')

-- Bytes of a comment none of which closes it.
pub data InBlock (source : Source) : ℕ → ℕ → Type 0 where
  block_start : {p : ℕ} → InBlock source p p
  block_byte :
      {p r : ℕ}
      → p < size_of source
      → (Closes source p → ⊥)
      → InBlock source (p + 1) r
      → InBlock source p r

-- Two bytes of the source.
abbrev pub Two : Source → ℕ → ℕ → ℕ → Type 0
Two source p a b = (p + 1 < size_of source) × (byte_at source p ≡ a) × (byte_at source (p + 1) ≡ b)

-- From one position to another there is no part of a token. A line end is none where `keep` is false.
pub data Gap (source : Source) (keep : Bool) : ℕ → ℕ → Type 0 where
  no_gap : {p : ℕ} → Gap source keep p p
  over_splice :
      {p q r : ℕ} → splice_next source p ≡ some q → Gap source keep q r → Gap source keep p r
  over_space :
      {p r : ℕ}
      → p < size_of source
      → IsSpace (byte_at source p)
      → Gap source keep (p + 1) r
      → Gap source keep p r
  over_line :
      {p q r : ℕ}
      → Two source p b'/' b'/'
      → InLine source (p + 2) q
      → AtBreak source q
      → Gap source keep q r
      → Gap source keep p r
  over_block :
      {p q r : ℕ}
      → Two source p b'/' b'*'
      → InBlock source (p + 2) q
      → Closes source q
      → Gap source keep (q + 2) r
      → Gap source keep p r
  over_open_block :
      {p q r : ℕ}
      → Two source p b'/' b'*'
      → InBlock source (p + 2) q
      → size_of source ≤ q
      → Gap source keep q r
      → Gap source keep p r
  over_line_end :
      {p q r : ℕ} → keep ≡ false → LineEnd source p q → Gap source keep q r → Gap source keep p r

module _ (source : Source) where
  pub InLine-trans : {p q r : ℕ} → InLine source p q → InLine source q r → InLine source p r
  InLine-trans line_start k = k
  InLine-trans (line_splice e h) k = line_splice e (InLine-trans h k)
  InLine-trans (line_byte less e n h) k = line_byte less e n (InLine-trans h k)

  pub InBlock-trans : {p q r : ℕ} → InBlock source p q → InBlock source q r → InBlock source p r
  InBlock-trans block_start k = k
  InBlock-trans (block_byte less n h) k = block_byte less n (InBlock-trans h k)

  pub Gap-trans :
      {keep : Bool} {p q r : ℕ} → Gap source keep p q → Gap source keep q r → Gap source keep p r
  Gap-trans no_gap k = k
  Gap-trans (over_splice e h) k = over_splice e (Gap-trans h k)
  Gap-trans (over_space less e h) k = over_space less e (Gap-trans h k)
  Gap-trans (over_line t b e h) k = over_line t b e (Gap-trans h k)
  Gap-trans (over_block t b e h) k = over_block t b e (Gap-trans h k)
  Gap-trans (over_open_block t b e h) k = over_open_block t b e (Gap-trans h k)
  Gap-trans (over_line_end n e h) k = over_line_end n e (Gap-trans h k)

  -- Where nothing was read there were splices alone.
  pub Reads-InLine : {p q : ℕ} {t : List ℕ} → Reads source p q t → t ≡ [] → InLine source p q
  Reads-InLine here e = line_start
  Reads-InLine (splice s h) e = line_splice s (Reads-InLine h e)
  Reads-InLine (byte less s h) e = cc

  pub Reads-Gap :
      {keep : Bool} {p q : ℕ} {t : List ℕ} → Reads source p q t → t ≡ [] → Gap source keep p q
  Reads-Gap here e = no_gap
  Reads-Gap (splice s h) e = over_splice s (Reads-Gap h e)
  Reads-Gap (byte less s h) e = cc
