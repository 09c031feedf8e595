-- ===== src/Lexer/Skipped.antt =====
-- Moves of the lexer of src/frontend/lexer.c that take nothing from the arena.
use cc.Base.{ℕ, ◌+◌, ◌-◌, ◌≤◌, ◌<◌, ◌≡◌, refl, arith, ◌∙◌}
use cc.Base.{List, ◌==◌, Bool-cases, inl, inr}
use cc.Diagnostics.{Source}
use cc.Lexer.{Lexer, size_of, lexer_emit}
use cc.Lexer.Splices.{advance_byte, moved_line}
use cc.Lexer.Space.{two_on}
use cc.Lexer.Reads.{Fits, Moves, Reads-length}

-- From `l` to `m` nothing is taken from the arena, and the lexer stays inside the source.
pub record Skips (source : Source) (l m : Lexer) : Type 0 where
  pub ahead : l.position ≤ m.position
  pub same_arena : m.arena ≡ l.arena
  pub same_keep : m.keep_newlines ≡ l.keep_newlines
  pub stays : Fits source l → Fits source m

module _ (source : Source) where
  pub Skips-refl : (l : Lexer) → Skips source l l
  Skips-refl l = record { ahead = omega arith; same_arena = refl; same_keep = refl; stays = λ h. h }

  pub Skips-trans : {l m n : Lexer} → Skips source l m → Skips source m n → Skips source l n
  Skips-trans a b = record {
    ahead = omega (arith, a.ahead, b.ahead);
    same_arena = b.same_arena ∙ a.same_arena;
    same_keep = b.same_keep ∙ a.same_keep;
    stays = λ h. b.stays (a.stays h);
  }

  pub Moves-Skips : {l m : Lexer} {t : List ℕ} → Moves source l m t → Skips source l m
  Moves-Skips h = record {
    ahead = omega (arith, Reads-length source h.reads);
    same_arena = h.same_arena;
    same_keep = h.same_keep;
    stays = h.stays;
  }

  pub advance-Skips :
      (l : Lexer) (c : ℕ) → l.position < size_of source → Skips source l (advance_byte l c)
  unfolding advance_byte moved_line
  advance-Skips l c less = elim (Bool-cases (c == b'\n')) [
    | inl e ↦ rw e record {
      ahead = omega arith;
      same_arena = refl;
      same_keep = refl;
      stays = λ h. omega arith;
    }
    | inr e ↦ rw e record {
      ahead = omega arith;
      same_arena = refl;
      same_keep = refl;
      stays = λ h. omega arith;
    }
  ]

  pub emit-Skips :
      (l : Lexer) (id line column : ℕ) (message : List ℕ)
      → Skips source l (lexer_emit source l id line column message)
  unfolding lexer_emit
  emit-Skips l id line column message = record {
    ahead = omega arith;
    same_arena = refl;
    same_keep = refl;
    stays = λ h. h;
  }

  pub two_on-Skips : (l : Lexer) → l.position + 1 < size_of source → Skips source l (two_on l)
  two_on-Skips l less = record {
    ahead = omega arith;
    same_arena = refl;
    same_keep = refl;
    stays = λ h. omega arith;
  }

  abbrev pub left_at : Lexer → ℕ
  left_at m = size_of source - m.position

  pub advance_on : (l : Lexer) (c : ℕ) → (advance_byte l c).position ≡ l.position + 1
  unfolding advance_byte moved_line
  advance_on l c = ground arith
