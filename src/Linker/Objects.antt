-- ===== src/Linker/Objects.antt =====
-- The records of a loaded object and of the outputs in src/linker/linker.c. A name is the list of its
-- bytes, without the terminator; a list stands for an array and its count.
use cc.Base.{ℕ, ℤ, Bool, List}

pub record LinkRelocation : Type 0 where
  pub offset : ℕ
  pub symbol_index : ℕ
  pub type : ℕ
  pub addend : ℤ
  pub width : ℕ

-- `data` is no byte where it is NULL.
pub record LinkSection : Type 0 where
  pub name : List ℕ
  pub kind : ℕ
  pub alignment : ℕ
  pub bytes : List ℕ
  pub size : ℕ
  pub relocations : List LinkRelocation
  pub output_offset : ℕ
  pub output_kind : ℕ

pub record LinkSymbol : Type 0 where
  pub name : List ℕ
  pub value : ℕ
  pub original_value : ℕ
  pub section_index : ℕ
  pub binding : ℕ
  pub kind : ℕ
  pub size : ℕ
  pub defined : Bool

pub record GlobalSymbol : Type 0 where
  pub name : List ℕ
  pub address : ℕ
  pub size : ℕ
  pub defined : Bool
  pub common : Bool

-- `data` has the bytes that were appended; a common symbol adds to `size` alone.
pub record OutputSection : Type 0 where
  pub kind : ℕ
  pub alignment : ℕ
  pub bytes : List ℕ
  pub size : ℕ
  pub capacity : ℕ
  pub output_offset : ℕ

pub record ImageRelocation : Type 0 where
  pub destination : ℕ
  pub addend : ℤ

-- A function that returns false, with the number of the diagnostic that it emitted, 0 for none, or an
-- access outside of an array.
pub data Link (A : Type 0) : Type 0 where
  failed : ℕ → Link A
  stray : Link A
  done : A → Link A

infixl 5 ◌>>L◌
abbrev pub ◌>>L◌ : {A B : Type 0} → Link A → (A → Link B) → Link B
failed id >>L f = failed id
stray >>L f = stray
done a >>L f = f a
