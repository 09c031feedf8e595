-- ===== src/Linker/Patched.antt =====
-- What one relocation of src/linker/linker.c writes into the payload.
use native.Mathlib.Nat.{mod-eq_of_lt}
use cc.Base.{ℕ, ◌+◌, ◌-◌, ◌^◌, ◌≤◌, ◌<◌, ◌≡◌, refl, arith, ◌⊎◌, inl, inr, subst, sym, Bool}
use cc.Base.{Option, none, some, List, length, get_elem?, ltb, ◌==◌, if◌then◌else◌, not}
use cc.Base.{◌||◌, true, false, Bool-cases, u64, ℤ}
use cc.Base.{◌-ℤ◌, to_int64, bit_and}
use cc.Linker.Bytes.{write_u32, write_u64}
use cc.Linker.RoundTrip.{Puts, PutsSome, put_bytes-Puts}
use cc.Linker.Objects.{LinkRelocation, LinkSection, LinkSymbol, GlobalSymbol, OutputSection, Link}
use cc.Linker.Objects.{failed, stray, done, ◌>>L◌}
use cc.Linker.Relocate.{
  Applied, ImageTable, ImageFormat, image_raw_com, image_mz64, checked_add_signed,
}
use cc.Linker.Relocate.{width_wrong, global_address, symbol_value}
use cc.Linker.Relocate.{
  relocation_position, written, data_table, data_target, apply_data64, word_of,
}
use cc.Linker.Relocate.{fits_int32, pc_target, fits_u32, section_target, apply_at, apply_relocation}
use cc.Linker.Layout.{get_elem?-lt}

-- Only the bytes from `position` on, `width` of them, have changed.
pub record Confined (position width : ℕ) (a b : List ℕ) : Type 0 where
  pub same_length : length b ≡ length a
  pub others : (j : ℕ) → (j < position) ⊎ (position + width ≤ j) → get_elem? b j ≡ get_elem? a j

-- The step fails, or changes the payload there; it never writes outside of it.
abbrev pub Patches : ℕ → ℕ → Applied → Link Applied → Type 0
Patches position width a (failed id) = Unit {0}
Patches position width a stray = ⊥
Patches position width a (done b) = Confined position width a.payload b.payload

Confined-refl : (position width : ℕ) (a : List ℕ) → Confined position width a a
Confined-refl position width a = record { same_length = refl; others = λ j h. refl }

Puts-Confined :
    {position value width : ℕ} {a b : List ℕ}
    → Puts a position value 0 width b
    → Confined position width a b
Puts-Confined h = record {
  same_length = h.same_length;
  others = λ j k. elim k [
    | inl below ↦ (h.others j).0 (omega arith)
    | inr above ↦ (h.others j).1 (omega arith)
  ];
}

written-Patches :
    (position value width : ℕ) (a : Applied) (o : Option (List ℕ))
    → PutsSome a.payload position value 0 width o
    → Patches position width a (written a o)
unfolding written
written-Patches position value width a none h = absurd h
written-Patches position value width a (some b) h = Puts-Confined h

write_u32-Patches :
    (position value : ℕ) (a : Applied)
    → position + 4 ≤ length a.payload
    → Patches position 4 a (written a (write_u32 a.payload position value))
unfolding write_u32
write_u32-Patches position value a h =
    written-Patches position value 4 a _ (put_bytes-Puts 4 0 a.payload position value (omega arith))

Patches-if :
    (position width : ℕ) (a : Applied) (b : Bool) (x y : Link Applied)
    → (b ≡ true → Patches position width a x)
    → (b ≡ false → Patches position width a y)
    → Patches position width a (if b then x else y)
Patches-if position width a true x y h k = h refl
Patches-if position width a false x y h k = k refl

module _ (position : ℕ) (a : Applied) where
  data_table-Patches :
      (table : Option ImageTable)
      → position + 8 ≤ length a.payload
      → Patches position 8 a (data_table a table position)
  unfolding data_table write_u64
  data_table-Patches none h = tt
  data_table-Patches (some table) h =
      written-Patches position 0 8 (record a { table = table }) _
        (put_bytes-Puts 8 0 a.payload position 0 (omega arith))

  data_target-Patches :
      (target : Option ℤ)
      → position + 8 ≤ length a.payload
      → Patches position 8 a (data_target a position target)
  unfolding data_target
  data_target-Patches none h = tt
  data_target-Patches (some target) h = data_table-Patches _ h

  apply_data64-Patches :
      (format : ImageFormat) (value : ℕ) (reloc : LinkRelocation)
      → position + 8 ≤ length a.payload
      → Patches position 8 a (apply_data64 format a value reloc position)
  unfolding apply_data64
  apply_data64-Patches image_raw_com value reloc h = tt
  apply_data64-Patches image_mz64 value reloc h =
      Patches-if position 8 a (not (bit_and position 7 == 0)) _ _ (λ k. tt)
        λ k. data_target-Patches _ h

  pc_target-Patches :
      (reloc : LinkRelocation) (target : Option ℤ)
      → position + 4 ≤ length a.payload
      → Patches position 4 a (pc_target a reloc position target)
  unfolding pc_target
  pc_target-Patches reloc none h = tt
  pc_target-Patches reloc (some target) h =
      let result : ℤ = target -ℤ to_int64 (u64 (position + reloc.width)) in
      Patches-if position 4 a (not (fits_int32 result)) (failed 5024) _ (λ k. tt)
        λ k. write_u32-Patches position (word_of result) a h

  section_target-Patches :
      (target : Option ℤ)
      → position + 4 ≤ length a.payload
      → Patches position 4 a (section_target a position target)
  unfolding section_target
  section_target-Patches none h = tt
  section_target-Patches (some target) h =
      Patches-if position 4 a (not (fits_u32 target)) (failed 5025) _ (λ k. tt)
        λ k. write_u32-Patches position (word_of target) a h

  -- With the width that the type has.
  apply_at-Patches :
      (format : ImageFormat) (symbol : LinkSymbol) (value : ℕ) (reloc : LinkRelocation)
      → width_wrong reloc ≡ false
      → position + reloc.width ≤ length a.payload
      → Patches position reloc.width a (apply_at format a symbol value reloc position)
  unfolding apply_at
  apply_at-Patches format symbol value reloc w h =
      Patches-if position reloc.width a (reloc.type == 5) _ _
        (λ e.
          let is_8 : reloc.width ≡ 8 = ground arith in
          subst (λ w. Patches position w a (apply_data64 format a value reloc position)) (sym is_8)
            (apply_data64-Patches format value reloc (omega arith)))
        λ e.
          Patches-if position reloc.width a (reloc.type == 1 || reloc.type == 2) _ _ (λ f. tt)
            λ f.
              Patches-if position reloc.width a (reloc.type == 3) _ _
                (λ g.
                  let is_4 : reloc.width ≡ 4 = ground arith in
                  subst
                    (λ w.
                      Patches position w a
                        (pc_target a reloc position (checked_add_signed value reloc.addend)))
                    (sym is_4) (pc_target-Patches reloc _ (omega arith)))
                λ g.
                  Patches-if position reloc.width a (reloc.type == 4) _ _
                    (λ k.
                      let is_4 : reloc.width ≡ 4 = ground arith in
                      subst
                        (λ w. Patches position w a (
                          section_target a position
                            (checked_add_signed symbol.original_value reloc.addend)))
                        (sym is_4) (section_target-Patches _ (omega arith)))
                    λ k. Confined-refl position reloc.width a.payload

-- The step fails, or writes inside the bytes that the relocation names; it never writes elsewhere.
abbrev pub Applies : OutputSection → LinkSection → LinkRelocation → Applied → Link Applied → Type 0
Applies output section reloc a (failed id) = Unit {0}
Applies output section reloc a stray = ⊥
Applies output section reloc a (done b) =
    Confined (output.output_offset + section.output_offset + reloc.offset) reloc.width a.payload
      b.payload

-- The place is the sum of the three offsets, and inside the payload.
abbrev Positions : OutputSection → LinkSection → LinkRelocation → ℕ → Link ℕ → Type 0
Positions output section reloc size (failed id) = Unit {0}
Positions output section reloc size stray = ⊥
Positions output section reloc size (done position) =
    (position ≡ output.output_offset + section.output_offset + reloc.offset)
    × (position + reloc.width ≤ size)

relocation_position-Positions :
    (size : ℕ) (output : OutputSection) (section : LinkSection) (reloc : LinkRelocation)
    → output.output_offset + section.output_offset + reloc.offset < 2 ^ 64
    → Positions output section reloc size (relocation_position size output section reloc)
unfolding relocation_position
relocation_position-Positions size output section reloc h =
    let inner : u64 (section.output_offset + reloc.offset) ≡ section.output_offset + reloc.offset =
      mod-eq_of_lt (omega arith) in
    let outer : u64 (output.output_offset + (section.output_offset + reloc.offset))
        ≡ output.output_offset + (section.output_offset + reloc.offset) =
      mod-eq_of_lt (omega arith) in
    rw (inner, outer)
      (positions (output.output_offset + (section.output_offset + reloc.offset)) (omega arith) _)
  where
    positions :
        (p : ℕ)
        → p ≡ output.output_offset + section.output_offset + reloc.offset
        → (b : Bool)
        → Positions output section reloc size (
            if b
            then failed 5023
            else if ltb size p || ltb (size - p) reloc.width
            then failed 5023
            else done p)
    positions p e true = tt
    positions p e false = elim (Bool-cases (ltb size p || ltb (size - p) reloc.width)) [
      | inl f ↦ rw f tt
      | inr f ↦ rw f (e, ground arith)
    ]

positioned-Applies :
    (output : OutputSection) (section : LinkSection) (reloc : LinkRelocation) (a : Applied)
    (format : ImageFormat) (symbol : LinkSymbol) (value : ℕ) (position : Link ℕ)
    → width_wrong reloc ≡ false
    → Positions output section reloc (length a.payload) position
    → Applies output section reloc a (position >>L λ p. apply_at format a symbol value reloc p)
positioned-Applies output section reloc a format symbol value (failed id) w h = tt
positioned-Applies output section reloc a format symbol value stray w h = absurd h
positioned-Applies output section reloc a format symbol value (done p) w (e, fits) =
    at_place _ (apply_at-Patches p a format symbol value reloc w fits)
  where
    at_place : (r : Link Applied) → Patches p reloc.width a r → Applies output section reloc a r
    at_place (failed id) h = tt
    at_place stray h = h
    at_place (done b) h = subst (λ q. Confined q reloc.width a.payload b.payload) e h

-- No access outside of an array.
abbrev pub IsTame : {A : Type 0} → Link A → Type 0
IsTame (failed id) = Unit {0}
IsTame stray = ⊥
IsTame (done a) = Unit {0}

global_address-IsTame : (g : Option GlobalSymbol) → IsTame (global_address g)
unfolding global_address
global_address-IsTame none = tt
global_address-IsTame (some g) = elim (Bool-cases g.defined) [ inl e ↦ rw e tt | inr e ↦ rw e tt ]

symbol_value-IsTame :
    (globals : List GlobalSymbol) (symbol : LinkSymbol) → IsTame (symbol_value globals symbol)
unfolding symbol_value
symbol_value-IsTame globals symbol = elim (Bool-cases (symbol.binding == 1)) [
  | inl e ↦ rw e (global_address-IsTame _)
  | inr e ↦ rw e tt
]

valued-Applies :
    (output : OutputSection) (section : LinkSection) (reloc : LinkRelocation) (a : Applied)
    (format : ImageFormat) (symbol : LinkSymbol) (value : Link ℕ)
    → width_wrong reloc ≡ false
    → output.output_offset + section.output_offset + reloc.offset < 2 ^ 64
    → IsTame value
    → Applies output section reloc a (
        value >>L λ v. relocation_position (length a.payload) output section reloc >>L λ p.
        apply_at format a symbol v reloc p)
valued-Applies output section reloc a format symbol (failed id) w h t = tt
valued-Applies output section reloc a format symbol stray w h t = absurd t
valued-Applies output section reloc a format symbol (done v) w h t =
    positioned-Applies output section reloc a format symbol v _ w
      (relocation_position-Positions (length a.payload) output section reloc h)

-- With a symbol that is in the table and offsets whose sum is a word, a relocation is refused, or
-- changes no byte of the payload but those that it names; it reads and writes nothing outside of an
-- array.
pub apply_relocation-Applies :
    (format : ImageFormat) (globals : List GlobalSymbol) (symbols : List LinkSymbol)
    (output : OutputSection) (section : LinkSection) (reloc : LinkRelocation) (a : Applied)
    → reloc.symbol_index < length symbols
    → output.output_offset + section.output_offset + reloc.offset < 2 ^ 64
    → Applies output section reloc a
        (apply_relocation format globals symbols output section reloc a)
unfolding apply_relocation
apply_relocation-Applies format globals symbols output section reloc a known h =
    let (symbol, e) = get_elem?-lt symbols reloc.symbol_index known in
    elim (Bool-cases (width_wrong reloc)) [
      | inl w ↦ rw w tt
      | inr w ↦
          rw (w, e)
            (valued-Applies output section reloc a format symbol _ w h
              (symbol_value-IsTame globals symbol))
    ]
