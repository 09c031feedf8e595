-- ===== src/Linker/Validated.antt =====
-- What an object has that read_object_file of src/linker/linker.c lets pass.
use cc.Base.{
  ℕ, zero, suc, ◌+◌, ◌-◌, ◌*◌, ◌^◌, ◌≤◌, ◌<◌, ◌≡◌, ◌≢◌, refl, arith, sym, ap, ◌∙◌, ◌⊎◌, inl, inr,
}
use cc.Base.{
  Bool, Bool-cases, true, false, not, ◌&&◌, ◌||◌, ◌==◌, ltb, leb, if◌then◌else◌, Option, none, some,
}
use cc.Base.{
  List, [], ◌∷◌, ◌++◌, length, take, drop, get_elem?, All, u32, u32_max, ◌<<<◌, length-drop,
  to_int64,
}
use cc.Linker.Bytes.{read_u16, read_u32, read_u64}
use cc.Linker.Objects.{LinkRelocation, LinkSection, LinkSymbol, Link, done, ◌>>L◌}
use cc.Linker.Ranges.{LinkObject, range_ok}
use cc.Linker.Relocate.{width_wrong}
use cc.Linker.Placed.{IsSection}
use cc.Linker.Stable.{IfDone, IfDone-bind, IfDone-any}
use cc.Linker.Drive.{Loaded}
use cc.Linker.Read.{Tables, section_size, reloc_size, inside, refuse, cover_if}
use cc.Linker.SectionEntries.{
  SectionEntry, section_entry, name_at, bad_section, named_before, bad_relocation, read_relocations,
  read_section, read_sections,
}

-- A relocation of a section of `size` bytes, in an object with `count` symbols.
pub record IsRelocation (count size : ℕ) (r : LinkRelocation) : Type 0 where
  pub known : r.symbol_index < count
  pub fits : r.offset + r.width ≤ size
  pub typed : (1 ≤ r.type) × (r.type ≤ 5)
  pub right_width : width_wrong r ≡ false

pub record IsLoadedSection (count : ℕ) (s : LinkSection) : Type 0 where
  pub placeable : IsSection s
  pub has_output : s.kind ≤ 3
  pub relocations : All (IsRelocation count s.size) s.relocations

-- A symbol is undefined, or inside of a section that is there.
abbrev pub Stands : List LinkSection → LinkSymbol → Type 0
Stands sections s =
    (s.section_index ≡ u32_max)
    ⊎ ((section : LinkSection) × (get_elem? sections s.section_index ≡ some section)
        × (s.value ≤ section.size))

pub record IsLoaded (o : Loaded) : Type 0 where
  pub sections : All (IsLoadedSection (length o.symbols)) o.sections
  pub symbols : All (Stands o.sections) o.symbols

pub IfDone-inside :
    {A B : Type 0} (Q : B → Type 0) (o : Option A) (f : A → Link B)
    → ((a : A) → IfDone Q (f a))
    → IfDone Q (inside o >>L f)
IfDone-inside Q none f h = tt
IfDone-inside Q (some a) f h = h a

pub IfDone-then :
    {A B : Type 0} (Q : B → Type 0) (m : Link A) (f : A → Link B)
    → ((a : A) → IfDone Q (f a))
    → IfDone Q (m >>L f)
IfDone-then Q m f h = IfDone-bind (λ a. Unit {0}) Q m f (IfDone-any m) (λ a k. h a)

pub IfDone-refuse :
    {A : Type 0} (Q : A → Type 0) (id : ℕ) (bad : Bool) (next : Link A)
    → (bad ≡ false → IfDone Q next)
    → IfDone Q (refuse id bad next)
IfDone-refuse Q id true next h = tt
IfDone-refuse Q id false next h = h refl

-- The loop over relocations.
bad_relocation-IsRelocation :
    (count size : ℕ) (r : LinkRelocation) (reserved : ℕ)
    → bad_relocation count size r reserved ≡ false
    → IsRelocation count size r
bad_relocation-IsRelocation count size r reserved h = elim (Bool-cases (width_wrong r)) [
  | inl e ↦ absurd (ground (arith, e, h))
  | inr e ↦ record {
    known = ground (arith, h);
    fits = ground (arith, h);
    typed = (ground (arith, h), ground (arith, h));
    right_width = e;
  }
]

read_relocations-All :
    (left j : ℕ) (bytes : List ℕ) (table count size : ℕ)
    → IfDone (All (IsRelocation count size)) (read_relocations left j bytes table count size)
unfolding read_relocations
read_relocations-All zero j bytes table count size = tt
read_relocations-All (suc left) j bytes table count size =
    let Q = All (IsRelocation count size) in
    let at = table + u32 (j * reloc_size) in
    IfDone-inside Q (read_u64 bytes at) _ λ offset.
      IfDone-inside Q (read_u32 bytes (at + 8)) _ λ symbol_index.
        IfDone-inside Q (read_u32 bytes (at + 12)) _ λ type.
          IfDone-inside Q (read_u64 bytes (at + 16)) _ λ addend.
            IfDone-inside Q (read_u32 bytes (at + 24)) _ λ width.
              IfDone-inside Q (read_u32 bytes (at + 28)) _ λ reserved.
                let r : LinkRelocation = record {
                  offset = offset;
                  symbol_index = symbol_index;
                  type = type;
                  addend = to_int64 addend;
                  width = width;
                } in
                let more = read_relocations left (suc j) bytes table count size in
                let put : List LinkRelocation → Link (List LinkRelocation) =
                  λ rest. done (r ∷ rest) in
                IfDone-refuse Q 5011 (bad_relocation count size r reserved) (more >>L put) λ good.
                  IfDone-bind Q Q more put
                    (read_relocations-All left (suc j) bytes table count size)
                    (λ rest h. (bad_relocation-IsRelocation count size r reserved good, h))

-- The alignment of an entry.
abbrev Aligned : SectionEntry → Type 0
Aligned e = (e.alignment ≡ 0) ⊎ ((power : ℕ) × (power ≤ 15) × (e.alignment ≡ 2 ^ power))

power-cases :
    (power : ℕ)
    → ((if ltb 15 power then 0 else 1 <<< power) ≡ 0)
      ⊎ ((p : ℕ) × (p ≤ 15) × ((if ltb 15 power then 0 else 1 <<< power) ≡ 2 ^ p))
power-cases power = elim (Bool-cases (ltb 15 power)) [
  | inl e ↦ rw e (inl refl)
  | inr e ↦ rw e (inr (power, ground arith, omega arith))
]

section_entry-Aligned : (bytes : List ℕ) (at : ℕ) → IfDone Aligned (section_entry bytes at)
unfolding section_entry
section_entry-Aligned bytes at = IfDone-inside Aligned (read_u32 bytes at) _ λ a.
    IfDone-inside Aligned (read_u32 bytes (at + 4)) _ λ b.
      IfDone-inside Aligned (read_u32 bytes (at + 8)) _ λ c.
        IfDone-inside Aligned (read_u32 bytes (at + 12)) _ λ d.
          IfDone-inside Aligned (read_u32 bytes (at + 16)) _ λ e.
            IfDone-inside Aligned (read_u32 bytes (at + 20)) _ λ power.
              IfDone-inside Aligned (get_elem? bytes (at + 24)) _ λ f.
                IfDone-inside Aligned (get_elem? bytes (at + 25)) _ λ g.
                  IfDone-inside Aligned (read_u16 bytes (at + 26)) _ λ h.
                    IfDone-inside Aligned (read_u32 bytes (at + 28)) _ λ i.
                      IfDone-inside Aligned (read_u32 bytes (at + 32)) _ λ j.
                        IfDone-inside Aligned (read_u32 bytes (at + 36)) _ λ k. power-cases power

length-take_le : (n : ℕ) (xs : List ℕ) → n ≤ length xs → length (take n xs) ≡ n
length-take_le zero xs h = refl
length-take_le (suc n) [] h = absurd (omega arith)
length-take_le (suc n) (x ∷ xs) h = ap suc (length-take_le n xs (omega arith))

payload-length :
    (bytes : List ℕ) (offset size : ℕ)
    → range_ok offset size (length bytes) ≡ true
    → length (take size (drop offset bytes)) ≡ size
unfolding range_ok
payload-length bytes offset size h =
    length-take_le size (drop offset bytes) (omega (arith, length-drop offset bytes, range h))
  where
    range :
        (leb offset (length bytes) && leb size (length bytes - offset)) ≡ true
        → size ≤ length bytes - offset
    range k = ground arith

abbrev body : SectionEntry → List ℕ → List ℕ
body e bytes = if e.kind == 3 then [] else take e.payload_size (drop e.payload_offset bytes)

-- What the tests of an entry give.
record Passed (e : SectionEntry) (bytes : List ℕ) : Type 0 where
  small_kind : e.kind ≤ 3
  aligned : e.alignment ≢ 0
  ranged : e.kind ≢ 3 → range_ok e.payload_offset e.payload_size (length bytes) ≡ true

bad_section-Passed :
    (bytes : List ℕ) (t : Tables) (i : ℕ) (e : SectionEntry)
    → bad_section bytes t i e ≡ false
    → Passed e bytes
bad_section-Passed bytes t i e h =
    elim (Bool-cases (range_ok e.payload_offset e.payload_size (length bytes))) [
      | inl r ↦ record { small_kind = ground arith; aligned = λ k. ground arith; ranged = λ k. r }
      | inr r ↦ record {
        small_kind = ground arith;
        aligned = λ k. ground arith;
        ranged = λ k. absurd (ground (arith, k, r));
      }
    ]

Passed-IsSection :
    (e : SectionEntry) (bytes : List ℕ) (s : LinkSection)
    → Aligned e
    → Passed e bytes
    → s.alignment ≡ e.alignment
    → s.kind ≡ e.kind
    → s.size ≡ e.payload_size
    → s.bytes ≡ body e bytes
    → IsSection s
Passed-IsSection e bytes s (inl zero_alignment) p a k n b = absurd (p.aligned zero_alignment)
Passed-IsSection e bytes s (inr (power, small, is)) p a k n b = record {
  power = power;
  small = small;
  is_power = a ∙ is;
  sized = λ ne. elim (Bool-cases (e.kind == 3)) [
    | inl here_3 ↦ absurd (ne (k ∙ ground arith))
    | inr other ↦
        ap length b
        ∙ ap
            (λ (c : Bool).
              length (if c then [] else take e.payload_size (drop e.payload_offset bytes)))
            other
        ∙ payload-length bytes e.payload_offset e.payload_size (p.ranged (λ q. ground arith))
        ∙ sym n
  ];
}

abbrev LoadedFirst : ℕ → LinkSection × LinkObject → Type 0
LoadedFirst count r = IsLoadedSection count r.0

read_section-LoadedFirst :
    (bytes : List ℕ) (t : Tables) (i : ℕ) (e : SectionEntry) (object : LinkObject)
    (prior : List LinkSection)
    → Aligned e
    → IfDone (LoadedFirst t.symbol_count) (read_section bytes t i e object prior)
unfolding read_section
read_section-LoadedFirst bytes t i e object prior aligned =
    let Q = LoadedFirst t.symbol_count in
    IfDone-refuse Q 5009 (bad_section bytes t i e) _ λ good.
      IfDone-then Q (cover_if 5009 (not (e.kind == 3)) object e.payload_offset e.payload_size) _
        λ a.
          IfDone-then Q
            (cover_if 5009 (not (e.reloc_count == 0)) a e.reloc_offset (e.reloc_count * reloc_size))
            _
            λ b. IfDone-then Q (name_at 5010 bytes t e.name_offset) _ λ name.
              IfDone-refuse Q 5009 ((e.kind == 0 || e.kind == 1) && ltb e.alignment 16) _ λ big.
                IfDone-refuse Q 5009 (named_before name prior) _ λ new.
                  IfDone-bind (All (IsRelocation t.symbol_count e.payload_size)) Q
                    (read_relocations e.reloc_count 0 bytes e.reloc_offset t.symbol_count
                      e.payload_size)
                    _
                    (read_relocations-All e.reloc_count 0 bytes e.reloc_offset t.symbol_count
                      e.payload_size)
                    (λ relocations h.
                      let p = bad_section-Passed bytes t i e good in
                      record {
                        placeable = Passed-IsSection e bytes _ aligned p refl refl refl refl;
                        has_output = p.small_kind;
                        relocations = h;
                      })

All-snoc :
    {A : Type 0} (P : A → Type 0) (xs : List A) (y : A) → All P xs → P y → All P (xs ++ (y ∷ []))
All-snoc P [] y h k = (k, tt)
All-snoc P (x ∷ xs) y (h, hs) k = (h, All-snoc P xs y hs k)

abbrev pub AllFirst : ℕ → List LinkSection × LinkObject → Type 0
AllFirst count r = All (IsLoadedSection count) r.0

pub read_sections-AllFirst :
    (left i : ℕ) (bytes : List ℕ) (t : Tables) (object : LinkObject) (prior : List LinkSection)
    → All (IsLoadedSection t.symbol_count) prior
    → IfDone (AllFirst t.symbol_count) (read_sections left i bytes t object prior)
unfolding read_sections
read_sections-AllFirst zero i bytes t object prior h = h
read_sections-AllFirst (suc left) i bytes t object prior h =
    let at = t.section_offset + u32 (i * section_size) in
    let Q = AllFirst t.symbol_count in
    IfDone-bind Aligned Q (section_entry bytes at) _ (section_entry-Aligned bytes at) λ e aligned.
      IfDone-bind (LoadedFirst t.symbol_count) Q (read_section bytes t i e object prior) _
        (read_section-LoadedFirst bytes t i e object prior aligned)
        (λ r k.
          read_sections-AllFirst left (suc i) bytes t r.1 (prior ++ (r.0 ∷ []))
            (All-snoc (IsLoadedSection t.symbol_count) prior r.0 h k))
