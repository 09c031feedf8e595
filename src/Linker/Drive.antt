-- ===== src/Linker/Drive.antt =====
-- link_objects of src/linker/linker.c, from the objects that were read to the image, with the outer
-- loops of resolve_symbols and apply_relocations.
use cc.Base.{ℕ, ◌+◌, ◌-◌, Bool, false, not, ◌>>=◌, ◌||◌, Option, none, some, List, [], ◌∷◌}
use cc.Base.{length, get_elem?, set, ltb, ◌==◌, if◌then◌else◌, codes, u64, ◌-ℤ◌, to_int64}
use cc.Linker.Bytes.{write_u32}
use cc.Linker.Objects.{
  LinkSection, LinkSymbol, GlobalSymbol, OutputSection, Link, failed, stray, done, ◌>>L◌,
}
use cc.Linker.Outputs.{place_sections, assign_bases, first_outputs, output_append}
use cc.Linker.Globals.{find_global, resolve_object}
use cc.Linker.Relocate.{ImageFormat, Applied, apply_sections, word_of, fits_int32}
use cc.Linker.Image.{image_extents, flatten_outputs, linked_image}

-- An object that was read: its sections and its symbols.
pub record Loaded : Type 0 where
  pub sections : List LinkSection
  pub symbols : List LinkSymbol

-- A step that answers false without a diagnostic.
abbrev pub given : {A : Type 0} → Option A → Link A
given none = failed 0
given (some a) = done a

-- The loop over the objects that places their sections.
unfoldable pub place_objects :
    Bool → List OutputSection → List Loaded → Option (List OutputSection × List Loaded)
place_objects calloc_given outputs [] = some (outputs, [])
place_objects calloc_given outputs (o ∷ os) = do
  placed ← place_sections calloc_given outputs o.sections
  rest ← place_objects calloc_given placed.0 os
  some (rest.0, record o { sections = placed.1 } ∷ rest.1)

-- The loop over the objects of resolve_symbols.
unfoldable pub resolve_symbols :
    List OutputSection
    → List GlobalSymbol
    → List Loaded
    → Link (List Loaded × List OutputSection × List GlobalSymbol)
resolve_symbols outputs globals [] = done ([], outputs, globals)
resolve_symbols outputs globals (o ∷ os) =
    resolve_object o.sections outputs globals o.symbols >>L λ (symbols, outputs', globals').
    resolve_symbols outputs' globals' os >>L λ (os', outputs'', globals'').
    done (record o { symbols = symbols } ∷ os', outputs'', globals'')

-- The loop over the objects of apply_relocations.
unfoldable pub apply_relocations :
    ImageFormat → List GlobalSymbol → List OutputSection → List Loaded → Applied → Link Applied
apply_relocations format globals outputs [] a = done a
apply_relocations format globals outputs (o ∷ os) a =
    apply_sections format globals o.symbols outputs o.sections a >>L λ b.
    apply_relocations format globals outputs os b

-- The offset of the displacement in the stub, and the stub.
abbrev pub entry_call_field : ℕ
entry_call_field = 18

unfoldable pub entry_stub : List ℕ
entry_stub =
    0x48 ∷ 0x83 ∷ 0xec ∷ 0x28 ∷ 0x48 ∷ 0x89 ∷ 0x3c ∷ 0x24 ∷ 0x48 ∷ 0xc7 ∷ 0x44 ∷ 0x24 ∷ 0x10 ∷ 0 ∷ 0
    ∷ 0 ∷ 0 ∷ 0xe8 ∷ 0 ∷ 0 ∷ 0 ∷ 0 ∷ 0x89 ∷ 0xc1 ∷ 0x48 ∷ 0x83 ∷ 0xc4 ∷ 0x28 ∷ 0xb8 ∷ 0 ∷ 0x4c ∷ 0
    ∷ 0 ∷ 0x88 ∷ 0xc8 ∷ 0xcd ∷ 0x21 ∷ 0xc3 ∷ []

-- The test of the byte before the field.
abbrev pub calls_before : Option ℕ → Bool
calls_before none = false
calls_before (some byte) = byte == 0xe8

-- The outputs with the stub first.
unfoldable pub stub_outputs : Option OutputSection → Link (List OutputSection)
stub_outputs none = stray
stub_outputs (some first) =
    if not (calls_before (get_elem? entry_stub (entry_call_field - 1)))
    then failed 5042
    else given (output_append first entry_stub) >>L λ o. done (set first_outputs 0 o)

-- The call of the stub is patched.
unfoldable pub patch_entry : ℕ → ℕ → List ℕ → Link (List ℕ)
patch_entry field start payload =
    let displacement = to_int64 start -ℤ to_int64 (u64 (field + 4)) in
    if ltb (length payload) field || ltb (length payload - field) 4
    then failed 5028
    else if not (fits_int32 displacement)
    then failed 5028
    else (elim (write_u32 payload field (word_of displacement)) [
      | none ↦ stray
      | some payload' ↦ done payload'
    ])

abbrev pub is_defined : Option GlobalSymbol → Bool
is_defined none = false
is_defined (some g) = g.defined

abbrev pub address_of : Option GlobalSymbol → ℕ
address_of none = 0
address_of (some g) = g.address

unfoldable pub enter : ℕ → List GlobalSymbol → List ℕ → Link (List ℕ)
enter field globals payload =
    let start = find_global globals (codes "cc64_start") in
    if not (is_defined (find_global globals (codes "main")))
    then failed 5027
    else if not (is_defined start)
    then failed 5042
    else patch_entry field (address_of start) payload

-- The payload of the outputs; every failure here is 5034.
unfoldable pub flattened : List OutputSection → Option (ℕ × ℕ) → Link (List ℕ)
flattened outputs none = failed 5034
flattened outputs (some sizes) = elim (flatten_outputs outputs sizes.0) [
  | failed id ↦ failed 5034
  | stray ↦ stray
  | done payload ↦ done payload
]

-- The steps behind the placing.
unfoldable pub link_placed : Bool → ImageFormat → List OutputSection → List Loaded → Link (List ℕ)
link_placed calloc_given format outputs objects =
    resolve_symbols outputs [] objects >>L λ (objects', outputs', globals).
    flattened outputs' (image_extents outputs') >>L λ payload.
    apply_relocations format globals outputs' objects'
      (record { payload = payload; table = record { items = []; capacity = 0 } })
    >>L λ a. elim (get_elem? outputs' 0) [
      | none ↦ stray
      | some first ↦
          enter (u64 (first.output_offset + entry_call_field)) globals a.payload >>L λ entered.
          linked_image calloc_given format outputs' entered a.table.items
    ]

unfoldable pub link_objects : Bool → ImageFormat → List Loaded → Link (List ℕ)
link_objects calloc_given format objects =
    if length objects == 0
    then failed 5041
    else (stub_outputs (get_elem? first_outputs 0) >>L λ outputs.
        given (place_objects calloc_given outputs objects) >>L λ placed.
        given (assign_bases 0 placed.0) >>L λ based. link_placed calloc_given format based placed.1)
