-- ===== src/Linker/Globals.antt =====
-- The global symbols of src/linker/linker.c: find_global, add_global, runtime_symbol_name and
-- resolve_symbols. The table is a list, and `put_global` writes through the pointer that find_global
-- gives.
use cc.Base.{ℕ, ◌+◌, ◌-◌, bit_and, Bool, true, false, not, ◌&&◌, ◌||◌, Option, none, some}
use cc.Base.{List, [], ◌∷◌, ◌++◌, get_elem?, set, ltb, ◌==◌, if◌then◌else◌, codes, u64, size_max}
use cc.Base.{u32_max}
use cc.Semantic.Predicates.{same_bytes}
use cc.Linker.Objects.{
  LinkSection, LinkSymbol, GlobalSymbol, OutputSection, Link, failed, stray, done,
}
use cc.Linker.Objects.{◌>>L◌}
use cc.Linker.Outputs.{complement}

unfoldable pub find_global : List GlobalSymbol → List ℕ → Option GlobalSymbol
find_global [] name = none
find_global (g ∷ gs) name =
    let more = find_global gs name in if same_bytes g.name name then some g else more

-- A write to the first global of that name.
unfoldable pub put_global : List GlobalSymbol → List ℕ → GlobalSymbol → List GlobalSymbol
put_global [] name global = []
put_global (g ∷ gs) name global =
    let more = put_global gs name global in if same_bytes g.name name then global ∷ gs else g ∷ more

abbrev pub new_global : List ℕ → GlobalSymbol
new_global name = record { name = name; address = 0; size = 0; defined = false; common = false }

unfoldable pub added : List GlobalSymbol → List ℕ → Option GlobalSymbol → List GlobalSymbol
added globals name none = globals ++ (new_global name ∷ [])
added globals name (some g) = globals

unfoldable pub add_global : List GlobalSymbol → List ℕ → List GlobalSymbol
add_global globals name = added globals name (find_global globals name)

unfoldable pub runtime_names : List (List ℕ)
runtime_names =
    codes "cc64_putc"
    ∷ codes "cc64_write"
    ∷ codes "cc64_read"
    ∷ codes "cc64_alloc"
    ∷ codes "cc64_free"
    ∷ codes "cc64_open"
    ∷ codes "cc64_create"
    ∷ codes "cc64_lseek"
    ∷ codes "cc64_close"
    ∷ codes "cc64_delete"
    ∷ codes "cc64_exit"
    ∷ codes "cc64_console_ready"
    ∷ codes "cc64_console_line"
    ∷ codes "cc64_time_fields"
    ∷ codes "cc64_date_fields"
    ∷ []

unfoldable pub is_name_of : List (List ℕ) → List ℕ → Bool
is_name_of [] name = false
is_name_of (n ∷ ns) name = let more = is_name_of ns name in if same_bytes name n then true else more

unfoldable pub runtime_symbol_name : List ℕ → Bool
runtime_symbol_name = is_name_of runtime_names

-- What resolve_symbols changes.
pub record Resolved : Type 0 where
  pub symbol : LinkSymbol
  pub outputs : List OutputSection
  pub globals : List GlobalSymbol

-- The address of a symbol that has a section. `none` is false; stray is a section or an output that is
-- not there.
unfoldable pub located : List OutputSection → LinkSymbol → Option LinkSection → Link LinkSymbol
located outputs symbol none = stray
located outputs symbol (some section) = elim (get_elem? outputs section.output_kind) [
  | none ↦ stray
  | some output ↦
      if ltb (size_max - symbol.value) section.output_offset
      then failed 0
      else done (record symbol {
        value = u64 (symbol.value + u64 (output.output_offset + section.output_offset));
        defined = true;
      })
]

unfoldable pub locate : List LinkSection → List OutputSection → LinkSymbol → Link LinkSymbol
locate sections outputs symbol =
    if symbol.section_index == u32_max
    then done symbol
    else located outputs symbol (get_elem? sections symbol.section_index)

-- A common symbol, with its place at `offset` of the last output.
unfoldable pub commoned : GlobalSymbol → LinkSymbol → ℕ → Link GlobalSymbol
commoned global symbol address =
    if global.defined && not global.common
    then failed 5020
    else if not global.defined || ltb global.size symbol.size
    then done
        (record global { address = address; size = symbol.size; defined = true; common = true })
    else done (record global { defined = true; common = true })

unfoldable pub place_common :
    List OutputSection
    → List GlobalSymbol
    → GlobalSymbol
    → LinkSymbol
    → OutputSection
    → Link Resolved
place_common outputs globals global symbol output =
    let offset = bit_and (output.size + 7) (complement 7) in
    let address = u64 (output.output_offset + offset) in
    if ltb (size_max - 7) output.size || ltb (size_max - offset) symbol.size
    then failed 0
    else (commoned global symbol address >>L λ g. done (record {
      symbol = record symbol { value = address; defined = true };
      outputs = set outputs 3 (record output { size = offset + symbol.size });
      globals = put_global globals symbol.name g;
    }))

-- `both_tentative`; the symbol is defined, so that it has a section.
unfoldable pub both_tentative : GlobalSymbol → LinkSymbol → Option LinkSection → Bool
both_tentative global symbol none = false
both_tentative global symbol (some section) =
    (symbol.kind == 1) && (section.kind == 3) && (global.size == symbol.size)

unfoldable pub define_global :
    List LinkSection
    → List OutputSection
    → List GlobalSymbol
    → GlobalSymbol
    → LinkSymbol
    → Link Resolved
define_global sections outputs globals global symbol =
    let same : Resolved = record { symbol = symbol; outputs = outputs; globals = globals } in
    if global.defined && symbol.defined && not global.common
    then (if not (both_tentative global symbol (get_elem? sections symbol.section_index))
          && not (runtime_symbol_name symbol.name)
        then failed 5020
        else done same)
    else if symbol.defined
    then done (record same {
      globals = put_global globals symbol.name (record global {
        address = symbol.value;
        size = symbol.size;
        defined = true;
        common = false;
      });
    })
    else done same

-- The symbol is in the table by now.
unfoldable pub bind_found :
    List LinkSection
    → List OutputSection
    → List GlobalSymbol
    → LinkSymbol
    → Option GlobalSymbol
    → Link Resolved
bind_found sections outputs globals symbol none = stray
bind_found sections outputs globals symbol (some global) =
    let is_common = symbol.kind == 4 && symbol.section_index == u32_max in
    if is_common
    then elim (get_elem? outputs 3) [
      | none ↦ stray
      | some output ↦ place_common outputs globals global symbol output
    ]
    else define_global sections outputs globals global symbol

unfoldable pub bind_symbol :
    List LinkSection → List OutputSection → List GlobalSymbol → LinkSymbol → Link Resolved
bind_symbol sections outputs globals symbol =
    let globals' = add_global globals symbol.name in
    if symbol.binding == 1
    then bind_found sections outputs globals' symbol (find_global globals' symbol.name)
    else done (record { symbol = symbol; outputs = outputs; globals = globals })

unfoldable pub resolve_symbol :
    List LinkSection → List OutputSection → List GlobalSymbol → LinkSymbol → Link Resolved
resolve_symbol sections outputs globals symbol =
    locate sections outputs symbol >>L λ s. bind_symbol sections outputs globals s

-- The loop over the symbols of one object.
unfoldable pub resolve_object :
    List LinkSection
    → List OutputSection
    → List GlobalSymbol
    → List LinkSymbol
    → Link (List LinkSymbol × List OutputSection × List GlobalSymbol)
resolve_object sections outputs globals [] = done ([], outputs, globals)
resolve_object sections outputs globals (s ∷ ss) =
    resolve_symbol sections outputs globals s >>L λ r.
    resolve_object sections r.outputs r.globals ss >>L λ (ss', outputs', globals').
    done (r.symbol ∷ ss', outputs', globals')
