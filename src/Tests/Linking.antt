-- ===== src/Tests/Linking.antt =====
-- The linker of src/linker/linker.c on two sections and a call between them.
use cc.Base.{◌≡◌, refl, arith, true, some, none, List, [], ◌∷◌, All}
use cc.Base.{codes, pos, negsuc}
use cc.Linker.Objects.{
  LinkRelocation, LinkSection, LinkSymbol, OutputSection, GlobalSymbol, Link, done,
}
use cc.Linker.Outputs.{place_sections, assign_bases, first_outputs}
use cc.Linker.Placed.{IsSection}
use cc.Linker.Layout.{HaveRoom, All-HaveRoom, need, Lays, place_sections-Lays}
use cc.Linker.Bases.{IsAligned, Stacked, assign_bases-Stacked}
use cc.Linker.Globals.{resolve_object, resolve_symbol, locate, located, bind_symbol, bind_found}
use cc.Linker.Globals.{define_global, add_global, added, find_global, put_global}
use cc.Semantic.Predicates.{same_bytes}
use cc.Base.{false, u32_max}
use cc.Linker.Relocate.{
  checked_add_signed, Applied, ImageTable, image_mz64, apply_relocation, pc_target,
}
use cc.Linker.Relocate.{append_image_relocation, apply_at}
use cc.Linker.Relocate.{symbol_value, relocation_position, written}
use cc.Linker.Bytes.{write_u32, put_bytes}
use cc.Runtime.Memory.{store}
use cc.Linker.Signed.{Sums, checked_add_signed-Sums}
use cc.Linker.Patched.{Applies, apply_relocation-Applies}
use cc.Linker.Word.{Links, pc_target-Links}
use cc.Linker.Sorted.{AppendsSome, append_image_relocation-Appends}
use cc.Linker.Stable.{IfDone, resolve_object-Stable}

abbrev call_main : LinkRelocation
call_main = record { offset = 1; symbol_index = 0; type = 3; addend = pos 0; width = 4 }

abbrev code : LinkSection
code = record {
  name = codes ".text";
  kind = 0;
  alignment = 16;
  bytes = 232 ∷ 0 ∷ 0 ∷ 0 ∷ 0 ∷ 195 ∷ [];
  size = 6;
  relocations = call_main ∷ [];
  output_offset = 0;
  output_kind = 0;
}

abbrev zeros : LinkSection
zeros = record code {
  name = codes ".bss";
  kind = 3;
  alignment = 8;
  bytes = [];
  size = 5;
  relocations = [];
}

abbrev two_sections : List LinkSection
two_sections = code ∷ zeros ∷ []

code-IsSection : IsSection code
code-IsSection = record { power = 4; small = omega arith; is_power = refl; sized = λ k. refl }

zeros-IsSection : IsSection zeros
zeros-IsSection = record {
  power = 3;
  small = omega arith;
  is_power = refl;
  sized = λ k. absurd (k refl);
}

first_outputs-HaveRoom : HaveRoom first_outputs (need two_sections)
first_outputs-HaveRoom =
    All-HaveRoom first_outputs (need two_sections)
      ((refl, omega arith), ((refl, omega arith), ((refl, omega arith), ((refl, omega arith), tt))))

place_sections-Lays_example :
    Lays first_outputs two_sections (place_sections true first_outputs two_sections)
place_sections-Lays_example =
    place_sections-Lays first_outputs two_sections (code-IsSection, (zeros-IsSection, tt))
      (omega arith, (omega arith, tt)) first_outputs-HaveRoom

first_outputs-IsAligned : All IsAligned first_outputs
first_outputs-IsAligned = (
  record { power = 4; small = omega arith; is_power = refl },
  (
    record { power = 4; small = omega arith; is_power = refl },
    (
      record { power = 3; small = omega arith; is_power = refl },
      (record { power = 3; small = omega arith; is_power = refl }, tt),
    ),
  ),
)

assign_bases-Stacked_example :
    (ps : List OutputSection) × (assign_bases 0 first_outputs ≡ some ps)
    × Stacked 0 first_outputs ps
assign_bases-Stacked_example =
    assign_bases-Stacked 0 first_outputs first_outputs-IsAligned (omega arith)

-- The two odd answers: a sum below zero, and one above INT64_MAX.
below_zero : checked_add_signed 2 (negsuc 3) ≡ none
unfolding checked_add_signed
below_zero = refl

above_max : checked_add_signed 0x8000_0000_0000_0005 (negsuc 0) ≡ some (pos 4)
unfolding checked_add_signed
above_max = refl

checked_add_signed-Sums_example : Sums 1000 (negsuc 3) (checked_add_signed 1000 (negsuc 3))
checked_add_signed-Sums_example =
    checked_add_signed-Sums 1000 (negsuc 3) (omega arith) (omega arith) (omega arith)

abbrev main_symbol : LinkSymbol
main_symbol = record {
  name = codes "main";
  value = 16;
  original_value = 0;
  section_index = 0;
  binding = 0;
  kind = 2;
  size = 6;
  defined = true;
}

abbrev payload : Applied
payload = record { payload = code.bytes; table = record { items = []; capacity = 0 } }

abbrev first_output_0 : OutputSection
first_output_0 = record {
  kind = 0;
  alignment = 16;
  bytes = code.bytes;
  size = 6;
  capacity = 256;
  output_offset = 0;
}

-- The call at 0 of what is at 16 skips eleven bytes.
call_runs :
    apply_relocation image_mz64 [] (main_symbol ∷ []) first_output_0 code call_main payload
    ≡ done (record payload { payload = 232 ∷ 11 ∷ 0 ∷ 0 ∷ 0 ∷ 195 ∷ [] })
unfolding apply_relocation symbol_value relocation_position apply_at pc_target checked_add_signed
    written write_u32 put_bytes store
call_runs = refl

apply_relocation-Applies_example :
    Applies first_output_0 code call_main payload
      (apply_relocation image_mz64 [] (main_symbol ∷ []) first_output_0 code call_main payload)
apply_relocation-Applies_example =
    apply_relocation-Applies image_mz64 [] (main_symbol ∷ []) first_output_0 code call_main payload
      (omega arith) (omega arith)

pc_target-Links_example :
    Links 16 (pos 0) 1 payload (pc_target payload call_main 1 (checked_add_signed 16 (pos 0)))
pc_target-Links_example =
    pc_target-Links 16 1 payload call_main refl (omega arith) (omega arith) (omega arith)
      (omega arith) (omega arith)

abbrev two_entries : ImageTable
two_entries = record {
  items =
      record { destination = 8; addend = pos 1 } ∷ record { destination = 24; addend = pos 2 } ∷ [];
  capacity = 2;
}

append_image_relocation-Appends_example :
    AppendsSome two_entries 16 (pos 3) (append_image_relocation two_entries 16 (pos 3))
append_image_relocation-Appends_example =
    append_image_relocation-Appends two_entries 16 (pos 3) ((omega arith, tt), (tt, tt))
      (omega arith) (omega arith)

abbrev global_main : LinkSymbol
global_main = record main_symbol { binding = 1 }

-- The table has main at 16; the object names main, and defines a helper at 6 of its first section.
abbrev strong_main : GlobalSymbol
strong_main = record { name = codes "main"; address = 16; size = 6; defined = true; common = false }

abbrev named_main : LinkSymbol
named_main = record main_symbol { value = 0; section_index = u32_max; binding = 1; defined = false }

abbrev helper : LinkSymbol
helper = record main_symbol { name = codes "help"; value = 6; binding = 1 }

abbrev resolved_pair : Link (List LinkSymbol × List OutputSection × List GlobalSymbol)
resolved_pair =
    resolve_object two_sections first_outputs (strong_main ∷ []) (named_main ∷ helper ∷ [])

-- The object is resolved, and the table gets the helper behind main.
resolved_runs :
    resolved_pair
    ≡ done (
      record named_main { defined = false } ∷ record helper { value = 6 } ∷ [],
      first_outputs,
      strong_main
          ∷ record { name = codes "help"; address = 6; size = 6; defined = true; common = false }
          ∷ [],
    )
unfolding resolve_object resolve_symbol locate located bind_symbol bind_found define_global
    add_global added find_global put_global same_bytes
resolved_runs = refl

main_is_first : find_global (strong_main ∷ []) (codes "main") ≡ some strong_main
unfolding find_global same_bytes
main_is_first = refl

resolve_object-Stable_example :
    IfDone (λ r. find_global r.2 (codes "main") ≡ some strong_main) resolved_pair
resolve_object-Stable_example =
    resolve_object-Stable two_sections first_outputs (strong_main ∷ []) (named_main ∷ helper ∷ [])
      (codes "main") strong_main main_is_first refl
