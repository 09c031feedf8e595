-- ===== src/Tests/Runtime/Texts.antt =====
-- The string routines of src/runtime/target_string.c on short texts.
use cc.Base.{ℕ, ◌≡◌, ◌↔◌, refl, arith, some, List, [], ◌∷◌, length}
use cc.Runtime.Memory.{same}
use cc.Runtime.Strings.{strcmp, strcat, strstr}
use cc.Runtime.Strings.Content.{Holds, ends, byte, lexical, strcmp-lexical, strcat-append}
use cc.Runtime.Strings.Search.{Finds, strstr-Finds}

abbrev aba : List ℕ
aba = 97 ∷ 98 ∷ 97 ∷ 0 ∷ 7 ∷ []

abbrev ba : List ℕ
ba = 98 ∷ 97 ∷ 0 ∷ []

aba-Holds : Holds aba (97 ∷ 98 ∷ 97 ∷ [])
aba-Holds = byte 97 refl (byte 98 refl (byte 97 refl (ends (7 ∷ []))))

ba-Holds : Holds ba (98 ∷ 97 ∷ [])
ba-Holds = byte 98 refl (byte 97 refl (ends []))

strcmp-lexical_example :
    (strcmp aba ba ≡ some (lexical (97 ∷ 98 ∷ 97 ∷ []) (98 ∷ 97 ∷ [])))
    × ((strcmp aba ba ≡ some same) ↔ (◌≡◌ {A = List ℕ} (97 ∷ 98 ∷ 97 ∷ []) (98 ∷ 97 ∷ [])))
strcmp-lexical_example = strcmp-lexical aba-Holds ba-Holds

abbrev with_room : List ℕ
with_room = 98 ∷ 97 ∷ 0 ∷ 1 ∷ 2 ∷ 3 ∷ 4 ∷ []

with_room-Holds : Holds with_room (98 ∷ 97 ∷ [])
with_room-Holds = byte 98 refl (byte 97 refl (ends (1 ∷ 2 ∷ 3 ∷ 4 ∷ [])))

strcat-append_example :
    (out : List ℕ) × (strcat with_room aba ≡ some out)
    × Holds out (98 ∷ 97 ∷ 97 ∷ 98 ∷ 97 ∷ [])
    × (length out ≡ 7)
strcat-append_example = strcat-append with_room-Holds aba-Holds (omega arith)

strstr-Finds_example : Finds (97 ∷ 98 ∷ 97 ∷ []) (98 ∷ 97 ∷ []) (strstr aba ba)
strstr-Finds_example = strstr-Finds aba-Holds ba-Holds
