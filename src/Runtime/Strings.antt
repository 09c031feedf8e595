-- ===== src/Runtime/Strings.antt =====
-- The string routines of src/runtime/target_string.c. A string argument is the list of bytes from the
-- pointer on, with a terminator somewhere in it; `none` is a read or write past its end. A destination
-- is an object of its own, as C asks of `strcpy`, `strncpy` and `strcat`.
pub mod Content
pub mod Search
use cc.Base.{ℕ, zero, suc, ◌+◌, Bool, true, false, not, ◌&&◌, ◌==◌, if◌then◌else◌}
use cc.Base.{Option, none, some, List, [], ◌∷◌, ◌>>=◌, u8}
use cc.Runtime.Memory.{Sign, below, same, above, compare_bytes}

-- `c ∷` on what a later step gives.
abbrev pub then_byte : ℕ → Option (List ℕ) → Option (List ℕ)
then_byte c rest = rest >>= λ cs. some (c ∷ cs)

unfoldable pub strlen : List ℕ → Option ℕ
strlen [] = none
strlen (c ∷ cs) = if c == 0 then some 0 else (strlen cs >>= λ n. some (suc n))

-- The destination, then the source.
unfoldable pub strcpy : List ℕ → List ℕ → Option (List ℕ)
strcpy ds [] = none
strcpy [] (c ∷ cs) = none
strcpy (d ∷ ds) (c ∷ cs) = if c == 0 then some (0 ∷ ds) else then_byte c (strcpy ds cs)

unfoldable pub pad : ℕ → List ℕ → Option (List ℕ)
pad zero ds = some ds
pad (suc n) [] = none
pad (suc n) (d ∷ ds) = then_byte 0 (pad n ds)

unfoldable pub strncpy : ℕ → List ℕ → List ℕ → Option (List ℕ)
strncpy zero ds cs = some ds
strncpy (suc n) ds [] = none
strncpy (suc n) [] (c ∷ cs) = if c == 0 then pad (suc n) [] else none
strncpy (suc n) (d ∷ ds) (c ∷ cs) =
    let padded = pad n ds in if c == 0 then then_byte 0 padded else then_byte c (strncpy n ds cs)

-- `strlen(destination)` bytes are passed over first.
unfoldable pub strcat : List ℕ → List ℕ → Option (List ℕ)
strcat [] cs = none
strcat (d ∷ ds) cs =
    let written = strcpy (d ∷ ds) cs in if d == 0 then written else then_byte d (strcat ds cs)

unfoldable pub strcmp : List ℕ → List ℕ → Option Sign
strcmp [] rs = none
strcmp (l ∷ ls) [] = none
strcmp (l ∷ ls) (r ∷ rs) =
    let more = strcmp ls rs in
    if not (l == r) then some (compare_bytes l r) else if l == 0 then some same else more

unfoldable pub strncmp : ℕ → List ℕ → List ℕ → Option Sign
strncmp zero ls rs = some same
strncmp (suc n) [] rs = none
strncmp (suc n) (l ∷ ls) [] = none
strncmp (suc n) (l ∷ ls) (r ∷ rs) =
    let more = strncmp n ls rs in
    if not (l == r) then some (compare_bytes l r) else if l == 0 then some same else more

-- A pointer into the text, as an offset, or NULL.
abbrev pub further : Option (Option ℕ) → Option (Option ℕ)
further found = found >>= λ p. some (p >>= λ n. some (suc n))

unfoldable pub strchr_from : List ℕ → ℕ → Option (Option ℕ)
strchr_from [] target = none
strchr_from (c ∷ cs) target =
    let more = further (strchr_from cs target) in
    if c == target then some (some 0) else if c == 0 then some none else more

unfoldable pub strchr : List ℕ → ℕ → Option (Option ℕ)
strchr text character = strchr_from text (u8 character)

-- The loop of `strrchr` at `index`, with what it has found.
unfoldable pub strrchr_from : List ℕ → ℕ → ℕ → Option ℕ → Option (Option ℕ)
strrchr_from [] target index found = none
strrchr_from (c ∷ cs) target index found =
    let found' = if c == target then some index else found in
    let more = strrchr_from cs target (suc index) found' in if c == 0 then some found' else more

unfoldable pub strrchr : List ℕ → ℕ → Option (Option ℕ)
strrchr text character = strrchr_from text (u8 character) 0 none

-- Is the byte in the string `accept`?
unfoldable pub accepted : ℕ → List ℕ → Option Bool
accepted c [] = none
accepted c (a ∷ accept) =
    let more = accepted c accept in
    if a == 0 then some false else if c == a then some true else more

unfoldable pub strpbrk : List ℕ → List ℕ → Option (Option ℕ)
strpbrk [] accept = none
strpbrk (c ∷ cs) accept =
    let more = further (strpbrk cs accept) in
    if c == 0
    then some none
    else (accepted c accept >>= λ found. if found then some (some 0) else more)

-- The inner loop of `strstr`: is the needle matched to its end?
unfoldable pub matches_here : List ℕ → List ℕ → Option Bool
matches_here text [] = none
matches_here [] (n ∷ needle) = if n == 0 then some true else none
matches_here (c ∷ text) (n ∷ needle) =
    let more = matches_here text needle in
    if n == 0 then some true else if c == n then more else some false

unfoldable pub strstr_from : List ℕ → List ℕ → Option (Option ℕ)
strstr_from [] needle = none
strstr_from (c ∷ cs) needle =
    let more = further (strstr_from cs needle) in
    if c == 0
    then some none
    else (matches_here (c ∷ cs) needle >>= λ found. if found then some (some 0) else more)

-- `needle[0] == '\0'` is looked at first.
unfoldable pub strstr : List ℕ → List ℕ → Option (Option ℕ)
strstr text [] = none
strstr text (n ∷ needle) = if n == 0 then some (some 0) else strstr_from text (n ∷ needle)
