-- ===== src/Linker/Contents.antt =====
-- What write_linked_image of src/linker/linker.c puts into an MZ64 image, as one list of fields.
use mathlib.Core.List.{append_assoc}
use cc.Base.{ℕ, zero, suc, ◌+◌, ◌*◌, ◌≤◌, ◌≡◌, refl, arith, sym, ap, ◌∙◌}
use cc.Base.{Option, some, List, [], ◌∷◌, ◌++◌, length, set, take, drop, replicate}
use cc.Base.{◌>>=◌, u8, u32, ◌>>>◌, codes, from_int64, length-append, length-replicate, lt→ltb}
use cc.Base.{leb, true}
use cc.Runtime.Memory.{store}
use cc.Linker.Bytes.{put_bytes, write_u32, write_u64}
use cc.Linker.Objects.{ImageRelocation}
use cc.Linker.Image.{copy_into, put_entries, put_image}

-- The bytes of a value from the one at `i` on, the low one first.
abbrev pub bytes_of : ℕ → ℕ → ℕ → List ℕ
bytes_of zero i value = []
bytes_of (suc n) i value = u8 (value >>> (i * 8)) ∷ bytes_of n (suc i) value

abbrev pub word : ℕ → ℕ → List ℕ
word n value = bytes_of n 0 value

abbrev pub zeros : ℕ → List ℕ
zeros n = replicate n 0

abbrev pub entries : List ImageRelocation → List ℕ
entries [] = []
entries (r ∷ rs) = word 8 r.destination ++ (word 8 (from_int64 r.addend) ++ entries rs)

-- The 48 bytes of the header.
abbrev pub header : ℕ → ℕ → ℕ → ℕ → ℕ → List ℕ
header payload_size entry count offset memory_size =
    codes "MZ64"
    ++ (word 4 48
        ++ (word 8 payload_size
            ++ (word 4 entry
                ++ (zeros 4
                    ++ (word 4 count ++ (word 4 offset ++ (word 8 memory_size ++ zeros 8)))))))

length-bytes_of : (n i value : ℕ) → length (bytes_of n i value) ≡ n
length-bytes_of zero i value = refl
length-bytes_of (suc n) i value = ap suc (length-bytes_of n (suc i) value)

zeros-add : (a b : ℕ) → zeros (a + b) ≡ zeros a ++ zeros b
zeros-add zero b = ap zeros {x = 0 + b} {y = b} (omega arith)
zeros-add (suc a) b =
    ap zeros {x = suc a + b} {y = suc (a + b)} (omega arith) ∙ ap (λ t. 0 ∷ t) (zeros-add a b)

set-append :
    (xs : List ℕ) (y v : ℕ) (ys : List ℕ) → set (xs ++ (y ∷ ys)) (length xs) v ≡ xs ++ (v ∷ ys)
set-append [] y v ys = refl
set-append (x ∷ xs) y v ys = ap (λ t. x ∷ t) (set-append xs y v ys)

take-append : (xs ys : List ℕ) → take (length xs) (xs ++ ys) ≡ xs
take-append [] ys = refl
take-append (x ∷ xs) ys = ap (λ t. x ∷ t) (take-append xs ys)

drop-append : (xs ys : List ℕ) → drop (length xs) (xs ++ ys) ≡ ys
drop-append [] ys = refl
drop-append (x ∷ xs) ys = drop-append xs ys

store-append :
    (xs : List ℕ) (at y v : ℕ) (ys : List ℕ)
    → at ≡ length xs
    → store (xs ++ (y ∷ ys)) at v ≡ some (xs ++ (v ∷ ys))
unfolding store
store-append xs at y v ys h =
    rw
      (
        h,
        lt→ltb (length xs) (length (xs ++ (y ∷ ys))) (omega (arith, length-append xs (y ∷ ys))),
        set-append xs y v ys,
      )
      refl

-- A word behind what is written, where zeros are left.
put_bytes-append :
    (left i : ℕ) (xs : List ℕ) (at value : ℕ) (ys : List ℕ)
    → at + i ≡ length xs
    → put_bytes left i (xs ++ (zeros left ++ ys)) at value
      ≡ some (xs ++ (bytes_of left i value ++ ys))
unfolding put_bytes
put_bytes-append zero i xs at value ys h = refl
put_bytes-append (suc left) i xs at value ys h =
    let b = u8 (value >>> (i * 8)) in
    rw (store-append xs (at + i) 0 b (zeros left ++ ys) h) (
      ap (λ t. put_bytes left (suc i) t at value)
        (sym (append_assoc xs (b ∷ []) (zeros left ++ ys)))
      ∙ put_bytes-append left (suc i) (xs ++ (b ∷ [])) at value ys
          (omega (arith, h, length-append xs (b ∷ [])))
      ∙ ap some (append_assoc xs (b ∷ []) (bytes_of left (suc i) value ++ ys)))

le→leb : {a b : ℕ} → a ≤ b → leb a b ≡ true
le→leb h = ground arith

copy_into-append :
    (xs : List ℕ) (at : ℕ) (bytes ys : List ℕ)
    → at ≡ length xs
    → copy_into (xs ++ (zeros (length bytes) ++ ys)) at bytes ≡ some (xs ++ (bytes ++ ys))
unfolding copy_into
copy_into-append xs at bytes ys h =
    let n = length bytes in
    let z0 : ℕ = 0 in
    let z = zeros n in
    let size : length (xs ++ z) ≡ at + n =
      omega (arith, h, length-append xs z, length-replicate n z0) in
    let fits : leb (at + n) (length (xs ++ (z ++ ys))) ≡ true =
      le→leb (omega (arith, size, ap length (append_assoc xs z ys), length-append (xs ++ z) ys)) in
    let end : drop (at + n) (xs ++ (z ++ ys)) ≡ ys =
      ap (λ k. drop k (xs ++ (z ++ ys))) (sym size)
      ∙ ap (drop (length (xs ++ z))) (sym (append_assoc xs z ys))
      ∙ drop-append (xs ++ z) ys in
    let start : take at (xs ++ (z ++ ys)) ≡ xs =
      ap (λ k. take k (xs ++ (z ++ ys))) h ∙ take-append xs (z ++ ys) in
    rw (fits, end, start) refl

bind_some :
    (f : List ℕ → Option (List ℕ)) {x : Option (List ℕ)} {a : List ℕ} {y : Option (List ℕ)}
    → x ≡ some a
    → f a ≡ y
    → (x >>= f) ≡ y
bind_some f h k = ap (λ o. o >>= f) h ∙ k

put_entries-append :
    (rs : List ImageRelocation) (xs : List ℕ) (at : ℕ)
    → at ≡ length xs
    → put_entries rs at (xs ++ zeros (length rs * 16)) ≡ some (xs ++ entries rs)
unfolding put_entries write_u64
put_entries-append [] xs at h = refl
put_entries-append (r ∷ rs) xs at h =
    let a = word 8 r.destination in
    let b = word 8 (from_int64 r.addend) in
    let z = zeros (length rs * 16) in
    ap (λ t. put_entries (r ∷ rs) at (xs ++ t)) {x = zeros (suc (length rs) * 16)}
      {y = zeros 8 ++ (zeros 8 ++ z)}
      (ap zeros {x = suc (length rs) * 16} {y = 16 + length rs * 16} (omega arith)
        ∙ zeros-add 16 (length rs * 16))
    ∙ bind_some _ (put_bytes-append 8 0 xs at r.destination (zeros 8 ++ z) (omega (arith, h))) (
        ap (λ t. put_bytes 8 0 t (at + 8) (from_int64 r.addend) >>= λ u. put_entries rs (at + 16) u)
          (sym (append_assoc xs a (zeros 8 ++ z)))
        ∙ bind_some _
            (put_bytes-append 8 0 (xs ++ a) (at + 8) (from_int64 r.addend) z
              (omega (arith, h, length-append xs a)))
            (ap (λ t. put_entries rs (at + 16) t) (sym (append_assoc (xs ++ a) b z))
              ∙ put_entries-append rs ((xs ++ a) ++ b) (at + 16)
                  (omega (arith, h, length-append xs a, length-append (xs ++ a) b))
              ∙ ap some
                  (append_assoc (xs ++ a) b (entries rs) ∙ append_assoc xs a (b ++ entries rs))))

-- An image of zeros gets the header, the payload and the relocations, one behind the other.
pub put_image-fields :
    (entry : ℕ) (payload : List ℕ) (memory_size : ℕ) (rs : List ImageRelocation)
    → put_image (zeros (48 + length payload + length rs * 16)) entry payload memory_size rs
      ≡ some (
          header
            (length payload)
            (u32 entry)
            (u32 (length rs))
            (u32 (48 + length payload))
            memory_size
          ++ (payload ++ entries rs))
unfolding put_image write_u32 write_u64
put_image-fields entry payload memory_size rs =
    let p = length payload in
    let e = length rs * 16 in
    let z = zeros p ++ zeros e in
    let count = u32 (length rs) in
    let offset = u32 (48 + p) in
    let all = header p (u32 entry) count offset memory_size in
    let room : ℕ → List ℕ = λ n. zeros n ++ z in
    ap (λ t. put_image t entry payload memory_size rs)
      (zeros-add (48 + p) e
        ∙ ap (λ t. t ++ zeros e) (zeros-add 48 p)
        ∙ append_assoc (zeros 48) (zeros p) (zeros e))
    ∙ bind_some _ (copy_into-append [] 0 (codes "MZ64") (room 44) refl) (
        bind_some _ (put_bytes-append 4 0 (take 4 all) 4 48 (room 40) refl) (
          bind_some _ (put_bytes-append 8 0 (take 8 all) 8 p (room 32) refl) (
            bind_some _ (put_bytes-append 4 0 (take 16 all) 16 (u32 entry) (room 28) refl) (
              bind_some _ (put_bytes-append 4 0 (take 24 all) 24 count (room 20) refl) (
                bind_some _ (put_bytes-append 4 0 (take 28 all) 28 offset (room 16) refl) (
                  bind_some _ (put_bytes-append 8 0 (take 32 all) 32 memory_size (room 8) refl) (
                    bind_some _ (copy_into-append all 48 payload (zeros e) refl) (
                      ap (λ t. put_entries rs (48 + p) t) (sym (append_assoc all payload (zeros e)))
                      ∙ put_entries-append rs (all ++ payload) (48 + p)
                          (sym (length-append all payload))
                      ∙ ap some (append_assoc all payload (entries rs))))))))))
