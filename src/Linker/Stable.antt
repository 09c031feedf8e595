-- ===== src/Linker/Stable.antt =====
-- resolve_symbols of src/linker/linker.c: the first definition of a global symbol stays.
use cc.Linker.Outputs.{complement}
use cc.Base.{
  ℕ, ◌+◌, ◌-◌, ◌≡◌, refl, ap, subst, sym, ◌∙◌, arith, Bool, true, false, not, ◌&&◌, ◌||◌, ltb,
}
use cc.Base.{
  ◌==◌, Option, none, some, List, [], ◌∷◌, ◌++◌, get_elem?, if◌then◌else◌, Bool-cases, inl, inr,
}
use cc.Base.{Option-cases, size_max, u64, u32_max, bit_and}
use cc.Semantic.Predicates.{same_bytes}
use cc.Semantic.Names.{same_bytes-eq}
use cc.Linker.Objects.{
  LinkSection, LinkSymbol, GlobalSymbol, OutputSection, Link, failed, stray, done,
}
use cc.Linker.Objects.{◌>>L◌}
use cc.Linker.Globals.{
  find_global, put_global, new_global, added, add_global, commoned, place_common,
}
use cc.Linker.Globals.{define_global, both_tentative, runtime_symbol_name, bind_found, bind_symbol}
use cc.Linker.Globals.{Resolved, locate, resolve_symbol, resolve_object}

-- A definition that is no common symbol stays what its name means.
abbrev pub Stable : List GlobalSymbol → List GlobalSymbol → Type 0
Stable before after =
    (name : List ℕ) (g : GlobalSymbol)
    → find_global before name ≡ some g
    → (g.defined && not g.common) ≡ true
    → find_global after name ≡ some g

abbrev pub IfDone : {A : Type 0} → (A → Type 0) → Link A → Type 0
IfDone P (failed id) = Unit {0}
IfDone P stray = Unit {0}
IfDone P (done a) = P a

pub IfDone-bind :
    {A B : Type 0} (P : A → Type 0) (Q : B → Type 0) (m : Link A) (f : A → Link B)
    → IfDone P m
    → ((a : A) → P a → IfDone Q (f a))
    → IfDone Q (m >>L f)
IfDone-bind P Q (failed id) f h k = tt
IfDone-bind P Q stray f h k = tt
IfDone-bind P Q (done a) f h k = k a h

IfDone-map :
    {A : Type 0} (P Q : A → Type 0) (m : Link A) → IfDone P m → ((a : A) → P a → Q a) → IfDone Q m
IfDone-map P Q (failed id) h k = tt
IfDone-map P Q stray h k = tt
IfDone-map P Q (done a) h k = k a h

pub IfDone-any : {A : Type 0} (m : Link A) → IfDone (λ a. Unit {0}) m
IfDone-any (failed id) = tt
IfDone-any stray = tt
IfDone-any (done a) = tt

pub IfDone-if :
    {A : Type 0} (P : A → Type 0) (b : Bool) (x y : Link A)
    → (b ≡ true → IfDone P x)
    → (b ≡ false → IfDone P y)
    → IfDone P (if b then x else y)
IfDone-if P true x y h k = h refl
IfDone-if P false x y h k = k refl

find_global-name :
    (gs : List GlobalSymbol) (name : List ℕ) {g : GlobalSymbol}
    → find_global gs name ≡ some g
    → g.name ≡ name
unfolding find_global
find_global-name [] name h = cc
find_global-name (x ∷ xs) name {g} h = elim (Bool-cases (same_bytes x.name name)) [
  | inl e ↦
      let f : some x ≡ some g = rw e at h in
      subst (λ (o : Option GlobalSymbol). elim o [ some y ↦ y.name ≡ name | none ↦ Unit {0} ]) f
        (same_bytes-eq x.name name e)
  | inr e ↦ find_global-name xs name (rw e at h)
]

-- A write through the pointer to a global changes what that name means, and no other name.
find_global-put :
    (gs : List GlobalSymbol) (name other : List ℕ) (g : GlobalSymbol)
    → g.name ≡ name
    → same_bytes name other ≡ false
    → find_global (put_global gs name g) other ≡ find_global gs other
unfolding find_global put_global
find_global-put [] name other g e ne = refl
find_global-put (x ∷ xs) name other g e ne = elim (Bool-cases (same_bytes x.name name)) [
  | inl f ↦
      let same : x.name ≡ name = same_bytes-eq x.name name f in
      let a : same_bytes x.name other ≡ false = rw same ne in
      let b : same_bytes g.name other ≡ false = rw e ne in rw f (rw (a, b) refl)
  | inr f ↦ rw f (
      ap (λ (o : Option GlobalSymbol). if same_bytes x.name other then some x else o)
        (find_global-put xs name other g e ne))
]

put_global-Stable :
    (gs : List GlobalSymbol) (name : List ℕ) (old g : GlobalSymbol)
    → find_global gs name ≡ some old
    → g.name ≡ name
    → (old.defined && not old.common) ≡ false
    → Stable gs (put_global gs name g)
put_global-Stable gs name old g found e weak other h there strong =
    elim (Bool-cases (same_bytes name other)) [
      | inl f ↦
          let same : name ≡ other = same_bytes-eq name other f in
          let is_old : some h ≡ some old =
            sym there ∙ subst (λ n. find_global gs n ≡ some old) same found in
          let not_strong : (h.defined && not h.common) ≡ false =
            subst
              (λ (o : Option GlobalSymbol). elim o [
                | some y ↦ (y.defined && not y.common) ≡ false
                | none ↦ Unit {0}
              ])
              (sym is_old) weak in
          absurd cc
      | inr f ↦ find_global-put gs name other g e f ∙ there
    ]

find_global-append :
    (gs more : List GlobalSymbol) (name : List ℕ) {g : GlobalSymbol}
    → find_global gs name ≡ some g
    → find_global (gs ++ more) name ≡ some g
unfolding find_global
find_global-append [] more name h = cc
find_global-append (x ∷ xs) more name h = elim (Bool-cases (same_bytes x.name name)) [
  | inl e ↦ rw e (rw e at h)
  | inr e ↦ rw e (find_global-append xs more name (rw e at h))
]

add_global-Stable : (gs : List GlobalSymbol) (name : List ℕ) → Stable gs (add_global gs name)
unfolding add_global added
add_global-Stable gs name other g there strong = elim (Option-cases (find_global gs name)) [
  | inl e ↦ rw e (find_global-append gs (new_global name ∷ []) other there)
  | inr (x, e) ↦ rw e there
]

commoned-name :
    (global : GlobalSymbol) (symbol : LinkSymbol) (address : ℕ)
    → IfDone
        (λ g. (g.name ≡ global.name) × ((global.defined && not global.common) ≡ false))
        (commoned global symbol address)
unfolding commoned
commoned-name global symbol address =
    IfDone-if _ (global.defined && not global.common) _ _ (λ e. tt)
      λ e.
        IfDone-if _ (not global.defined || ltb global.size symbol.size) _ _ (λ f. (refl, e))
          λ f. (refl, e)

abbrev Keeps : List GlobalSymbol → Link Resolved → Type 0
Keeps globals = IfDone (λ r. Stable globals r.globals)

module _ (globals : List GlobalSymbol) (symbol : LinkSymbol) (global : GlobalSymbol)
    (found : find_global globals symbol.name ≡ some global) where
  place_common-Keeps :
      (outputs : List OutputSection) (output : OutputSection)
      → Keeps globals (place_common outputs globals global symbol output)
  unfolding place_common
  place_common-Keeps outputs output =
      let offset = bit_and (output.size + 7) (complement 7) in
      let address = u64 (output.output_offset + offset) in
      IfDone-if (λ (r : Resolved). Stable globals r.globals)
        (ltb (size_max - 7) output.size || ltb (size_max - offset) symbol.size) (failed 0) _
        (λ e. tt)
        λ e.
          IfDone-bind _ (λ (r : Resolved). Stable globals r.globals)
            (commoned global symbol address) _ (commoned-name global symbol address)
            λ g (named, weak).
              put_global-Stable globals symbol.name global g found
                (named ∙ find_global-name globals symbol.name found) weak

  define_global-Keeps :
      (sections : List LinkSection) (outputs : List OutputSection)
      → Keeps globals (define_global sections outputs globals global symbol)
  unfolding define_global
  define_global-Keeps sections outputs =
      IfDone-if _ (global.defined && symbol.defined && not global.common) _ _
        (λ e.
          IfDone-if (λ (r : Resolved). Stable globals r.globals)
            (not (both_tentative global symbol (get_elem? sections symbol.section_index))
              && not (runtime_symbol_name symbol.name))
            (failed 5020) (done (record { symbol = symbol; outputs = outputs; globals = globals }))
            (λ f. tt) λ f n g h k. h)
        λ e.
          IfDone-if _ symbol.defined _ _
            (λ f.
              put_global-Stable globals symbol.name global _ found
                (find_global-name globals symbol.name found) (ground arith))
            λ f n g h k. h

bind_found-Keeps :
    (sections : List LinkSection) (outputs : List OutputSection) (globals : List GlobalSymbol)
    (symbol : LinkSymbol) (o : Option GlobalSymbol)
    → find_global globals symbol.name ≡ o
    → Keeps globals (bind_found sections outputs globals symbol o)
unfolding bind_found
bind_found-Keeps sections outputs globals symbol none e = tt
bind_found-Keeps sections outputs globals symbol (some global) e =
    IfDone-if _ (symbol.kind == 4 && symbol.section_index == u32_max) _ _
      (λ f. elim (Option-cases (get_elem? outputs 3)) [
        | inl g ↦ rw g tt
        | inr (output, g) ↦ rw g (place_common-Keeps globals symbol global e outputs output)
      ])
      λ f. define_global-Keeps globals symbol global e sections outputs

bind_symbol-Keeps :
    (sections : List LinkSection) (outputs : List OutputSection) (globals : List GlobalSymbol)
    (symbol : LinkSymbol)
    → Keeps globals (bind_symbol sections outputs globals symbol)
unfolding bind_symbol
bind_symbol-Keeps sections outputs globals symbol =
    IfDone-if _ (symbol.binding == 1) _ _
      (λ e.
        through _
          (bind_found-Keeps sections outputs (add_global globals symbol.name) symbol _ refl))
      λ e n g h k. h
  where
    through : (m : Link Resolved) → Keeps (add_global globals symbol.name) m → Keeps globals m
    through (failed id) h = tt
    through stray h = tt
    through (done r) h =
        λ n g there strong. h n g (add_global-Stable globals symbol.name n g there strong) strong

resolve_object-Keeps :
    (sections : List LinkSection) (outputs : List OutputSection) (globals : List GlobalSymbol)
    (symbols : List LinkSymbol)
    → IfDone (λ r. Stable globals r.2) (resolve_object sections outputs globals symbols)
unfolding resolve_object resolve_symbol
resolve_object-Keeps sections outputs globals [] = λ n g h k. h
resolve_object-Keeps sections outputs globals (s ∷ ss) =
    IfDone-bind (λ r. Stable globals r.globals) _ (resolve_symbol sections outputs globals s) _
      (IfDone-bind (λ t. Unit {0}) _ (locate sections outputs s) _
        (IfDone-any (locate sections outputs s))
        λ t k. bind_symbol-Keeps sections outputs globals t)
      λ r stable.
        IfDone-bind (λ q. Stable r.globals q.2) _ (resolve_object sections r.outputs r.globals ss) _
          (resolve_object-Keeps sections r.outputs r.globals ss)
          λ q later n g h k. later n g (stable n g h k) k

-- While the symbols of an object are resolved, a global symbol that has a definition that is not common
-- keeps it, with its address and size: a later definition is refused or ignored.
pub resolve_object-Stable :
    (sections : List LinkSection) (outputs : List OutputSection) (globals : List GlobalSymbol)
    (symbols : List LinkSymbol) (name : List ℕ) (g : GlobalSymbol)
    → find_global globals name ≡ some g
    → (g.defined && not g.common) ≡ true
    → IfDone (λ r. find_global r.2 name ≡ some g) (resolve_object sections outputs globals symbols)
resolve_object-Stable sections outputs globals symbols name g there strong =
    IfDone-map (λ r. Stable globals r.2) _ (resolve_object sections outputs globals symbols)
      (resolve_object-Keeps sections outputs globals symbols) λ r stable. stable name g there strong
