-- ===== src/Abi/Slots.antt =====
-- `abi_assign_arguments` of src/backend/abi.c: registers are used in order and never twice, and the
-- slots of the argument area follow each other.
use cc.Base.{ℕ, ◌+◌, ◌*◌, ◌/◌, ◌%◌, ◌^◌, ◌≤◌, ◌<◌, ◌≡◌, ◌≢◌, refl, arith, sym, ap, ◌∙◌, subst}
use cc.Base.{Bool, true, if◌then◌else◌, Bool-cases, inl, inr}
use cc.Base.{Option, none, some, List, [], ◌∷◌, ◌++◌, u64}
use cc.Semantic.Store.{CType, deref}
use cc.Abi.Classify.{abi_aggregate_pieces}
use cc.Abi.Assign.{ArgSlot, Counters, round_up_8}
use cc.Abi.Assign.{after_placed, slots_and_size}
use cc.Abi.Assign.{place_argument, Placed, placed}
use cc.Abi.Assign.{too_large, Assigned, assigned, refused, behind, assign_loop, first_counters}
use cc.Abi.Assign.{abi_assign_arguments, no_pieces}
use cc.Abi.Walks.{Nested, abi_aggregate_pieces-some}
use cc.Abi.Pieces.{upward, upward-append}
use cc.Abi.Pieces.{round_up_8-multiple}
use cc.Abi.Places.{
  AreaStep, Places, PlacesPlaced, place_typed-Places, general_registers, vector_registers, on_stack,
}

-- The registers of the slots, in the order of the arguments.
abbrev pub all_generals : List ArgSlot → List ℕ
all_generals [] = []
all_generals (s ∷ slots) = general_registers s ++ all_generals slots

abbrev pub all_vectors : List ArgSlot → List ℕ
all_vectors [] = []
all_vectors (s ∷ slots) = vector_registers s ++ all_vectors slots

-- The bytes that the slots of the argument area occupy.
abbrev pub area_bytes : List ArgSlot → ℕ
area_bytes [] = 0
area_bytes (s ∷ slots) = (if on_stack s then s.size else 0) + area_bytes slots

-- The slots of the argument area follow each other without a gap from `at` on, at multiples of 8.
abbrev pub Tiles : ℕ → List ArgSlot → ℕ → Type 0
Tiles at [] end = at ≡ end
Tiles at (s ∷ slots) end =
    (on_stack s ≡ true → (s.stack_offset ≡ at) × (at % 8 ≡ 0))
    × Tiles (at + (if on_stack s then s.size else 0)) slots end

pub record Lays (c : Counters) (slots : List ArgSlot) (general vector stack : ℕ) : Type 0 where
  pub generals : ℕ
  pub vectors : ℕ
  pub general_list : all_generals slots ≡ upward c.general generals
  pub general_next : general ≡ c.general + generals
  pub general_bound : c.general ≤ 6 → general ≤ 6
  pub vector_list : all_vectors slots ≡ upward c.vector vectors
  pub vector_next : vector ≡ c.vector + vectors
  pub vector_bound : c.vector ≤ 8 → vector ≤ 8
  pub area :
      (q : ℕ)
      → c.stack ≡ q * 8
      → q * 8 + area_bytes slots < 2 ^ 63
      → Tiles (q * 8) slots stack × (stack % 8 ≡ 0)

abbrev pub LaysAssigned : Counters → Assigned → Type 0
LaysAssigned c (assigned slots c') = Lays c slots c'.general c'.vector c'.stack
LaysAssigned c refused = Unit
LaysAssigned c Assigned.stuck = ⊥

-- Slots that are tiled from the end of a step on.
abbrev Tiled : ℕ → List ArgSlot → ℕ → Type 0
Tiled next slots end =
    (q : ℕ)
    → next ≡ q * 8
    → q * 8 + area_bytes slots < 2 ^ 63
    → Tiles (q * 8) slots end × (end % 8 ≡ 0)

Tiled-eq :
    (next at : ℕ) (slots : List ArgSlot) (end : ℕ)
    → Tiled next slots end
    → next ≡ at
    → at % 8 ≡ 0
    → at + area_bytes slots < 2 ^ 63
    → Tiles at slots end × (end % 8 ≡ 0)
Tiled-eq next at slots end more e m room =
    subst (λ n. Tiles n slots end × (end % 8 ≡ 0)) {x = at / 8 * 8} {y = at} (omega arith)
      (more (at / 8) (omega arith) (omega arith))

-- The end of a slot that stands at `q * 8`.
slot_end :
    (stack q size : ℕ)
    → stack ≡ q * 8
    → q * 8 + size < 2 ^ 63
    → u64 (round_up_8 stack + size) ≡ q * 8 + size
slot_end stack q size at room = rw at (rw (round_up_8-multiple q (omega arith)) (omega arith))

area_next :
    (stack next q : ℕ) (slot : ArgSlot)
    → AreaStep stack slot next
    → stack ≡ q * 8
    → q * 8 + (if on_stack slot then slot.size else 0) < 2 ^ 63
    → (next ≡ q * 8 + (if on_stack slot then slot.size else 0))
      × ((q * 8 + (if on_stack slot then slot.size else 0)) % 8 ≡ 0)
area_next stack next q slot (m, offset, on_next, off_next) at = elim (Bool-cases (on_stack slot)) [
  | inl on ↦ rw on λ room. (on_next on ∙ slot_end stack q slot.size at room, omega arith)
  | inr off ↦ rw off λ room. (omega (arith, off_next off), omega arith)
]

-- One slot of the area in front of those behind it.
area_step :
    (stack next q end : ℕ) (slot : ArgSlot) (slots : List ArgSlot)
    → AreaStep stack slot next
    → Tiled next slots end
    → stack ≡ q * 8
    → q * 8 + area_bytes (slot ∷ slots) < 2 ^ 63
    → Tiles (q * 8) (slot ∷ slots) end × (end % 8 ≡ 0)
area_step stack next q end slot slots (m, offset, on_next, off_next) more at room =
    let n = area_next stack next q slot (m, offset, on_next, off_next) at (omega arith) in
    let t = Tiled-eq next _ slots end more n.0 n.1 (omega arith) in
    (
      (
        λ on. (offset on ∙ ap round_up_8 at ∙ round_up_8-multiple q (omega arith), omega arith),
        t.0,
      ),
      t.1,
    )

behind-Lays :
    (c c' : Counters) (slot : ArgSlot) (rest : Assigned)
    → Places c slot c'
    → LaysAssigned c' rest
    → LaysAssigned c (behind slot rest)
behind-Lays c c' slot refused p l = tt
behind-Lays c c' slot Assigned.stuck p l = l
behind-Lays c c' slot (assigned slots d) p l =
    let t = p.takes in
    record {
      generals = t.generals + l.generals;
      vectors = t.vectors + l.vectors;
      general_list =
          rw (t.general_list, l.general_list, t.general_next)
            (upward-append c.general t.generals l.generals);
      general_next = omega arith;
      general_bound = λ h. l.general_bound (t.general_bound h);
      vector_list =
          rw (t.vector_list, l.vector_list, t.vector_next)
            (upward-append c.vector t.vectors l.vectors);
      vector_next = omega arith;
      vector_bound = λ h. l.vector_bound (t.vector_bound h);
      area = λ q e room. area_step c.stack c'.stack q d.stack slot slots p.area l.area e room;
    }

after_placed-Lays :
    (c : Counters) (p : Placed) (rest : Counters → Assigned)
    → PlacesPlaced c p
    → ((c' : Counters) → LaysAssigned c' (rest c'))
    → LaysAssigned c (after_placed p rest)
after_placed-Lays c (placed slot c') rest h more = behind-Lays c c' slot (rest c') h (more c')
after_placed-Lays c too_large rest h more = tt
after_placed-Lays c Placed.stuck rest h more = absurd h

assign_loop-Lays :
    (fuel : ℕ) (store : List CType) (types : List ℕ) (c : Counters)
    → ((p : ℕ) → abi_aggregate_pieces fuel store p no_pieces ≢ none)
    → LaysAssigned c (assign_loop fuel store types c)
unfolding assign_loop place_argument
assign_loop-Lays fuel store [] c h = record {
  generals = 0;
  vectors = 0;
  general_list = refl;
  general_next = omega arith;
  general_bound = λ h. h;
  vector_list = refl;
  vector_next = omega arith;
  vector_bound = λ h. h;
  area = λ q e room. (sym e, omega arith);
}
assign_loop-Lays fuel store (type ∷ types) c h =
    after_placed-Lays c (place_argument fuel store type c) _
      (place_typed-Places fuel store type (deref store type) c (h type))
      (λ c'. assign_loop-Lays fuel store types c' h)

-- The result of `abi_assign_arguments`, for arguments whose walks end: the slots and the area's size.
pub record Assigns (first : ℕ) (slots : List ArgSlot) (size : ℕ) : Type 0 where
  pub generals : ℕ
  pub vectors : ℕ
  pub general_list : all_generals slots ≡ upward first generals
  pub general_bound : first + generals ≤ 6
  pub vector_list : all_vectors slots ≡ upward 0 vectors
  pub vector_bound : vectors ≤ 8
  pub area : area_bytes slots < 2 ^ 63 → Tiles 0 slots size × (size % 8 ≡ 0)

abbrev pub AssignsSome : ℕ → Option (List ArgSlot × ℕ) → Type 0
AssignsSome first none = ⊥
AssignsSome first (some (slots, size)) = Assigns first slots size

Tiles-end : (slots : List ArgSlot) (at end : ℕ) → Tiles at slots end → end ≡ at + area_bytes slots
Tiles-end [] at end t = omega arith
Tiles-end (s ∷ slots) at end t = omega (arith, Tiles-end slots _ end t.1)

slots_and_size-Assigns :
    (first : Bool) (a : Assigned)
    → LaysAssigned (first_counters first) a
    → AssignsSome (if first then 1 else 0) (slots_and_size a)
slots_and_size-Assigns first (assigned slots c) l = record {
  generals = l.generals;
  vectors = l.vectors;
  general_list = l.general_list;
  general_bound = ground (arith, l.general_bound, l.general_next);
  vector_list = l.vector_list;
  vector_bound = omega (arith, l.vector_bound (omega arith), l.vector_next);
  area = λ room.
      let t = l.area 0 (omega arith) (omega arith) in
      let end = Tiles-end slots 0 c.stack t.0 in
      let kept =
        ap round_up_8 {x = c.stack} {y = c.stack / 8 * 8} (omega arith)
        ∙ round_up_8-multiple (c.stack / 8) (omega arith) in
      subst (λ n. Tiles 0 slots n × (n % 8 ≡ 0)) {x = c.stack} (omega arith) t;
}
slots_and_size-Assigns first refused l = record {
  generals = 0;
  vectors = 0;
  general_list = refl;
  general_bound = ground arith;
  vector_list = refl;
  vector_bound = omega arith;
  area = λ room. (refl, refl);
}
slots_and_size-Assigns first Assigned.stuck l = l

-- On types that nest by a rank, with fuel above every rank, the assignment ends. The general pieces,
-- in the order of the arguments, then have the general registers from the first free one on, at most
-- six with a hidden result pointer; the vector pieces have the vector registers from 0 on, at most
-- eight; and where the slots in the argument area take less than 2 ^ 63 bytes, those slots follow each
-- other from 0 to the size of the area without a gap, each at a multiple of 8.
pub abi_assign_arguments-Assigns :
    (store : List CType) (rank : ℕ → ℕ) (fuel : ℕ) (types : List ℕ) (returns_memory : Bool)
    → Nested store rank
    → ((p : ℕ) → rank p < fuel)
    → AssignsSome
        (if returns_memory then 1 else 0)
        (abi_assign_arguments fuel store types returns_memory)
unfolding abi_assign_arguments
abi_assign_arguments-Assigns store rank fuel types returns_memory nested enough =
    slots_and_size-Assigns returns_memory _ (
      assign_loop-Lays fuel store types (first_counters returns_memory)
        (λ p. abi_aggregate_pieces-some store rank nested fuel p no_pieces (enough p)))
