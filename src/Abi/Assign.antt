-- ===== src/Abi/Assign.antt =====
-- The assignment of arguments to registers and to the argument area, of src/backend/abi.c.
use cc.Base.{ℕ, suc, ◌+◌, ◌-◌, Bool, true, false, not, ◌&&◌, ◌||◌, ◌==◌, ltb}
use cc.Base.{Option, none, some, List, [], ◌∷◌, if◌then◌else◌, u64, size_max, bit_and, take}
use cc.Semantic.Kind.{TypeKind, uint128, same_kind, is_record_kind}
use cc.Semantic.Store.{CType, deref}
use cc.Semantic.Predicates.{is_floating_kind}
use cc.Abi.Classify.{AggClass, general_class, sse_class, Aggregate, abi_aggregate_pieces}

-- `(value + mask) & ~mask` for the alignment of eight that every caller asks for.
unfoldable pub round_up_8 : ℕ → ℕ
round_up_8 value =
    if ltb (size_max - 7) value then size_max else bit_and (value + 7) 0xffff_ffff_ffff_fff8

-- `registers` holds the register number of each piece.
pub record ArgSlot : Type 0 where
  pub is_ok : Bool
  pub in_register : Bool
  pub memory : Bool
  pub pieces : ℕ
  pub classes : List AggClass
  pub registers : List ℕ
  pub stack_offset : ℕ
  pub size : ℕ

abbrev pub no_pieces : List AggClass
no_pieces = general_class ∷ general_class ∷ []

abbrev pub empty_slot : ArgSlot
empty_slot = record {
  is_ok = true;
  in_register = false;
  memory = false;
  pieces = 0;
  classes = no_pieces;
  registers = [];
  stack_offset = 0;
  size = 0;
}

-- The counters of `abi_assign_arguments`.
pub record Counters : Type 0 where
  pub general : ℕ
  pub vector : ℕ
  pub stack : ℕ

unfoldable pub need_vector : List AggClass → ℕ
need_vector [] = 0
need_vector (sse_class ∷ cs) = suc (need_vector cs)
need_vector (general_class ∷ cs) = need_vector cs

unfoldable pub need_general : List AggClass → ℕ
need_general [] = 0
need_general (sse_class ∷ cs) = need_general cs
need_general (general_class ∷ cs) = suc (need_general cs)

-- The second loop of `take_registers`.
unfoldable pub number_pieces : List AggClass → ℕ → ℕ → List ℕ
number_pieces [] general vector = []
number_pieces (sse_class ∷ cs) general vector = vector ∷ number_pieces cs general (suc vector)
number_pieces (general_class ∷ cs) general vector = general ∷ number_pieces cs (suc general) vector

-- The registers of the pieces and the counters behind them, if every piece has one left.
unfoldable pub take_registers : List AggClass → Counters → Option (List ℕ × Counters)
take_registers classes c =
    if ltb 6 (c.general + need_general classes) || ltb 8 (c.vector + need_vector classes)
    then none
    else some (
      number_pieces classes c.general c.vector,
      record c {
        general = c.general + need_general classes;
        vector = c.vector + need_vector classes;
      },
    )

-- The end of each branch that found no register: the argument area.
unfoldable pub to_stack : ArgSlot → Counters → ArgSlot × Counters
unfolding round_up_8
to_stack slot c =
    let stack = round_up_8 c.stack in
    (record slot { stack_offset = stack }, record c { stack = u64 (stack + slot.size) })

-- What follows `take_registers` for an argument of pieces. `stack_size` is the size that the slot has
-- in the argument area.
unfoldable pub after_registers :
    ArgSlot → ℕ → Counters → Option (List ℕ × Counters) → ArgSlot × Counters
after_registers slot stack_size c none = to_stack (record slot { size = stack_size }) c
after_registers slot stack_size c (some (registers, c')) =
    (record slot { in_register = true; registers = registers }, c')

-- An argument of pieces, `slot` being filled but for its place.
unfoldable pub place_pieces : ArgSlot → ℕ → Counters → ArgSlot × Counters
place_pieces slot stack_size c =
    after_registers slot stack_size c (take_registers (take slot.pieces slot.classes) c)

unfoldable pub place_uint128 : Counters → ArgSlot × Counters
place_uint128 c = place_pieces (record empty_slot { pieces = 2 }) 16 c

-- What is known of an aggregate; `none` ends the whole assignment with 0.
unfoldable pub place_aggregate : Aggregate → ℕ → Counters → Option (ArgSlot × Counters)
place_aggregate a size c =
    if a.count == 0 && not a.memory
    then some (record empty_slot { is_ok = false; classes = a.pieces }, c)
    else let bytes = round_up_8 size in
      let slot = record empty_slot { memory = a.memory; classes = a.pieces; size = bytes } in
      if bytes == size_max
      then none
      else if a.count == 0
      then some (to_stack slot c)
      else some (place_pieces (record slot { pieces = a.count }) bytes c)

unfoldable pub place_scalar : TypeKind → Counters → ArgSlot × Counters
place_scalar kind c =
    let slot = record empty_slot { size = 8 } in
    if is_floating_kind kind
    then (if ltb c.vector 8
        then (
          record slot {
            in_register = true;
            classes = sse_class ∷ general_class ∷ [];
            pieces = 1;
            registers = c.vector ∷ [];
          },
          record c { vector = suc c.vector },
        )
        else to_stack slot c)
    else if ltb c.general 6
    then (
      record slot { in_register = true; pieces = 1; registers = c.general ∷ [] },
      record c { general = suc c.general },
    )
    else to_stack slot c

-- What one round of the loop does with an argument. `stuck` is a walk that is stuck.
pub data Placed : Type 0 where
  placed : ArgSlot → Counters → Placed
  too_large stuck : Placed

abbrev pub placed_some : Option (ArgSlot × Counters) → Placed
placed_some none = too_large
placed_some (some (slot, c)) = placed slot c

abbrev pub placed_aggregate : Option Aggregate → ℕ → Counters → Placed
placed_aggregate none size c = stuck
placed_aggregate (some a) size c = placed_some (place_aggregate a size c)

abbrev pub placed_pair : ArgSlot × Counters → Placed
placed_pair (slot, c) = placed slot c

unfoldable pub place_typed : ℕ → List CType → ℕ → Option CType → Counters → Placed
place_typed fuel store type none c = placed (record empty_slot { is_ok = false }) c
place_typed fuel store type (some t) c =
    if same_kind t.kind uint128
    then placed_pair (place_uint128 c)
    else if is_record_kind t.kind
    then placed_aggregate (abi_aggregate_pieces fuel store type no_pieces) t.size c
    else placed_pair (place_scalar t.kind c)

unfoldable pub place_argument : ℕ → List CType → ℕ → Counters → Placed
place_argument fuel store type c = place_typed fuel store type (deref store type) c

-- The slots that were filled, and the counters; `none` is a walk that is stuck. An argument that is
-- too large ends the loop, with 0 as the size of the area. The slots that were filled before it, which the
-- source leaves in the array of its caller, are left out then.
pub data Assigned : Type 0 where
  assigned : List ArgSlot → Counters → Assigned
  refused stuck : Assigned

abbrev pub behind : ArgSlot → Assigned → Assigned
behind slot (assigned slots c) = assigned (slot ∷ slots) c
behind slot refused = refused
behind slot Assigned.stuck = Assigned.stuck

-- The rest of the loop behind one argument.
abbrev pub after_placed : Placed → (Counters → Assigned) → Assigned
after_placed (placed slot c) rest = behind slot (rest c)
after_placed too_large rest = refused
after_placed Placed.stuck rest = Assigned.stuck

unfoldable pub assign_loop : ℕ → List CType → List ℕ → Counters → Assigned
assign_loop fuel store [] c = assigned [] c
assign_loop fuel store (type ∷ types) c =
    after_placed (place_argument fuel store type c) (λ c'. assign_loop fuel store types c')

abbrev pub first_counters : Bool → Counters
first_counters returns_memory = record {
  general = if returns_memory then 1 else 0;
  vector = 0;
  stack = 0;
}

-- The slots and the size of the argument area.
abbrev pub slots_and_size : Assigned → Option (List ArgSlot × ℕ)
slots_and_size (assigned slots c) = some (slots, round_up_8 c.stack)
slots_and_size refused = some ([], 0)
slots_and_size Assigned.stuck = none

unfoldable pub abi_assign_arguments : ℕ → List CType → List ℕ → Bool → Option (List ArgSlot × ℕ)
abi_assign_arguments fuel store types returns_memory =
    slots_and_size (assign_loop fuel store types (first_counters returns_memory))
