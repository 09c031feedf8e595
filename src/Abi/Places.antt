-- ===== src/Abi/Places.antt =====
-- What one round of the loop of `abi_assign_arguments` of src/backend/abi.c does with its argument:
-- registers from the counters on, or bytes of the argument area.
use cc.Base.{ℕ, ◌+◌, ◌-◌, ◌%◌, ◌≤◌, ◌≡◌, ◌≢◌, refl, arith, ap, ◌∙◌}
use cc.Base.{Bool, true, false, not, ◌&&◌, Bool-cases, ◌⊎◌, inl, inr, ◌==◌, ltb}
use cc.Base.{Option, none, some, List, [], take, u64, size_max}
use cc.Semantic.Kind.{TypeKind, uint128, same_kind, is_record_kind}
use cc.Semantic.Store.{CType}
use cc.Semantic.Predicates.{is_floating_kind}
use cc.Abi.Classify.{AggClass, Aggregate, abi_aggregate_pieces}
use cc.Abi.Assign.{ArgSlot, Counters, round_up_8, need_general, need_vector, number_pieces}
use cc.Abi.Assign.{after_registers, placed_some, place_typed}
use cc.Abi.Assign.{to_stack, take_registers, place_pieces, place_uint128, place_aggregate}
use cc.Abi.Assign.{place_scalar, placed_aggregate, Placed, placed}
use cc.Abi.Assign.{too_large}
use cc.Abi.Assign.{empty_slot, no_pieces}
use cc.Abi.Pieces.{upward, generals_of, vectors_of, generals_of-upward}
use cc.Abi.Pieces.{round_mask, generals_of_none, vectors_of_none, vectors_of-upward}

abbrev pub general_registers : ArgSlot → List ℕ
general_registers slot = generals_of slot.classes slot.registers

abbrev pub vector_registers : ArgSlot → List ℕ
vector_registers slot = vectors_of slot.classes slot.registers

-- The slot is one of the argument area.
abbrev pub on_stack : ArgSlot → Bool
on_stack slot = slot.is_ok && not slot.in_register

-- Registers from the counters on, and no more of them than there are.
pub record Takes (c : Counters) (slot : ArgSlot) (c' : Counters) : Type 0 where
  pub generals : ℕ
  pub vectors : ℕ
  pub general_list : general_registers slot ≡ upward c.general generals
  pub general_next : c'.general ≡ c.general + generals
  pub general_bound : c.general ≤ 6 → c'.general ≤ 6
  pub vector_list : vector_registers slot ≡ upward c.vector vectors
  pub vector_next : c'.vector ≡ c.vector + vectors
  pub vector_bound : c.vector ≤ 8 → c'.vector ≤ 8

-- Bytes of the argument area.
abbrev pub AreaStep : ℕ → ArgSlot → ℕ → Type 0
AreaStep stack slot next =
    (slot.size % 8 ≡ 0)
    × (on_stack slot ≡ true → slot.stack_offset ≡ round_up_8 stack)
    × (on_stack slot ≡ true → next ≡ u64 (round_up_8 stack + slot.size))
    × (on_stack slot ≡ false → next ≡ stack)

pub record Places (c : Counters) (slot : ArgSlot) (c' : Counters) : Type 0 where
  pub takes : Takes c slot c'
  pub area : AreaStep c.stack slot c'.stack

abbrev pub PlacesPair : Counters → ArgSlot × Counters → Type 0
PlacesPair c (slot, c') = Places c slot c'

no_registers-Takes :
    (c c' : Counters) (slot : ArgSlot)
    → slot.registers ≡ []
    → c'.general ≡ c.general
    → c'.vector ≡ c.vector
    → Takes c slot c'
no_registers-Takes c c' slot e g v = record {
  generals = 0;
  vectors = 0;
  general_list = ap (generals_of slot.classes) e ∙ generals_of_none slot.classes;
  general_next = omega arith;
  general_bound = λ h. omega arith;
  vector_list = ap (vectors_of slot.classes) e ∙ vectors_of_none slot.classes;
  vector_next = omega arith;
  vector_bound = λ h. omega arith;
}

to_stack-Places :
    (slot : ArgSlot) (c : Counters)
    → slot.registers ≡ []
    → slot.in_register ≡ false
    → slot.is_ok ≡ true
    → slot.size % 8 ≡ 0
    → PlacesPair c (to_stack slot c)
unfolding to_stack
to_stack-Places slot c none_taken free ok size = record {
  takes = no_registers-Takes c (to_stack slot c).1 (to_stack slot c).0 none_taken refl refl;
  area = (size, λ e. refl, λ e. refl, λ e. cc);
}

granted_pieces-Places :
    (slot : ArgSlot) (c : Counters) (n : ℕ)
    → slot.size % 8 ≡ 0
    → c.general + need_general (take n slot.classes) ≤ 6
    → c.vector + need_vector (take n slot.classes) ≤ 8
    → Places c
        (record slot {
          in_register = true;
          registers = number_pieces (take n slot.classes) c.general c.vector;
        })
        (record c {
          general = c.general + need_general (take n slot.classes);
          vector = c.vector + need_vector (take n slot.classes);
        })
granted_pieces-Places slot c n size g v = record {
  takes = record {
    generals = need_general (take n slot.classes);
    vectors = need_vector (take n slot.classes);
    general_list = generals_of-upward n slot.classes c.general c.vector;
    general_next = refl;
    general_bound = λ h. g;
    vector_list = vectors_of-upward n slot.classes c.general c.vector;
    vector_next = refl;
    vector_bound = λ h. v;
  };
  area = (size, λ e. ground (arith, e), λ e. ground (arith, e), λ e. refl);
}

-- Registers are granted as a whole, where they suffice.
take_registers-cases :
    (cs : List AggClass) (c : Counters)
    → (take_registers cs c ≡ none)
      ⊎ ((c.general + need_general cs ≤ 6)
          × (c.vector + need_vector cs ≤ 8)
          × (take_registers cs c
              ≡ some (
                number_pieces cs c.general c.vector,
                record c {
                  general = c.general + need_general cs;
                  vector = c.vector + need_vector cs;
                },
              )))
unfolding take_registers
take_registers-cases cs c = ground arith

place_pieces-Places :
    (slot : ArgSlot) (stack_size : ℕ) (c : Counters)
    → slot.registers ≡ []
    → slot.in_register ≡ false
    → slot.is_ok ≡ true
    → slot.size % 8 ≡ 0
    → stack_size % 8 ≡ 0
    → PlacesPair c (place_pieces slot stack_size c)
unfolding place_pieces after_registers
place_pieces-Places slot stack_size c none_taken free ok size size' =
    elim (take_registers-cases (take slot.pieces slot.classes) c) [
      | inl full ↦
          rw full (to_stack-Places (record slot { size = stack_size }) c none_taken free ok size')
      | inr (g, v, room) ↦ rw room (granted_pieces-Places slot c slot.pieces size g v)
    ]

place_scalar-Places : (kind : TypeKind) (c : Counters) → PlacesPair c (place_scalar kind c)
unfolding place_scalar
place_scalar-Places kind c = elim (Bool-cases (is_floating_kind kind)) [
  | inl vector ↦ elim (Bool-cases (ltb c.vector 8)) [
    | inl room ↦
        rw (vector, room)
          (record {
            takes = record {
              generals = 0;
              vectors = 1;
              general_list = refl;
              general_next = omega arith;
              general_bound = λ h. h;
              vector_list = refl;
              vector_next = omega arith;
              vector_bound = λ h. ground (arith, room);
            };
            area = (omega arith, λ e. cc, λ e. cc, λ e. refl);
          })
    | inr full ↦
        rw (vector, full)
          (to_stack-Places (record empty_slot { size = 8 }) c refl refl refl (omega arith))
  ]
  | inr general ↦ elim (Bool-cases (ltb c.general 6)) [
    | inl room ↦
        rw (general, room)
          (record {
            takes = record {
              generals = 1;
              vectors = 0;
              general_list = refl;
              general_next = omega arith;
              general_bound = λ h. ground (arith, room);
              vector_list = refl;
              vector_next = omega arith;
              vector_bound = λ h. h;
            };
            area = (omega arith, λ e. cc, λ e. cc, λ e. refl);
          })
    | inr full ↦
        rw (general, full)
          (to_stack-Places (record empty_slot { size = 8 }) c refl refl refl (omega arith))
  ]
]

place_uint128-Places : (c : Counters) → PlacesPair c (place_uint128 c)
unfolding place_uint128
place_uint128-Places c =
    place_pieces-Places (record empty_slot { pieces = 2 }) 16 c refl refl refl (omega arith)
      (omega arith)

skipped-Places :
    (c : Counters) (classes : List AggClass)
    → Places c (record empty_slot { is_ok = false; classes = classes }) c
skipped-Places c classes = record {
  takes =
      no_registers-Takes c c (record empty_slot { is_ok = false; classes = classes }) refl refl
        refl;
  area = (omega arith, λ e. cc, λ e. cc, λ e. refl);
}

-- A size that is not SIZE_MAX is a multiple of eight.
rounded_size : (size : ℕ) → (round_up_8 size == size_max) ≡ false → round_up_8 size % 8 ≡ 0
unfolding round_up_8
rounded_size size e = elim (Bool-cases (ltb (size_max - 7) size)) [
  | inl h ↦ ground (arith, e, h)
  | inr h ↦ ground (arith, e, h, round_mask (size + 7))
]

abbrev pub PlacesSome : Counters → Option (ArgSlot × Counters) → Type 0
PlacesSome c none = Unit
PlacesSome c (some (slot, c')) = Places c slot c'

place_aggregate-Places :
    (a : Aggregate) (size : ℕ) (c : Counters) → PlacesSome c (place_aggregate a size c)
unfolding place_aggregate
place_aggregate-Places a size c = elim (Bool-cases (a.count == 0 && not a.memory)) [
  | inl skip ↦ rw skip (skipped-Places c a.pieces)
  | inr known ↦ elim (Bool-cases (round_up_8 size == size_max)) [
    | inl huge ↦ rw (known, huge) tt
    | inr fine ↦ elim (Bool-cases (a.count == 0)) [
      | inl memory ↦
          rw (known, fine, memory) (to_stack-Places _ c refl refl refl (rounded_size size fine))
      | inr pieces ↦
          rw (known, fine, pieces)
            (place_pieces-Places _ _ c refl refl refl (rounded_size size fine)
              (rounded_size size fine))
    ]
  ]
]

-- What one round does with an argument.
abbrev pub PlacesPlaced : Counters → Placed → Type 0
PlacesPlaced c (placed slot c') = Places c slot c'
PlacesPlaced c too_large = Unit
PlacesPlaced c Placed.stuck = ⊥

placed_some-Places :
    (c : Counters) (o : Option (ArgSlot × Counters))
    → PlacesSome c o
    → PlacesPlaced c (placed_some o)
placed_some-Places c none h = tt
placed_some-Places c (some (slot, c')) h = h

placed_aggregate-Places :
    (o : Option Aggregate) (size : ℕ) (c : Counters)
    → o ≢ none
    → PlacesPlaced c (placed_aggregate o size c)
placed_aggregate-Places none size c h = absurd (h refl)
placed_aggregate-Places (some a) size c h =
    placed_some-Places c (place_aggregate a size c) (place_aggregate-Places a size c)

pub place_typed-Places :
    (fuel : ℕ) (store : List CType) (type : ℕ) (o : Option CType) (c : Counters)
    → abi_aggregate_pieces fuel store type no_pieces ≢ none
    → PlacesPlaced c (place_typed fuel store type o c)
unfolding place_typed
place_typed-Places fuel store type none c h = skipped-Places c no_pieces
place_typed-Places fuel store type (some t) c h = elim (Bool-cases (same_kind t.kind uint128)) [
  | inl wide ↦ rw wide (place_uint128-Places c)
  | inr narrow ↦ elim (Bool-cases (is_record_kind t.kind)) [
    | inl aggregate ↦
        rw (narrow, aggregate)
          (placed_aggregate-Places (abi_aggregate_pieces fuel store type no_pieces) t.size c h)
    | inr scalar ↦ rw (narrow, scalar) (place_scalar-Places t.kind c)
  ]
]
