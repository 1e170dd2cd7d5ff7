-- ===== src/Tests/Domainslice.antt =====
-- A pool of two slots, both taken: the third key recycles the slot of the oldest.
use native.Mathlib.Decide.{ℕ_discrete as dec}
use pocket_titan.Prelude.{ℕ, ◌≡◌, refl, [], ◌∷◌, ok, arith}
use pocket_titan.Prelude.Dict
use pocket_titan.Prelude.Dict.{Dict}
use pocket_titan.Domainslice.Arena.{ExpertVramArena, init, allocate_slot}
use pocket_titan.Domainslice.Arena.Slots.{IsValid}
use pocket_titan.Domainslice.Arena.Allocate.{Allocated, allocate_slot-Allocated}

program : Unit {0}
unfolding init allocate_slot Dict.get Dict.set Dict.remove dec
program = tt

abbrev taken : ExpertVramArena ℕ
taken = record {
  capacity = 2;
  free_slots = [];
  key_to_slot = (10, 0) ∷ (20, 1) ∷ [];
  slot_to_key = (0, 10) ∷ (1, 20) ∷ [];
}

filled : (allocate_slot dec (allocate_slot dec (init 2) 10).1 20).1 ≡ taken
unfolding program
filled = refl

recycled : allocate_slot dec taken 30 ≡ (
  ok 0,
  record taken { key_to_slot = (20, 1) ∷ (30, 0) ∷ []; slot_to_key = (1, 20) ∷ (0, 30) ∷ [] },
)
unfolding program
recycled = refl

taken-IsValid : IsValid dec taken
unfolding Dict.get dec
taken-IsValid = record {
  forth = λ k s h. ground (arith, h);
  back = λ k s h. ground (arith, h);
  free = λ s h. ground (arith, h);
  unique = (refl, (refl, tt));
  distinct = tt;
  counted = refl;
  some_capacity = omega arith;
}

allocate_slot-Allocated_example :
    (slot : ℕ) × (a' : ExpertVramArena ℕ) × (allocate_slot dec taken 30 ≡ (ok slot, a'))
    × Allocated dec 30 slot a'
allocate_slot-Allocated_example = allocate_slot-Allocated dec taken 30 taken-IsValid
