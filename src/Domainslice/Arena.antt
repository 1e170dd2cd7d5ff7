-- ===== src/Domainslice/Arena.antt =====
-- pockettitan/domainslice/fast_cache.py: `ExpertVRAMArena`, the allocator of pool slots. The free slots
-- are a stack: the head of the list is the end of the source's list. The pool's tensors are left out.
pub mod Slots
pub mod Allocate
use native.Mathlib.Decide.{ℕ_discrete}
use pocket_titan.Prelude.{
  ℕ, zero, suc, Option, none, some, List, [], ◌∷◌, max, Result, ok, err, index_error, runtime_error,
}
use pocket_titan.Prelude.Dict
use pocket_titan.Prelude.Dict.{Dict}

pub record ExpertVramArena (K : Type 0) : Type 0 where
  pub capacity : ℕ
  pub free_slots : List ℕ
  pub key_to_slot : Dict K ℕ
  pub slot_to_key : Dict ℕ K

-- `range(start, start + count)`: popping the end of its reverse gives the smallest number first.
unfoldable pub range_from : ℕ → ℕ → List ℕ
range_from start zero = []
range_from start (suc count) = start ∷ range_from (suc start) count

unfoldable pub init : {K : Type 0} → ℕ → ExpertVramArena K
unfolding range_from
init capacity = record {
  capacity = max 1 capacity;
  free_slots = range_from 0 (max 1 capacity);
  key_to_slot = [];
  slot_to_key = [];
}

unfoldable pub reset : {K : Type 0} → ExpertVramArena K → ExpertVramArena K
unfolding range_from
reset a = record a { free_slots = range_from 0 a.capacity; key_to_slot = []; slot_to_key = [] }

module _ {K : Type 0} (dec : Discrete K) where
  unfoldable pub free_slot : ExpertVramArena K → K → Option ℕ × ExpertVramArena K
  free_slot a key = elim (Dict.get dec key a.key_to_slot) [
    | none ↦ (none, a)
    | some slot ↦ (
      some slot,
      record a {
        key_to_slot = Dict.remove dec key a.key_to_slot;
        slot_to_key = Dict.remove ℕ_discrete slot a.slot_to_key;
        free_slots = slot ∷ a.free_slots;
      },
    )
  ]

  -- `slot = self.free_slots.pop()` and the two entries.
  unfoldable pub take_slot : ExpertVramArena K → K → Result ℕ × ExpertVramArena K
  take_slot a key = elim a.free_slots [
    | [] ↦ (err index_error, a)
    | slot ∷ free ↦ (
      ok slot,
      record a {
        free_slots = free;
        key_to_slot = Dict.set dec key slot a.key_to_slot;
        slot_to_key = Dict.set ℕ_discrete slot key a.slot_to_key;
      },
    )
  ]

  -- `next(iter(...))` of an empty dictionary raises StopIteration, a runtime error for its callers.
  unfoldable pub recycle : ExpertVramArena K → K → Dict K ℕ → Result ℕ × ExpertVramArena K
  unfolding free_slot take_slot
  recycle a key [] = (err runtime_error, a)
  recycle a key (oldest ∷ rest) = take_slot (free_slot a oldest.0).1 key

  unfoldable pub allocate_slot : ExpertVramArena K → K → Result ℕ × ExpertVramArena K
  unfolding recycle
  allocate_slot a key = elim (Dict.get dec key a.key_to_slot) [
    | some slot ↦ (ok slot, a)
    | none ↦ elim a.free_slots [ [] ↦ recycle a key a.key_to_slot | slot ∷ free ↦ take_slot a key ]
  ]
