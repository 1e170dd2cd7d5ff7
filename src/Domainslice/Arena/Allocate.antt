-- ===== src/Domainslice/Arena/Allocate.antt =====
-- Freeing keeps the bijection, and an allocation always finds a slot of its own.
use mathlib.Core.Logic.{if_pos, ite}
use native.Mathlib.Decide.{ℕ_discrete}
use pocket_titan.Prelude.{
  length, ◌∷◌, List, Option, ◌∙◌, none, some, ◌<◌, inl, inr, refl, ap, [], Option-cases, ℕ, ◌<◌,
  ◌≡◌, sym, true, false, none, some, List, ◌∷◌, ok, arith, inl, inr, Bool-cases, some_inj, ◌∙◌,
}
use pocket_titan.Prelude.Dict
use pocket_titan.Prelude.Dict.{Dict}
use pocket_titan.Domainslice.Arena.{free_slot, recycle, allocate_slot, ExpertVramArena, take_slot}
use pocket_titan.Domainslice.Arena.Slots.{has, IsValid, taken, taken-IsValid}

module _ {K : Type 0} (dec : Discrete K) where
  abbrev freed : ExpertVramArena K → K → ℕ → ExpertVramArena K
  freed a key slot = record a {
    key_to_slot = Dict.remove dec key a.key_to_slot;
    slot_to_key = Dict.remove ℕ_discrete slot a.slot_to_key;
    free_slots = slot ∷ a.free_slots;
  }

  freed-IsValid :
      (a : ExpertVramArena K) (key : K) (slot : ℕ)
      → IsValid dec a
      → Dict.get dec key a.key_to_slot ≡ some slot
      → IsValid dec (freed a key slot)
  freed-IsValid a key slot v e = record {
    forth = λ k s h.
        forth k s (Dict.get-remove dec key k a.key_to_slot)
          (Dict.get-remove ℕ_discrete slot s a.slot_to_key) h (v.forth k s);
    back = λ k s h.
        back k s (Dict.get-remove dec key k a.key_to_slot)
          (Dict.get-remove ℕ_discrete slot s a.slot_to_key) h (v.back k s);
    free = λ s h. left s (Dict.get-remove ℕ_discrete slot s a.slot_to_key) h (v.free s);
    unique = Dict.remove-IsUnique dec key a.key_to_slot v.unique;
    distinct = (not_free, v.distinct);
    counted = omega (arith, v.counted, Dict.length-remove dec key slot a.key_to_slot v.unique e);
    some_capacity = v.some_capacity;
  }
    where
      slot_taken : (Dict.get ℕ_discrete slot a.slot_to_key ≡ some key) × (slot < a.capacity)
      slot_taken = v.forth key slot e

      not_free : has slot a.free_slots ≡ false
      not_free = elim (Bool-cases (has slot a.free_slots)) [
        | inr absent ↦ absent
        | inl there ↦ ground (arith, v.free slot there, slot_taken)
      ]

      forth :
          (k : K) (s : ℕ)
          → Dict.get dec k (Dict.remove dec key a.key_to_slot)
            ≡ ite (dec key k) none (Dict.get dec k a.key_to_slot)
          → Dict.get ℕ_discrete s (Dict.remove ℕ_discrete slot a.slot_to_key)
            ≡ ite (ℕ_discrete slot s) none (Dict.get ℕ_discrete s a.slot_to_key)
          → Dict.get dec k (Dict.remove dec key a.key_to_slot) ≡ some s
          → (Dict.get dec k a.key_to_slot ≡ some s
              → (Dict.get ℕ_discrete s a.slot_to_key ≡ some k) × (s < a.capacity))
          → (Dict.get ℕ_discrete s (Dict.remove ℕ_discrete slot a.slot_to_key) ≡ some k)
            × (s < a.capacity)
      forth k s law law' h old = ground (arith, slot_taken)

      back :
          (k : K) (s : ℕ)
          → Dict.get dec k (Dict.remove dec key a.key_to_slot)
            ≡ ite (dec key k) none (Dict.get dec k a.key_to_slot)
          → Dict.get ℕ_discrete s (Dict.remove ℕ_discrete slot a.slot_to_key)
            ≡ ite (ℕ_discrete slot s) none (Dict.get ℕ_discrete s a.slot_to_key)
          → Dict.get ℕ_discrete s (Dict.remove ℕ_discrete slot a.slot_to_key) ≡ some k
          → (Dict.get ℕ_discrete s a.slot_to_key ≡ some k → Dict.get dec k a.key_to_slot ≡ some s)
          → Dict.get dec k (Dict.remove dec key a.key_to_slot) ≡ some s
      back k s law law' h old = ground (arith, e)

      left :
          (s : ℕ)
          → Dict.get ℕ_discrete s (Dict.remove ℕ_discrete slot a.slot_to_key)
            ≡ ite (ℕ_discrete slot s) none (Dict.get ℕ_discrete s a.slot_to_key)
          → has s (slot ∷ a.free_slots) ≡ true
          → (has s a.free_slots ≡ true
              → (Dict.get ℕ_discrete s a.slot_to_key ≡ none) × (s < a.capacity))
          → (Dict.get ℕ_discrete s (Dict.remove ℕ_discrete slot a.slot_to_key) ≡ none)
            × (s < a.capacity)
      left s law h old = ground (arith, slot_taken)

  -- What an allocation leaves: a slot of the pool that is the key's, and no other's.
  pub record Allocated (key : K) (slot : ℕ) (a' : ExpertVramArena K) : Type 0 where
    pub valid : IsValid dec a'
    pub owned : Dict.get dec key a'.key_to_slot ≡ some slot
    pub within : slot < a'.capacity
    pub alone : (k : K) → Dict.get dec k a'.key_to_slot ≡ some slot → k ≡ key

  owned-Allocated :
      (a : ExpertVramArena K) (key : K) (slot : ℕ)
      → IsValid dec a
      → Dict.get dec key a.key_to_slot ≡ some slot
      → Allocated key slot a
  owned-Allocated a key slot v e = record {
    valid = v;
    owned = e;
    within = (v.forth key slot e).1;
    alone = λ k f. some_inj (sym (v.forth k slot f).0 ∙ (v.forth key slot e).0);
  }

  take-Allocated :
      (a : ExpertVramArena K) (key : K) (slot : ℕ) (rest : List ℕ)
      → IsValid dec a
      → Dict.get dec key a.key_to_slot ≡ none
      → a.free_slots ≡ slot ∷ rest
      → (take_slot dec a key ≡ (ok slot, taken dec a key slot rest))
        × Allocated key slot (taken dec a key slot rest)
  unfolding take_slot
  take-Allocated a key slot rest v absent e = (
    rw (e, take_slot),
    owned-Allocated (taken dec a key slot rest) key slot
        (taken-IsValid dec a key slot rest v absent e)
        (Dict.get-set_self dec key slot a.key_to_slot),
  )

  get-first : (k : K) (s : ℕ) (d : Dict K ℕ) → Dict.get dec k ((k, s) ∷ d) ≡ some s
  unfolding Dict.get
  get-first k s d = if_pos (dec k k) refl _ _

  absent_freed :
      (k key : K) (d : Dict K ℕ)
      → Dict.get dec key d ≡ none
      → Dict.get dec key (Dict.remove dec k d) ≡ none
  absent_freed k key d absent = ground (arith, Dict.get-remove dec k key d)

  free_slot-freed :
      (a : ExpertVramArena K) (key : K) (slot : ℕ)
      → Dict.get dec key a.key_to_slot ≡ some slot
      → free_slot dec a key ≡ (some slot, freed a key slot)
  unfolding free_slot
  free_slot-freed a key slot e = rw (e, free_slot)

  recycle-free_slot :
      (a : ExpertVramArena K) (key k : K) (s : ℕ) (rest : Dict K ℕ)
      → recycle dec a key ((k, s) ∷ rest) ≡ take_slot dec (free_slot dec a k).1 key
  unfolding recycle
  recycle-free_slot a key k s rest = refl

  -- On a valid arena an allocation never fails, whether the key has a slot, a slot is free, or the
  -- oldest key has to give up its own: the key then owns a slot of the pool that no other key has,
  -- and keys and slots are still in bijection, with no slot both free and taken.
  pub allocate_slot-Allocated :
      (a : ExpertVramArena K) (key : K)
      → IsValid dec a
      → (slot : ℕ) × (a' : ExpertVramArena K) × (allocate_slot dec a key ≡ (ok slot, a'))
        × Allocated key slot a'
  unfolding allocate_slot recycle
  allocate_slot-Allocated a key v = elim (Option-cases (Dict.get dec key a.key_to_slot)) [
    | inr (slot, has_slot) ↦
        (slot, a, rw (has_slot, allocate_slot), owned-Allocated a key slot v has_slot)
    | inl absent ↦ by_free a.free_slots refl absent
  ]
    where
      by_keys :
          (d : Dict K ℕ)
          → a.key_to_slot ≡ d
          → a.free_slots ≡ []
          → Dict.get dec key a.key_to_slot ≡ none
          → (slot : ℕ) × (a' : ExpertVramArena K) × (recycle dec a key a.key_to_slot
              ≡ (ok slot, a'))
            × Allocated key slot a'
      by_keys [] e none_free absent =
          absurd (omega (arith, ap length e, ap length none_free, v.counted, v.some_capacity))
      by_keys ((k, s) ∷ rest) e none_free absent =
          let owned : Dict.get dec k a.key_to_slot ≡ some s = rw e (get-first k s rest) in
          let (done, new) =
            take-Allocated (freed a k s) key s [] (freed-IsValid a k s v owned)
              (absent_freed k key a.key_to_slot absent) (ap (◌∷◌ s) none_free) in
          (
            s,
            taken dec (freed a k s) key s [],
            ap (recycle dec a key) e
                ∙ recycle-free_slot a key k s rest
                ∙ ap (λ (x : Option ℕ × ExpertVramArena K). take_slot dec x.1 key)
                    (free_slot-freed a k s owned)
                ∙ done,
            new,
          )

      by_free :
          (free : List ℕ)
          → a.free_slots ≡ free
          → Dict.get dec key a.key_to_slot ≡ none
          → (slot : ℕ) × (a' : ExpertVramArena K) × (allocate_slot dec a key ≡ (ok slot, a'))
            × Allocated key slot a'
      by_free [] e absent = rw (absent, e, allocate_slot) (by_keys a.key_to_slot refl e absent)
      by_free (slot ∷ rest) e absent =
          let (done, new) = take-Allocated a key slot rest v absent e in
          (slot, taken dec a key slot rest, rw (absent, e, allocate_slot) done, new)
