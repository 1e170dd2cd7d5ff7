-- ===== src/Domainslice/Arena/Slots.antt =====
-- Keys and slots stay in bijection, and no slot is both free and taken.
use mathlib.Core.Logic.{ite}
use native.Mathlib.Decide.{ℕ_discrete}
use pocket_titan.Prelude.{
  ℕ, ◌+◌, ◌<◌, ◌≡◌, ap, Bool, true, false, ◌||◌, none, some, List, [], ◌∷◌, ◌==◌, length, arith,
}
use pocket_titan.Prelude.Dict
use pocket_titan.Prelude.Dict.{Dict}
use pocket_titan.Domainslice.Arena.{ExpertVramArena}

abbrev pub has : ℕ → List ℕ → Bool
has s [] = false
has s (x ∷ xs) = (x == s) || has s xs

abbrev pub AreDistinct : List ℕ → Type 0
AreDistinct [] = Unit
AreDistinct (x ∷ xs) = (has x xs ≡ false) × AreDistinct xs

module _ {K : Type 0} (dec : Discrete K) where
  pub record IsValid (a : ExpertVramArena K) : Type 0 where
    pub forth :
        (k : K) (s : ℕ)
        → Dict.get dec k a.key_to_slot ≡ some s
        → (Dict.get ℕ_discrete s a.slot_to_key ≡ some k) × (s < a.capacity)
    pub back :
        (k : K) (s : ℕ)
        → Dict.get ℕ_discrete s a.slot_to_key ≡ some k
        → Dict.get dec k a.key_to_slot ≡ some s
    pub free :
        (s : ℕ)
        → has s a.free_slots ≡ true
        → (Dict.get ℕ_discrete s a.slot_to_key ≡ none) × (s < a.capacity)
    pub unique : Dict.IsUnique dec a.key_to_slot
    pub distinct : AreDistinct a.free_slots
    pub counted : length a.free_slots + length a.key_to_slot ≡ a.capacity
    pub some_capacity : 0 < a.capacity

  abbrev pub taken : ExpertVramArena K → K → ℕ → List ℕ → ExpertVramArena K
  taken a key slot rest = record a {
    free_slots = rest;
    key_to_slot = Dict.set dec key slot a.key_to_slot;
    slot_to_key = Dict.set ℕ_discrete slot key a.slot_to_key;
  }

  pub taken-IsValid :
      (a : ExpertVramArena K) (key : K) (slot : ℕ) (rest : List ℕ)
      → IsValid a
      → Dict.get dec key a.key_to_slot ≡ none
      → a.free_slots ≡ slot ∷ rest
      → IsValid (taken a key slot rest)
  taken-IsValid a key slot rest v absent e = record {
    forth = λ k s h.
        forth k s (Dict.get-set dec key k slot a.key_to_slot)
          (Dict.get-set ℕ_discrete slot s key a.slot_to_key) h (v.forth k s);
    back = λ k s h.
        back k s (Dict.get-set dec key k slot a.key_to_slot)
          (Dict.get-set ℕ_discrete slot s key a.slot_to_key) h (v.back k s);
    free =
        λ s h. left s (Dict.get-set ℕ_discrete slot s key a.slot_to_key) h (v.free s (in_rest s h));
    unique = Dict.set-IsUnique dec key slot a.key_to_slot v.unique;
    distinct = distinct.1;
    counted =
        omega
          (arith, ap length e, v.counted, Dict.length-set_absent dec key slot a.key_to_slot absent);
    some_capacity = v.some_capacity;
  }
    where
      distinct : AreDistinct (slot ∷ rest)
      distinct = rw e at v.distinct

      in_rest : (s : ℕ) → has s rest ≡ true → has s a.free_slots ≡ true
      in_rest s h = rw e (ground arith)

      slot_free : (Dict.get ℕ_discrete slot a.slot_to_key ≡ none) × (slot < a.capacity)
      slot_free = v.free slot (rw e (ground arith))

      forth :
          (k : K) (s : ℕ)
          → Dict.get dec k (Dict.set dec key slot a.key_to_slot)
            ≡ ite (dec key k) (some slot) (Dict.get dec k a.key_to_slot)
          → Dict.get ℕ_discrete s (Dict.set ℕ_discrete slot key a.slot_to_key)
            ≡ ite (ℕ_discrete slot s) (some key) (Dict.get ℕ_discrete s a.slot_to_key)
          → Dict.get dec k (Dict.set dec key slot a.key_to_slot) ≡ some s
          → (Dict.get dec k a.key_to_slot ≡ some s
              → (Dict.get ℕ_discrete s a.slot_to_key ≡ some k) × (s < a.capacity))
          → (Dict.get ℕ_discrete s (Dict.set ℕ_discrete slot key a.slot_to_key) ≡ some k)
            × (s < a.capacity)
      forth k s law law' h old = ground (arith, slot_free)

      back :
          (k : K) (s : ℕ)
          → Dict.get dec k (Dict.set dec key slot a.key_to_slot)
            ≡ ite (dec key k) (some slot) (Dict.get dec k a.key_to_slot)
          → Dict.get ℕ_discrete s (Dict.set ℕ_discrete slot key a.slot_to_key)
            ≡ ite (ℕ_discrete slot s) (some key) (Dict.get ℕ_discrete s a.slot_to_key)
          → Dict.get ℕ_discrete s (Dict.set ℕ_discrete slot key a.slot_to_key) ≡ some k
          → (Dict.get ℕ_discrete s a.slot_to_key ≡ some k → Dict.get dec k a.key_to_slot ≡ some s)
          → Dict.get dec k (Dict.set dec key slot a.key_to_slot) ≡ some s
      back k s law law' h old = ground (arith, absent)

      left :
          (s : ℕ)
          → Dict.get ℕ_discrete s (Dict.set ℕ_discrete slot key a.slot_to_key)
            ≡ ite (ℕ_discrete slot s) (some key) (Dict.get ℕ_discrete s a.slot_to_key)
          → has s rest ≡ true
          → (Dict.get ℕ_discrete s a.slot_to_key ≡ none) × (s < a.capacity)
          → (Dict.get ℕ_discrete s (Dict.set ℕ_discrete slot key a.slot_to_key) ≡ none)
            × (s < a.capacity)
      left s law h old = ground (arith, distinct.0)
