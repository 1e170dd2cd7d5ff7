-- ===== src/Sim/Slru.antt =====
-- `SLRUCache`: the simulated segmented LRU, whose two tiers are dictionaries to the unit.
pub mod Bounds
use pocket_titan.Prelude.{
  ℕ, ◌+◌, ◌-◌, Bool, true, false, ◌||◌, Option, none, some, List, [], ◌∷◌, leb, if◌then◌else◌,
  length, max, Result, ok, err, key_error, ◌>>=◌,
}
use pocket_titan.Prelude.Dict
use pocket_titan.Prelude.Dict.{Dict, is_some}
use pocket_titan.Sim.Lru.{pop_oldest}

pub record SlruCache {ℓ} (K : Type ℓ) : Type ℓ where
  pub capacity : ℕ
  pub protected_cap : ℕ
  pub probationary_cap : ℕ
  pub probationary : Dict K (Unit {ℓ})
  pub protected : Dict K (Unit {ℓ})
  pub hits : ℕ
  pub misses : ℕ
  pub evictions : ℕ

-- `portion` is `int(capacity_slots * protected_ratio)`.
unfoldable pub init {ℓ} : {K : Type ℓ} → ℕ → ℕ → SlruCache K
init capacity_slots portion = record {
  capacity = max 1 capacity_slots;
  protected_cap = max 1 portion;
  probationary_cap = max 1 (capacity_slots - max 1 portion);
  probationary = [];
  protected = [];
  hits = 0;
  misses = 0;
  evictions = 0;
}

unfoldable pub reset {ℓ} : {K : Type ℓ} → SlruCache K → SlruCache K
reset c = record c { hits = 0; misses = 0; evictions = 0; probationary = []; protected = [] }

module _ {ℓ} {K : Type ℓ} (dec : Discrete K) where
  abbrev pub resident : SlruCache K → K → Bool
  resident c key =
      is_some (Dict.get dec key c.protected) || is_some (Dict.get dec key c.probationary)

  -- `if len(self.probationary) >= self.probationary_cap: popitem`, and the insertion behind it.
  unfoldable pub enter : SlruCache K → K → Result (SlruCache K)
  unfolding pop_oldest
  enter c key =
      if leb c.probationary_cap (length c.probationary)
      then (pop_oldest c.probationary >>= λ rest.
          ok (record c { probationary = Dict.set dec key tt rest; evictions = c.evictions + 1 }))
      else ok (record c { probationary = Dict.set dec key tt c.probationary })

  -- A full protected tier demotes its oldest key.
  unfoldable pub demote : SlruCache K → Result (SlruCache K)
  unfolding enter
  demote c = elim c.protected [
    | [] ↦ err key_error
    | entry ∷ rest ↦ enter (record c { protected = rest }) entry.0
  ]

  unfoldable pub promote : SlruCache K → K → Result (Bool × SlruCache K)
  unfolding demote
  promote c key =
      let taken : SlruCache K = record c { probationary = Dict.remove dec key c.probationary } in
      (if leb c.protected_cap (length c.protected) then demote taken else ok taken) >>= λ c'.
      ok (true, record c' { protected = Dict.set dec key tt c'.protected; hits = c'.hits + 1 })

  unfoldable pub access : SlruCache K → K → Result (Bool × SlruCache K)
  unfolding promote enter
  access c key =
      if is_some (Dict.get dec key c.protected)
      then ok (
        true,
        record c { protected = Dict.move_to_end dec key tt c.protected; hits = c.hits + 1 },
      )
      else if is_some (Dict.get dec key c.probationary)
      then promote c key
      else (enter (record c { misses = c.misses + 1 }) key >>= λ c'. ok (false, c'))
