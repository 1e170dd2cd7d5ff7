-- ===== src/Runtime/ExpertCache.antt =====
-- pockettitan/runtime/expert/cache.py: `BoundedSLRUCache`. A method returns its result or the
-- exception beside the state, which stays as far as it was changed before a raise.
pub mod Promotion
pub mod Get
pub mod Put
pub mod Update
pub mod Degenerate
use pocket_titan.Prelude.{
  ℕ, suc, ◌+◌, ◌-◌, Bool, ◌||◌, Option, none, some, List, [], ◌∷◌, length, leb, max, if◌then◌else◌,
  Result, ok, err, key_error, value_error, assertion_error,
}
use pocket_titan.Prelude.Dict
use pocket_titan.Prelude.Dict.{Dict, is_some}

pub record Cache {ℓ} (K V : Type ℓ) : Type ℓ where
  pub capacity_slots : ℕ
  pub probationary_capacity : ℕ
  pub protected_capacity : ℕ
  pub probationary : Dict K V
  pub protected : Dict K V
  pub hits : ℕ
  pub misses : ℕ
  pub evictions : ℕ
  pub promotions : ℕ
  pub demotions : ℕ

-- `portion` is `int(capacity_slots * probationary_ratio)`, a float product that is at most
-- `capacity_slots` for a ratio in [0, 1]; `capacity_slots` is not negative here.
unfoldable pub init {ℓ} : {K V : Type ℓ} → ℕ → ℕ → Result (Cache K V)
init capacity_slots portion =
    if leb capacity_slots 0
    then err value_error
    else ok (record {
      capacity_slots = capacity_slots;
      probationary_capacity = max 1 portion;
      protected_capacity = capacity_slots - max 1 portion;
      probationary = [];
      protected = [];
      hits = 0;
      misses = 0;
      evictions = 0;
      promotions = 0;
      demotions = 0;
    })

module _ {ℓ} {K V : Type ℓ} where
  abbrev pub total_resident : Cache K V → ℕ
  total_resident c = length c.probationary + length c.protected

  unfoldable pub clear : Cache K V → Cache K V
  clear c = record c { probationary = []; protected = [] }

  -- `popitem(last=False)` of the probationary tier, which counts as an eviction.
  unfoldable pub evict : Cache K V → Result (K × V) × Cache K V
  evict c = elim c.probationary [
    | [] ↦ (err key_error, c)
    | entry ∷ rest ↦ (ok entry, record c { probationary = rest; evictions = c.evictions + 1 })
  ]

module _ {ℓ} {K V : Type ℓ} (dec : Discrete K) where
  unfoldable pub contains : Cache K V → K → Bool
  contains c key =
      is_some (Dict.get dec key c.protected) || is_some (Dict.get dec key c.probationary)

  -- `demoted_key, demoted_val = self.protected.popitem(last=False)` and the two lines behind it.
  unfoldable pub demote : Cache K V → Result (Unit {0}) × Cache K V
  demote c = elim c.protected [
    | [] ↦ (err key_error, c)
    | (demoted_key, demoted_val) ∷ rest ↦ (
      ok tt,
      record c {
        protected = rest;
        probationary = Dict.set dec demoted_key demoted_val c.probationary;
        demotions = c.demotions + 1;
      },
    )
  ]

  -- `self.protected[key] = value; return value`, unless the demotion before it raised.
  abbrev pub admit : K → V → Result (Unit {0}) × Cache K V → Result (Option V) × Cache K V
  admit key value (ok _, c) =
      (ok (some value), record c { protected = Dict.set dec key value c.protected })
  admit key value (err e, c) = (err e, c)

  -- A hit in the probationary tier.
  unfoldable pub promote : Cache K V → K → V → Result (Option V) × Cache K V
  unfolding demote
  promote c key value =
      let taken : Cache K V = record c {
        probationary = Dict.remove dec key c.probationary;
        hits = c.hits + 1;
        promotions = c.promotions + 1;
      } in
      if leb c.protected_capacity (length c.protected)
      then admit key value (demote taken)
      else admit key value (ok tt, taken)

  unfoldable pub get : Cache K V → K → Result (Option V) × Cache K V
  unfolding promote
  get c key = elim (Dict.get dec key c.protected) [
    | some value ↦ (
      ok (some value),
      record c { protected = Dict.move_to_end dec key value c.protected; hits = c.hits + 1 },
    )
    | none ↦ elim (Dict.get dec key c.probationary) [
      | some value ↦ promote c key value
      | none ↦ (ok none, record c { misses = c.misses + 1 })
    ]
  ]

  -- The lines behind `self.get(key)` in `put`, unless that raised.
  unfoldable pub refresh :
      K → V → Result (Option V) × Cache K V → Result (Option (K × V)) × Cache K V
  refresh key value (ok _, c) = (
    ok none,
    if is_some (Dict.get dec key c.protected)
        then record c { protected = Dict.set dec key value c.protected }
        else record c { probationary = Dict.set dec key value c.probationary },
  )
  refresh key value (err e, c) = (err e, c)

  -- `self.probationary[key] = value`, the assertion, and the return.
  unfoldable pub insert : K → V → Option (K × V) → Cache K V → Result (Option (K × V)) × Cache K V
  insert key value evicted c =
      let c' : Cache K V = record c { probationary = Dict.set dec key value c.probationary } in
      if leb (total_resident c') c'.capacity_slots
      then (ok evicted, c')
      else (err assertion_error, c')

  abbrev pub after_evict : K → V → Result (K × V) × Cache K V → Result (Option (K × V)) × Cache K V
  after_evict key value (ok entry, c) = insert key value (some entry) c
  after_evict key value (err e, c) = (err e, c)

  unfoldable pub put : Cache K V → K → V → Result (Option (K × V)) × Cache K V
  unfolding contains get refresh evict insert
  put c key value =
      if contains c key
      then refresh key value (get c key)
      else if leb c.probationary_capacity (length c.probationary)
      then after_evict key value (evict c)
      else insert key value none c
