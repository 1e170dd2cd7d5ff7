-- ===== src/Sim/TinyLfu.antt =====
-- `TinyLFUCache`: an LRU cache behind a filter that compares how often keys were asked for.
pub mod Admission
use pocket_titan.Prelude.{
  ℕ, ◌+◌, ◌/◌, Bool, true, false, Option, none, some, List, [], ◌∷◌, leb, ltb, ◌==◌, if◌then◌else◌,
  length, max, Result, ok, err, key_error, ◌>>=◌,
}
use pocket_titan.Prelude.Dict
use pocket_titan.Prelude.Dict.{Dict, is_some}
use pocket_titan.Sim.Lru.{pop_oldest}

pub record TinyLfuCache {ℓ} (K : Type ℓ) : Type ℓ where
  pub capacity : ℕ
  pub hits : ℕ
  pub misses : ℕ
  pub evictions : ℕ
  pub cache : Dict K (Unit {ℓ})
  pub freqs : List (K × ℕ)
  pub sample_window : ℕ
  pub total_count : ℕ

unfoldable pub init {ℓ} : {K : Type ℓ} → ℕ → ℕ → TinyLfuCache K
init capacity_slots sample_window = record {
  capacity = max 1 capacity_slots;
  hits = 0;
  misses = 0;
  evictions = 0;
  cache = [];
  freqs = [];
  sample_window = sample_window;
  total_count = 0;
}

unfoldable pub reset {ℓ} : {K : Type ℓ} → TinyLfuCache K → TinyLfuCache K
reset c = record c { hits = 0; misses = 0; evictions = 0; cache = []; freqs = []; total_count = 0 }

-- The halving of every count; a count of zero is deleted.
unfoldable pub decay {ℓ} : {K : Type ℓ} → List (K × ℕ) → List (K × ℕ)
decay [] = []
decay ((k, n) ∷ freqs) = let rest = decay freqs in if n / 2 == 0 then rest else (k, n / 2) ∷ rest

module _ {ℓ} {K : Type ℓ} (dec : Discrete K) where
  -- `self.freqs[key]` of a defaultdict. Reading a missing key also stores a zero there; the next
  -- reading gives the same zero and a decay deletes it, so the model leaves it out.
  unfoldable pub freq : K → List (K × ℕ) → ℕ
  freq k [] = 0
  freq k ((j, n) ∷ freqs) = elim (dec j k) [ yes _ ↦ n | no _ ↦ freq k freqs ]

  -- `self.freqs[key] += 1`
  unfoldable pub count : K → List (K × ℕ) → List (K × ℕ)
  count k [] = (k, 1) ∷ []
  count k ((j, n) ∷ freqs) =
      let rest = count k freqs in
      elim (dec j k) [ yes _ ↦ (j, n + 1) ∷ freqs | no _ ↦ (j, n) ∷ rest ]

  unfoldable pub record_freq : TinyLfuCache K → K → TinyLfuCache K
  unfolding decay count
  record_freq c key =
      if leb c.sample_window (c.total_count + 1)
      then record c { freqs = decay (count key c.freqs); total_count = 0 }
      else record c { freqs = count key c.freqs; total_count = c.total_count + 1 }

  -- A miss on a full cache: the candidate against the least recently used key.
  unfoldable pub admit : TinyLfuCache K → K → Result (Bool × TinyLfuCache K)
  unfolding freq
  admit c key = elim c.cache [
    | [] ↦ err key_error
    | victim ∷ rest ↦
        if leb (freq victim.0 c.freqs) (freq key c.freqs)
        then ok (false, record c { cache = Dict.set dec key tt rest; evictions = c.evictions + 1 })
        else ok (false, record c { evictions = c.evictions + 1 })
  ]

  -- `access` behind `self._record_freq(key)`.
  unfoldable pub look_up : TinyLfuCache K → K → Result (Bool × TinyLfuCache K)
  unfolding admit
  look_up c key =
      if is_some (Dict.get dec key c.cache)
      then ok (true, record c { cache = Dict.move_to_end dec key tt c.cache; hits = c.hits + 1 })
      else if ltb (length c.cache) c.capacity
      then ok (false, record c { cache = Dict.set dec key tt c.cache; misses = c.misses + 1 })
      else admit (record c { misses = c.misses + 1 }) key

  unfoldable pub access : TinyLfuCache K → K → Result (Bool × TinyLfuCache K)
  unfolding record_freq look_up
  access c key = look_up (record_freq c key) key
