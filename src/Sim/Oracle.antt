-- ===== src/Sim/Oracle.antt =====
-- `OracleCache`: Belady's replacement. The set of residents is a list, in the order in which Python
-- happens to iterate over the set. A list of future steps is in trace order here: its head is the
-- source's last element, `indices[-1]`.
pub mod Furthest
pub mod Belady
use pocket_titan.Prelude.{
  ℕ, zero, suc, ◌+◌, Bool, true, false, Option, none, some, List, [], ◌∷◌, ◌++◌, leb, ltb, ◌==◌,
  if◌then◌else◌, length, max, Result, ok, err, key_error,
}
use pocket_titan.Prelude.Dict
use pocket_titan.Prelude.Dict.{Dict, is_some}

pub record OracleCache {ℓ} (K : Type ℓ) : Type ℓ where
  pub capacity : ℕ
  pub hits : ℕ
  pub misses : ℕ
  pub evictions : ℕ
  pub cache : Dict K (Unit {ℓ})
  pub future_indices : List (K × List ℕ)
  pub full_trace : List K

module _ {ℓ} {K : Type ℓ} (dec : Discrete K) where
  -- `self.future_indices[key]` of a defaultdict; the empty list that a read of a missing key stores
  -- there reads the same.
  unfoldable pub future : K → List (K × List ℕ) → List ℕ
  future k [] = []
  future k ((j, steps) ∷ table) = elim (dec j k) [ yes _ ↦ steps | no _ ↦ future k table ]

  unfoldable pub store : K → List ℕ → List (K × List ℕ) → List (K × List ℕ)
  store k steps [] = (k, steps) ∷ []
  store k steps ((j, old) ∷ table) =
      let rest = store k steps table in
      elim (dec j k) [ yes _ ↦ (j, steps) ∷ table | no _ ↦ (j, old) ∷ rest ]

  -- `for idx, key in enumerate(self.full_trace): self.future_indices[key].append(idx)`, from `idx` on.
  unfoldable pub index_trace : ℕ → List K → List (K × List ℕ) → List (K × List ℕ)
  index_trace idx [] table = table
  index_trace idx (key ∷ keys) table =
      index_trace (suc idx) keys (store key (future key table ++ idx ∷ []) table)

  unfoldable pub init : ℕ → List K → OracleCache K
  unfolding index_trace
  init capacity_slots full_trace = record {
    capacity = max 1 capacity_slots;
    hits = 0;
    misses = 0;
    evictions = 0;
    cache = [];
    future_indices = index_trace 0 full_trace [];
    full_trace = full_trace;
  }

  unfoldable pub reset : OracleCache K → OracleCache K
  unfolding index_trace
  reset c = record c {
    hits = 0;
    misses = 0;
    evictions = 0;
    cache = [];
    future_indices = index_trace 0 c.full_trace [];
  }

  -- `if ... [-1] == step: pop()`
  abbrev pub without_step : ℕ → List ℕ → List ℕ
  without_step step [] = []
  without_step step (s ∷ steps) = if s == step then steps else s ∷ steps

  unfoldable pub pop_step : OracleCache K → K → ℕ → OracleCache K
  unfolding store future
  pop_step c key step = record c {
    future_indices = store key (without_step step (future key c.future_indices)) c.future_indices;
  }

  -- One comparison of the search: the best key so far with its step (`none` for -1).
  abbrev pub later : K → ℕ → Option (K × ℕ) → Option (K × ℕ)
  later resident next_step none = some (resident, next_step)
  later resident next_step (some (key, step)) =
      if ltb step next_step then some (resident, next_step) else some (key, step)

  abbrev pub key_of : Option (K × ℕ) → Option K
  key_of none = none
  key_of (some (key, step)) = some key

  -- The loop over the residents; a resident with no next use ends it.
  unfoldable pub furthest : List (K × List ℕ) → Dict K (Unit {ℓ}) → Option (K × ℕ) → Option K
  furthest table [] best = key_of best
  furthest table ((resident, _) ∷ residents) best = elim (future resident table) [
    | [] ↦ some resident
    | next_step ∷ _ ↦ furthest table residents (later resident next_step best)
  ]

  unfoldable pub replace : OracleCache K → K → Result (Bool × OracleCache K)
  unfolding furthest
  replace c key = elim (furthest c.future_indices c.cache none) [
    | none ↦ err key_error
    | some furthest_key ↦ ok (
      false,
      record c {
        cache = Dict.set dec key tt (Dict.remove dec furthest_key c.cache);
        evictions = c.evictions + 1;
      },
    )
  ]

  -- `access` behind the pop of the current occurrence.
  unfoldable pub look_up : OracleCache K → K → Result (Bool × OracleCache K)
  unfolding replace
  look_up c key =
      if is_some (Dict.get dec key c.cache)
      then ok (true, record c { hits = c.hits + 1 })
      else if ltb (length c.cache) c.capacity
      then ok (false, record c { misses = c.misses + 1; cache = Dict.set dec key tt c.cache })
      else replace (record c { misses = c.misses + 1 }) key

  unfoldable pub access : OracleCache K → K → ℕ → Result (Bool × OracleCache K)
  unfolding pop_step look_up
  access c key step = look_up (pop_step c key step) key
