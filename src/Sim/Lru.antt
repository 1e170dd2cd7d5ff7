-- ===== src/Sim/Lru.antt =====
-- `CachePolicy` and `LRUCache` (`OSPageCache` is the same class under another name). A key is the
-- pair (layer, expert); the `OrderedDict` of keys to None is a `Dict` to the unit.
pub mod Stack
pub mod Inclusion
use pocket_titan.Prelude.{
  ℕ, ◌+◌, Bool, true, false, Option, none, some, List, [], ◌∷◌, leb, if◌then◌else◌, length, max,
  Result, ok, err, key_error, ◌>>=◌,
}
use pocket_titan.Prelude.Dict
use pocket_titan.Prelude.Dict.{Dict}

-- `popitem(last=False)`
unfoldable pub pop_oldest {ℓ} : {A : Type ℓ} → List A → Result (List A)
pop_oldest [] = err key_error
pop_oldest (x ∷ d) = ok d

pub record LruCache {ℓ} (K : Type ℓ) : Type ℓ where
  pub capacity : ℕ
  pub hits : ℕ
  pub misses : ℕ
  pub evictions : ℕ
  pub cache : Dict K (Unit {ℓ})

unfoldable pub init {ℓ} : {K : Type ℓ} → ℕ → LruCache K
init capacity_slots = record {
  capacity = max 1 capacity_slots;
  hits = 0;
  misses = 0;
  evictions = 0;
  cache = [];
}

unfoldable pub reset {ℓ} : {K : Type ℓ} → LruCache K → LruCache K
reset c = record c { hits = 0; misses = 0; evictions = 0; cache = [] }

abbrev pub total_accesses {ℓ} : {K : Type ℓ} → LruCache K → ℕ
total_accesses c = c.hits + c.misses

module _ {ℓ} {K : Type ℓ} (dec : Discrete K) where
  unfoldable pub miss : LruCache K → K → Result (Bool × LruCache K)
  unfolding pop_oldest
  miss c key =
      if leb c.capacity (length c.cache)
      then (pop_oldest c.cache >>= λ rest. ok (
        false,
        record c {
          misses = c.misses + 1;
          evictions = c.evictions + 1;
          cache = Dict.set dec key tt rest;
        },
      ))
      else ok (false, record c { misses = c.misses + 1; cache = Dict.set dec key tt c.cache })

  unfoldable pub access : LruCache K → K → Result (Bool × LruCache K)
  unfolding miss
  access c key = elim (Dict.get dec key c.cache) [
    | some _ ↦
        ok (true, record c { hits = c.hits + 1; cache = Dict.move_to_end dec key tt c.cache })
    | none ↦ miss c key
  ]

  -- The simulator's loop over a trace.
  unfoldable pub access_all : LruCache K → List K → Result (LruCache K)
  access_all c [] = ok c
  access_all c (key ∷ keys) = do (hit, c') ← access c key; access_all c' keys
