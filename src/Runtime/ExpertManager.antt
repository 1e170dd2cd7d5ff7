-- ===== src/Runtime/ExpertManager.antt =====
-- pockettitan/runtime/expert/manager.py: `ExpertManager.fetch_expert`, the expert bank behind the RAM
-- cache and the hot tier. The memory map is the bank's bytes (`none` when it is not open).
-- `decode_expert_payload` and `.to("cuda")`, which call torch, are parameters.
pub mod Transparent
use pocket_titan.Prelude.{
  ℕ, ◌+◌, Bool, ◌&&◌, Option, none, some, List, [], ◌∷◌, ltb, leb, if◌then◌else◌, length, take,
  drop, Result, ok, err, runtime_error, ◌>>=◌, or_raise,
}
use pocket_titan.Prelude.Dict
use pocket_titan.Prelude.Dict.{Dict}
use pocket_titan.Format.Bank.{ExpertLayout, byte_range}
use pocket_titan.Runtime.ExpertCache
use pocket_titan.Runtime.ExpertCache.{Cache}

pub record Manager (V : Type 0) : Type 0 where
  pub layout : ExpertLayout
  pub is_cuda : Bool
  pub ram_cache : Cache (ℕ × ℕ) V
  pub vram_capacity : ℕ
  pub vram_promotion_threshold : ℕ
  pub vram_hot_tier : Dict (ℕ × ℕ) V
  pub access_frequency : Dict (ℕ × ℕ) ℕ
  pub mapped : Option (List ℕ)

-- A slice of the map; like Python's, it is short at the end of the bank.
unfoldable pub read_expert_record : {V : Type 0} → Manager V → ℕ × ℕ → Result (List ℕ)
read_expert_record m key = do
  bytes ← or_raise m.mapped runtime_error
  range ← byte_range m.layout key.0 key.1
  ok (take range.1 (drop range.0 bytes))

-- `access_frequency[key]` of a Counter.
abbrev pub count_of : Option ℕ → ℕ
count_of none = 0
count_of (some n) = n

module _ {V : Type 0} (dec : Discrete (ℕ × ℕ)) (decode : List ℕ → Result V) (to_cuda : V → V) where
  -- Read and decode, with no cache.
  unfoldable pub load_expert : Manager V → ℕ × ℕ → Result V
  unfolding read_expert_record
  load_expert m key = do raw_record ← read_expert_record m key; decode raw_record

  -- `freq` is the number of accesses, this one included.
  unfoldable pub frequency : Manager V → ℕ × ℕ → ℕ
  frequency m key = count_of (Dict.get dec key m.access_frequency)

  unfoldable pub count_access : Manager V → ℕ × ℕ → Manager V
  unfolding frequency
  count_access m key = record m {
    access_frequency = Dict.set dec key (frequency m key + 1) m.access_frequency;
  }

  -- The check for the promotion to the GPU, and the return.
  unfoldable pub promote_hot : ℕ × ℕ → V → Manager V → Result V × Manager V
  unfolding frequency
  promote_hot key cached_expert m =
      if m.is_cuda
        && leb m.vram_promotion_threshold (frequency m key)
        && ltb (length m.vram_hot_tier) m.vram_capacity
      then (
        ok (to_cuda cached_expert),
        record m { vram_hot_tier = Dict.set dec key (to_cuda cached_expert) m.vram_hot_tier },
      )
      else (ok cached_expert, m)

  -- What comes behind `self.ram_cache.put(key, cached_expert)`.
  abbrev pub after_put :
      ℕ × ℕ → V → Manager V → Result (Option ((ℕ × ℕ) × V)) × Cache (ℕ × ℕ) V → Result V × Manager V
  after_put key expert m (ok _, c) = promote_hot key expert (record m { ram_cache = c })
  after_put key expert m (err e, c) = (err e, record m { ram_cache = c })

  -- A miss in RAM: the record is read from the bank, decoded and cached.
  abbrev pub on_load : ℕ × ℕ → Manager V → Result V → Result V × Manager V
  on_load key m (ok expert) = after_put key expert m (ExpertCache.put dec m.ram_cache key expert)
  on_load key m (err e) = (err e, m)

  -- What comes behind `self.ram_cache.get(key)`.
  abbrev pub after_get :
      ℕ × ℕ → Manager V → Result (Option V) × Cache (ℕ × ℕ) V → Result V × Manager V
  after_get key m (ok (some expert), c) = promote_hot key expert (record m { ram_cache = c })
  after_get key m (ok none, c) =
      on_load key (record m { ram_cache = c }) (load_expert (record m { ram_cache = c }) key)
  after_get key m (err e, c) = (err e, record m { ram_cache = c })

  unfoldable pub fetch_expert : Manager V → ℕ × ℕ → Result V × Manager V
  unfolding count_access load_expert promote_hot
  fetch_expert m key = elim (Dict.get dec key m.vram_hot_tier) [
    | some hot ↦ (ok hot, count_access m key)
    | none ↦ after_get key (count_access m key) (ExpertCache.get dec m.ram_cache key)
  ]
