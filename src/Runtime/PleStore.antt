-- ===== src/Runtime/PleStore.antt =====
-- pockettitan/runtime/ple/store.py: `PleRowStore`, the n-gram table behind an LRU row cache. The
-- memory map is the table's bytes (`none` for a table that is not open); `decode` stands for
-- `decode_row`, which hands the bytes to torch.
pub mod Transparent
use native.Mathlib.Decide.{ℕ_discrete}
use pocket_titan.Prelude.{
  ℕ, ◌+◌, Option, none, some, List, [], ◌∷◌, leb, if◌then◌else◌, length, take, drop, Result, ok,
  err, key_error, runtime_error, ◌>>=◌, or_raise,
}
use pocket_titan.Prelude.Dict
use pocket_titan.Prelude.Dict.{Dict}
use pocket_titan.Format.PleRow.{row_offset}
use pocket_titan.Format.PleIndex.{PleIndex, PleShardMapping, physical_row_id}
use pocket_titan.Runtime.PleHasher.{hash_all_heads}

pub record Store (T : Type 0) : Type 0 where
  pub index : PleIndex
  pub cache_capacity : ℕ
  pub cache : Dict ℕ T
  pub mapped : Option (List ℕ)

module _ {T : Type 0} where
  -- A slice of the map; like Python's, it is short at the end of the table.
  unfoldable pub read_row_raw : Store T → ℕ → Result (List ℕ)
  read_row_raw s row_id = do
    bytes ← or_raise s.mapped runtime_error
    ok (take s.index.row.payload_bytes (drop (row_offset s.index.row row_id) bytes))

  -- `physical_row_id(...) if self.index.shards else logical_row_id`
  unfoldable pub resolve : Store T → ℕ → Result ℕ
  resolve s logical_row_id = elim s.index.shards [
    | [] ↦ ok logical_row_id
    | shard ∷ shards ↦ physical_row_id s.index logical_row_id
  ]

  -- `popitem(last=False)` of a full cache, and the insertion.
  unfoldable pub insert : Store T → ℕ → T → Result T × Store T
  insert s logical_row_id tensor =
      if leb s.cache_capacity (length s.cache)
      then elim s.cache [
        | [] ↦ (err key_error, s)
        | oldest ∷ rest ↦
            (ok tensor, record s { cache = Dict.set ℕ_discrete logical_row_id tensor rest })
      ]
      else (ok tensor, record s { cache = Dict.set ℕ_discrete logical_row_id tensor s.cache })

  abbrev pub insert_decoded : Store T → ℕ → Result T → Result T × Store T
  insert_decoded s logical_row_id (ok tensor) = insert s logical_row_id tensor
  insert_decoded s logical_row_id (err e) = (err e, s)

  abbrev pub with_tensor : T → Result (List T) × Store T → Result (List T) × Store T
  with_tensor tensor (ok tensors, s) = (ok (tensor ∷ tensors), s)
  with_tensor tensor (err e, s) = (err e, s)

  abbrev pub after_fetch :
      (Store T → Result (List T) × Store T) → Result T × Store T → Result (List T) × Store T
  after_fetch later (ok tensor, s) = with_tensor tensor (later s)
  after_fetch later (err e, s) = (err e, s)

-- `torch.stack` takes at least one tensor.
abbrev pub stack : {T : Type 0} → List T → Result (List T)
stack [] = err runtime_error
stack (tensor ∷ tensors) = ok (tensor ∷ tensors)

abbrev pub stacked : {T : Type 0} → Result (List T) × Store T → Result (List T) × Store T
stacked (tensors, s) = (tensors >>= stack, s)

module _ {T : Type 0} (decode : List ℕ → Result T) where
  -- Resolve, read and decode, with no cache.
  unfoldable pub read_row : Store T → ℕ → Result T
  unfolding resolve read_row_raw
  read_row s logical_row_id = do
    physical_id ← resolve s logical_row_id
    row_bytes ← read_row_raw s physical_id
    decode row_bytes

  unfoldable pub fetch_row : Store T → ℕ → Result T × Store T
  unfolding insert
  fetch_row s logical_row_id = elim (Dict.get ℕ_discrete logical_row_id s.cache) [
    | some tensor ↦
        (ok tensor, record s { cache = Dict.move_to_end ℕ_discrete logical_row_id tensor s.cache })
    | none ↦ insert_decoded s logical_row_id (read_row s logical_row_id)
  ]

  -- `[self.fetch_row(r) for r in row_ids]`: the first exception ends the loop.
  unfoldable pub fetch_rows : Store T → List ℕ → Result (List T) × Store T
  fetch_rows s [] = (ok [], s)
  fetch_rows s (r ∷ rs) = after_fetch (λ s'. fetch_rows s' rs) (fetch_row s r)

  -- The rows of one token, joined by `torch.stack`.
  unfoldable pub fetch_step_embedding : Store T → List ℕ → Result (List T) × Store T
  unfolding fetch_rows
  fetch_step_embedding s token_history = elim (hash_all_heads s.index token_history) [
    | ok row_ids ↦ stacked (fetch_rows s row_ids)
    | err e ↦ (err e, s)
  ]
