-- ===== src/Tests/Ple.antt =====
-- The n-gram table: a small index, its hasher, and its row cache over a decoder of one byte.
use native.Mathlib.Decide.{ℕ_discrete}
use pocket_titan.Prelude.{
  true, ℕ, ◌+◌, ◌≤◌, ◌<◌, ◌≡◌, refl, some, List, [], ◌∷◌, length, Result, ok, err, value_error,
  runtime_error, arith, ◌>>=◌, get_elem?, All, subst, ap, or_raise,
}
use pocket_titan.Prelude.Dict
use pocket_titan.Prelude.Int.{ℤ, pos, ◌*ℤ◌, ◌%ℤ◌, xor_ℤ, signed_int64}
use pocket_titan.Format.PleRow.{PleRowLayout, row_offset}
use pocket_titan.Format.PleIndex.{
  PleIndex, PlePlan, PleShardMapping, row_id, build_ple_index, physical_row_id,
}
use pocket_titan.Format.PleIndex.Total.{row_id_total}
use pocket_titan.Format.PleIndex.Heads.{AreCumulative, row_id_apart}
use pocket_titan.Runtime.PleHasher.{hash_all_heads, hash_sequence_batched}
use pocket_titan.Runtime.PleHasher.History.{hash_all_heads_total}
use pocket_titan.Runtime.PleStore.{Store, read_row, fetch_row, fetch_step_embedding, stack}
use pocket_titan.Runtime.PleStore.Transparent.{
  IsCoherent, SameTable, fetch_row_transparent, read_rows, fetch_step_embedding_transparent,
}

program : Unit {0}
unfolding Dict.get Dict.set Dict.remove ℕ_discrete row_id build_ple_index hash_all_heads
    hash_sequence_batched physical_row_id row_offset read_row fetch_row fetch_step_embedding ◌*ℤ◌
    ◌%ℤ◌ xor_ℤ signed_int64
program = tt

abbrev row : PleRowLayout
row = record {
  row_width = 1;
  bits = 8;
  group_size = 1;
  symmetric = true;
  codec_id = "pt.ple.rtn.v1";
  payload_bytes = 1;
  rows_per_page = 4;
  page_bytes = 4;
}

abbrev shard : PleShardMapping
shard = record { shard_index = 0; logical_first_row = 0; physical_first_row = 0; num_rows = 24 }

abbrev plan : PlePlan
plan = record {
  logical_total_rows = 24;
  total_rows = 24;
  shards = shard ∷ [];
  row = row;
  source_layer = 1;
}

abbrev multipliers : List ℤ
multipliers = pos 3 ∷ pos 5 ∷ pos 7 ∷ pos 9 ∷ []

abbrev index : PleIndex
index = record {
  ngram_size = 3;
  num_heads = 4;
  heads_per_ngram = 2;
  head_offsets = 0 ∷ 5 ∷ 10 ∷ 17 ∷ [];
  head_vocab_sizes = 5 ∷ 5 ∷ 7 ∷ 7 ∷ [];
  layer_multipliers = pos 3 ∷ pos 5 ∷ pos 7 ∷ [];
  total_rows = 24;
  physical_rows = 24;
  shards = shard ∷ [];
  row = row;
  source_layer = 1;
}

index_lem :
    build_ple_index plan 3 (0 ∷ 5 ∷ 10 ∷ 17 ∷ []) (5 ∷ 5 ∷ 7 ∷ 7 ∷ []) multipliers ≡ ok index
unfolding program
index_lem = refl

-- 3 * 9 ^ 5 * 8 = 51, and 51 ^ 7 * 7 = 2.
hashed : (row_id index 0 (7 ∷ 8 ∷ 9 ∷ []) ≡ ok 1) × (row_id index 3 (7 ∷ 8 ∷ 9 ∷ []) ≡ ok 19)
unfolding program
hashed = (refl, refl)

short : row_id index 3 (8 ∷ 9 ∷ []) ≡ err value_error
unfolding program
short = refl

positive : All (λ v. 0 < v) index.head_vocab_sizes
positive = (omega arith, (omega arith, (omega arith, (omega arith, tt))))

cumulative : AreCumulative 0 index.head_offsets index.head_vocab_sizes
cumulative = (refl, (refl, (refl, (refl, tt))))

row_id_total_example :
    (r offset vocab : ℕ) × (row_id index 3 (7 ∷ 8 ∷ 9 ∷ []) ≡ ok r)
    × (get_elem? index.head_offsets 3 ≡ some offset)
    × (get_elem? index.head_vocab_sizes 3 ≡ some vocab)
    × (offset ≤ r)
    × (r < offset + vocab)
row_id_total_example =
    row_id_total plan 3 (0 ∷ 5 ∷ 10 ∷ 17 ∷ []) (5 ∷ 5 ∷ 7 ∷ 7 ∷ []) multipliers index 3
      (7 ∷ 8 ∷ 9 ∷ []) index_lem positive (omega arith) (omega arith)

row_id_apart_example :
    (r r' : ℕ) × (row_id index 0 (7 ∷ 8 ∷ 9 ∷ []) ≡ ok r)
    × (row_id index 3 (1 ∷ 2 ∷ 3 ∷ []) ≡ ok r')
    × (r < r')
row_id_apart_example =
    row_id_apart plan 3 (0 ∷ 5 ∷ 10 ∷ 17 ∷ []) (5 ∷ 5 ∷ 7 ∷ 7 ∷ []) multipliers index 0 3
      (7 ∷ 8 ∷ 9 ∷ []) (1 ∷ 2 ∷ 3 ∷ []) index_lem positive cumulative (omega arith) (omega arith)
      (omega arith) (omega arith)

hash_all_heads_total_example :
    (rows : List ℕ) × (hash_all_heads index (9 ∷ []) ≡ ok rows) × (length rows ≡ 4)
hash_all_heads_total_example =
    hash_all_heads_total plan 3 (0 ∷ 5 ∷ 10 ∷ 17 ∷ []) (5 ∷ 5 ∷ 7 ∷ 7 ∷ []) multipliers index
      index_lem (9 ∷ []) positive

abbrev decode : List ℕ → Result ℕ
decode (b ∷ []) = ok (b + 100)
decode _ = err runtime_error

-- A store of six bytes whose cache of two rows is full.
abbrev store : Store ℕ
store = record {
  index = index;
  cache_capacity = 2;
  cache = (1, 111) ∷ (4, 114) ∷ [];
  mapped = some (10 ∷ 11 ∷ 12 ∷ 13 ∷ 14 ∷ 15 ∷ []);
}

fetched : fetch_row decode store 2 ≡ (ok 112, record store { cache = (4, 114) ∷ (2, 112) ∷ [] })
unfolding program
fetched = refl

past_the_end : fetch_row decode store 9 ≡ (err runtime_error, store)
unfolding program
past_the_end = refl

abbrev Agrees : ℕ → ℕ → Type 0
Agrees v k = Dict.get ℕ_discrete k store.cache ≡ some v → read_row decode store k ≡ ok v

Agrees-one : (v : ℕ) → Agrees v 1
unfolding program
Agrees-one v e = ap (λ o. or_raise o runtime_error) e

Agrees-four : (v : ℕ) → Agrees v 4
unfolding program
Agrees-four v e = ap (λ o. or_raise o runtime_error) e

Agrees-other : (v id : ℕ) → ¬ (1 ≡ id) → ¬ (4 ≡ id) → Agrees v id
unfolding Dict.get
Agrees-other v id other other' e = absurd (ground arith)

cached_rows : (id v : ℕ) → Agrees v id
cached_rows id v = elim (ℕ_discrete 1 id) [
  | yes same ↦ subst (Agrees v) same (Agrees-one v)
  | no other ↦ elim (ℕ_discrete 4 id) [
    | yes same ↦ subst (Agrees v) same (Agrees-four v)
    | no other' ↦ Agrees-other v id other other'
  ]
]

store-IsCoherent : IsCoherent decode store
unfolding program
store-IsCoherent = record {
  unique = (refl, (refl, tt));
  some_capacity = omega arith;
  fits = omega arith;
  agrees = cached_rows;
}

fetch_row_transparent_example :
    (s' : Store ℕ) × (fetch_row decode store 2 ≡ (read_row decode store 2, s'))
    × IsCoherent decode s'
    × SameTable decode store s'
fetch_row_transparent_example = fetch_row_transparent decode store 2 store-IsCoherent

fetch_step_embedding_transparent_example :
    (s' : Store ℕ) × (fetch_step_embedding decode store (9 ∷ [])
      ≡ ((hash_all_heads store.index (9 ∷ []) >>= read_rows decode store) >>= stack, s'))
    × IsCoherent decode s'
    × SameTable decode store s'
fetch_step_embedding_transparent_example =
    fetch_step_embedding_transparent decode store (9 ∷ []) store-IsCoherent
