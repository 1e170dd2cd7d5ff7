-- ===== src/Format/PleIndex.antt =====
-- `PleShardMapping` and `PleIndex`: from the tokens of an n-gram to rows of the table, and
-- `build_ple_index` of pockettitan/package/plan.py, which makes the index.
pub mod Window
pub mod Total
pub mod Heads
use mathlib.Core.List.{reverse}
use pocket_titan.Prelude.{
  ℕ, zero, suc, ◌+◌, ◌-◌, ◌*◌, ◌/◌, ◌%◌, Bool, ◌&&◌, not, Option, none, some, List, [], ◌∷◌, ltb,
  leb, ◌==◌, if◌then◌else◌, length, get_elem?, take, drop, Result, ok, err, zero_division,
  index_error, key_error, value_error, ◌>>=◌, ◌>>◌, guard, or_raise, arith, map,
}
use pocket_titan.Prelude.Int.{ℤ, pos, ◌*ℤ◌, xor_ℤ, ◌%ℤ◌, signed_int64}
use pocket_titan.Format.PleRow
use pocket_titan.Format.PleRow.{PleRowLayout}

pub record PleShardMapping : Type 0 where
  pub shard_index : ℕ
  pub logical_first_row : ℕ
  pub physical_first_row : ℕ
  pub num_rows : ℕ

pub record PleIndex : Type 0 where
  pub ngram_size : ℕ
  pub num_heads : ℕ
  pub heads_per_ngram : ℕ
  pub head_offsets : List ℕ
  pub head_vocab_sizes : List ℕ
  pub layer_multipliers : List ℤ
  pub total_rows : ℕ
  pub physical_rows : ℕ
  pub shards : List PleShardMapping
  pub row : PleRowLayout
  pub source_layer : ℕ

unfoldable pub total_bytes : PleIndex → ℕ
total_bytes i = PleRow.bytes_for i.row i.physical_rows

unfoldable pub find_row : List PleShardMapping → ℕ → Option ℕ
find_row [] row = none
find_row (s ∷ shards) row =
    if leb s.logical_first_row row && ltb row (s.logical_first_row + s.num_rows)
    then some (s.physical_first_row + (row - s.logical_first_row))
    else find_row shards row

unfoldable pub physical_row_id : PleIndex → ℕ → Result ℕ
unfolding find_row
physical_row_id i logical_row_id = or_raise (find_row i.shards logical_row_id) key_error

-- The loop over `enumerate(current_first)`.
unfoldable pub hash_from : List ℤ → ℕ → ℤ → List ℕ → Result ℤ
hash_from multipliers position acc [] = ok acc
hash_from multipliers position acc (token ∷ tokens) = do
  m ← or_raise (get_elem? multipliers position) index_error
  let product = signed_int64 (pos token *ℤ m)
  hash_from multipliers (suc position) (signed_int64 (xor_ℤ acc product)) tokens

-- The lines behind the loop.
unfoldable pub head_row : PleIndex → ℕ → ℤ → Result ℕ
head_row i head acc = do
  offset ← or_raise (get_elem? i.head_offsets head) index_error
  vocab ← or_raise (get_elem? i.head_vocab_sizes head) index_error
  guard (not (vocab == 0)) zero_division
  ok (offset + acc %ℤ vocab)

-- `tokens[-n:]` of a list that has n elements or more.
abbrev pub last_tokens : ℕ → List ℕ → List ℕ
last_tokens n tokens = drop (length tokens - n) tokens

unfoldable pub row_id : PleIndex → ℕ → List ℕ → Result ℕ
unfolding hash_from head_row
row_id i head tokens = do
  guard (ltb head i.num_heads) index_error
  guard (not (i.heads_per_ngram == 0)) zero_division
  let ngram_order = 2 + head / i.heads_per_ngram
  guard (leb ngram_order (length tokens)) value_error
  acc ← hash_from i.layer_multipliers 0 (pos 0) (reverse (last_tokens ngram_order tokens))
  head_row i head acc

-- `[self.row_id(h, tokens) for h in range(...)]`: `count` heads from `head` on.
unfoldable pub rows_from : PleIndex → List ℕ → ℕ → ℕ → Result (List ℕ)
rows_from i tokens head zero = ok []
rows_from i tokens head (suc count) = do
  r ← row_id i head tokens
  rs ← rows_from i tokens (suc head) count
  ok (r ∷ rs)

unfoldable pub row_ids : PleIndex → List ℕ → Result (List ℕ)
unfolding rows_from
row_ids i tokens = rows_from i tokens 0 i.num_heads

-- The parts of the PLE plan that `build_ple_index` reads.
pub record PlePlan : Type 0 where
  pub logical_total_rows : ℕ
  pub total_rows : ℕ
  pub shards : List PleShardMapping
  pub row : PleRowLayout
  pub source_layer : ℕ

-- `xs[-1]`
unfoldable pub last? : List ℕ → Option ℕ
last? [] = none
last? (x ∷ []) = some x
last? (x ∷ y ∷ ys) = last? (y ∷ ys)

-- PlanError is a ValueError.
unfoldable pub build_ple_index : PlePlan → ℕ → List ℕ → List ℕ → List ℤ → Result PleIndex
unfolding last?
build_ple_index plan ngram_size head_offsets head_vocab_sizes layer_multipliers = do
  guard (length head_offsets == length head_vocab_sizes) value_error
  guard (leb ngram_size (length layer_multipliers)) value_error
  let num_orders = ngram_size - 1
  guard (ltb 0 num_orders && length head_offsets % num_orders == 0) value_error
  offset ← or_raise (last? head_offsets) index_error
  vocab ← or_raise (last? head_vocab_sizes) index_error
  guard (leb (offset + vocab) plan.logical_total_rows) value_error
  ok (record {
    ngram_size = ngram_size;
    num_heads = length head_offsets;
    heads_per_ngram = length head_offsets / num_orders;
    head_offsets = head_offsets;
    head_vocab_sizes = head_vocab_sizes;
    layer_multipliers = take ngram_size layer_multipliers;
    total_rows = plan.logical_total_rows;
    physical_rows = plan.total_rows;
    shards = plan.shards;
    row = plan.row;
    source_layer = plan.source_layer;
  })
