-- ===== src/Runtime/PleHasher.antt =====
-- pockettitan/runtime/ple/hash.py: `PleHasher`, from token histories to rows of the n-gram table.
-- Its `signed_int64` is that of `PleIndex.row_id`.
pub mod History
use pocket_titan.Prelude.{
  ℕ, zero, suc, ◌+◌, ◌-◌, List, [], ◌∷◌, ◌++◌, ltb, if◌then◌else◌, length, take, replicate, Result,
  ok, ◌>>=◌,
}
use pocket_titan.Format.PleIndex.{PleIndex, row_id, rows_from}

unfoldable pub hash_single_head : PleIndex → ℕ → List ℕ → Result ℕ
hash_single_head i head tokens = row_id i head tokens

-- `[0] * pad_len + list(tokens)`, for a history shorter than the largest n-gram.
unfoldable pub pad : ℕ → List ℕ → List ℕ
pad ngram_size tokens =
    if ltb (length tokens) ngram_size
    then replicate (ngram_size - length tokens) 0 ++ tokens
    else tokens

unfoldable pub hash_all_heads : PleIndex → List ℕ → Result (List ℕ)
unfolding pad
hash_all_heads i tokens = rows_from i (pad i.ngram_size tokens) 0 i.num_heads

-- `for i in range(len(tok_list))`: the histories of `count` positions from `position` on.
unfoldable pub hash_positions : PleIndex → List ℕ → ℕ → ℕ → Result (List (List ℕ))
hash_positions i tokens position zero = ok []
hash_positions i tokens position (suc count) = do
  rows ← hash_all_heads i (take (position + 1) tokens)
  rest ← hash_positions i tokens (suc position) count
  ok (rows ∷ rest)

unfoldable pub hash_sequence_batched : PleIndex → List ℕ → Result (List (List ℕ))
unfolding hash_positions
hash_sequence_batched i tokens = hash_positions i tokens 0 (length tokens)
