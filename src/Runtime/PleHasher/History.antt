-- ===== src/Runtime/PleHasher/History.antt =====
-- The rows of a position need only its last `ngram_size` tokens, and are always found.
use pocket_titan.Prelude.{
  ℕ, zero, suc, ◌+◌, ◌-◌, ◌≤◌, ◌<◌, ◌≡◌, refl, ap, List, [], ◌∷◌, ◌++◌, ltb, length, replicate,
  length-append, All, ok, arith, Bool-cases, inl, inr, ltb→lt, ltb→le,
}
use pocket_titan.Prelude.Int.{ℤ}
use pocket_titan.Format.PleIndex.{PleIndex, PlePlan, rows_from, build_ple_index}
use pocket_titan.Format.PleIndex.Window.{row_id_window}
use pocket_titan.Format.PleIndex.Total.{
  IsResolvable, build_ple_index-IsResolvable, ngram_order_le, row_id_total,
}
use pocket_titan.Runtime.PleHasher.{pad, hash_all_heads}

length-replicate : (n : ℕ) → length (replicate {A = ℕ} n 0) ≡ n
length-replicate zero = refl
length-replicate (suc n) = ap suc (length-replicate n)

pad_long : (n : ℕ) (tokens : List ℕ) → n ≤ length tokens → pad n tokens ≡ tokens
unfolding pad
pad_long n tokens h = ground arith

length-pad : (n : ℕ) (tokens : List ℕ) → n ≤ length (pad n tokens)
unfolding pad
length-pad n tokens = elim (Bool-cases (ltb (length tokens) n)) [
  | inl short ↦ rw short (
      omega (
        arith,
        length-append (replicate (n - length tokens) 0) tokens,
        length-replicate (n - length tokens),
        ltb→lt (length tokens) n short,
      ))
  | inr long ↦ rw long (ltb→le (length tokens) n long)
]

rows_from_window :
    (i : PleIndex) (older tokens : List ℕ) (head count : ℕ)
    → IsResolvable i
    → head + count ≤ i.num_heads
    → i.ngram_size ≤ length tokens
    → rows_from i (older ++ tokens) head count ≡ rows_from i tokens head count
unfolding rows_from
rows_from_window i older tokens head zero w h enough = refl
rows_from_window i older tokens head (suc count) w h enough =
    let order =
      ngram_order_le head i.heads_per_ngram i.ngram_size i.num_heads w.heads (omega arith) in
    rw (
      row_id_window i head older tokens (omega arith),
      rows_from_window i older tokens (suc head) count w (omega arith) enough,
    )

rows_from_total :
    (plan : PlePlan) (ngram_size : ℕ) (head_offsets head_vocab_sizes : List ℕ)
    (layer_multipliers : List ℤ) (i : PleIndex) (tokens : List ℕ) (head count : ℕ)
    → build_ple_index plan ngram_size head_offsets head_vocab_sizes layer_multipliers ≡ ok i
    → All (λ v. 0 < v) i.head_vocab_sizes
    → head + count ≤ i.num_heads
    → i.ngram_size ≤ length tokens
    → (rows : List ℕ) × (rows_from i tokens head count ≡ ok rows) × (length rows ≡ count)
unfolding rows_from
rows_from_total plan n offsets vocabs ms i tokens head zero built positive h enough =
    ([], refl, refl)
rows_from_total plan n offsets vocabs ms i tokens head (suc count) built positive h enough =
    let x =
      row_id_total plan n offsets vocabs ms i head tokens built positive (omega arith) enough in
    let y =
      rows_from_total plan n offsets vocabs ms i tokens (suc head) count built positive
        (omega arith) enough in
    (x.0 ∷ y.0, rw (x.3, y.1), ap suc y.2)

module _ (plan : PlePlan) (ngram_size : ℕ) (head_offsets head_vocab_sizes : List ℕ)
    (layer_multipliers : List ℤ) (i : PleIndex)
    (built : build_ple_index plan ngram_size head_offsets head_vocab_sizes layer_multipliers
      ≡ ok i) where
  -- With an index that `build_ple_index` returned with positive vocabulary sizes, every history of
  -- tokens, however short, resolves to one row for each head: padding makes it long enough, so that
  -- the `ngram_size` tokens that the docstring of `hash_all_heads` requires are not needed.
  pub hash_all_heads_total :
      (tokens : List ℕ)
      → All (λ v. 0 < v) i.head_vocab_sizes
      → (rows : List ℕ) × (hash_all_heads i tokens ≡ ok rows) × (length rows ≡ i.num_heads)
  unfolding hash_all_heads
  hash_all_heads_total tokens positive =
      rows_from_total plan ngram_size head_offsets head_vocab_sizes layer_multipliers i
        (pad i.ngram_size tokens) 0 i.num_heads built positive (omega arith)
        (length-pad i.ngram_size tokens)

  -- The prefetch is exact: with an index from `build_ple_index`, the rows of a history of at least
  -- `ngram_size` tokens are the same whatever tokens came before it.
  pub hash_all_heads_window :
      (older tokens : List ℕ)
      → i.ngram_size ≤ length tokens
      → hash_all_heads i (older ++ tokens) ≡ hash_all_heads i tokens
  unfolding hash_all_heads
  hash_all_heads_window older tokens enough =
      let w =
        build_ple_index-IsResolvable plan ngram_size head_offsets head_vocab_sizes layer_multipliers
          i built in
      rw
        (
          pad_long i.ngram_size (older ++ tokens) (omega (arith, length-append older tokens)),
          pad_long i.ngram_size tokens enough,
        )
        (rows_from_window i older tokens 0 i.num_heads w (omega arith) enough)
