-- ===== src/Format/PleIndex/Heads.antt =====
-- Heads that are laid out one behind the other never share a row, and every row is in the table.
use native.Mathlib.Omega.{arith}
use pocket_titan.Prelude.{
  ℕ, zero, suc, ◌+◌, ◌≤◌, ◌<◌, ◌≡◌, some, List, [], ◌∷◌, length, get_elem?, All, ok,
}
use pocket_titan.Prelude.Int.{ℤ}
use pocket_titan.Format.PleIndex.{PleIndex, PlePlan, row_id, build_ple_index}
use pocket_titan.Format.PleIndex.Total.{row_id_total}

-- `head_offsets` are the running sums of `head_vocab_sizes`, from `start`.
abbrev pub AreCumulative : ℕ → List ℕ → List ℕ → Type 0
AreCumulative start [] [] = Unit
AreCumulative start (o ∷ offsets) (v ∷ vocabs) =
    (o ≡ start) × AreCumulative (start + v) offsets vocabs
AreCumulative start _ _ = ⊥

segment_from :
    (start : ℕ) (offsets vocabs : List ℕ) (h offset : ℕ)
    → AreCumulative start offsets vocabs
    → get_elem? offsets h ≡ some offset
    → start ≤ offset
segment_from start [] vocabs h offset c e = cc
segment_from start (o ∷ offsets) [] h offset c e = absurd c
segment_from start (o ∷ offsets) (v ∷ vocabs) zero offset c e = ground (arith)
segment_from start (o ∷ offsets) (v ∷ vocabs) (suc h) offset c e =
    omega (arith, segment_from (start + v) offsets vocabs h offset c.1 e)

segments_apart :
    (start : ℕ) (offsets vocabs : List ℕ) (h h' offset offset' vocab : ℕ)
    → AreCumulative start offsets vocabs
    → h < h'
    → get_elem? offsets h ≡ some offset
    → get_elem? vocabs h ≡ some vocab
    → get_elem? offsets h' ≡ some offset'
    → offset + vocab ≤ offset'
segments_apart start [] vocabs h h' offset offset' vocab c lt e f e' = cc
segments_apart start (o ∷ offsets) [] h h' offset offset' vocab c lt e f e' = absurd c
segments_apart start (o ∷ offsets) (v ∷ vocabs) h zero offset offset' vocab c lt e f e' =
    absurd (omega arith)
segments_apart start (o ∷ offsets) (v ∷ vocabs) zero (suc h') offset offset' vocab c lt e f e' =
    let later = segment_from (start + v) offsets vocabs h' offset' c.1 e' in ground arith
segments_apart start (o ∷ offsets) (v ∷ vocabs) (suc h) (suc h') offset offset' vocab c lt e f e' =
    segments_apart (start + v) offsets vocabs h h' offset offset' vocab c.1 (omega arith) e f e'

-- Two heads of an index from `build_ple_index`, whose offsets are the running sums of its positive
-- vocabulary sizes, never resolve to the same row: for any two histories of enough tokens the
-- head with the smaller number gets the smaller row.
pub row_id_apart :
    (plan : PlePlan) (ngram_size : ℕ) (head_offsets head_vocab_sizes : List ℕ)
    (layer_multipliers : List ℤ) (i : PleIndex) (head head' : ℕ) (tokens tokens' : List ℕ)
    → build_ple_index plan ngram_size head_offsets head_vocab_sizes layer_multipliers ≡ ok i
    → All (λ v. 0 < v) i.head_vocab_sizes
    → AreCumulative 0 i.head_offsets i.head_vocab_sizes
    → head < head'
    → head' < i.num_heads
    → i.ngram_size ≤ length tokens
    → i.ngram_size ≤ length tokens'
    → (r r' : ℕ) × (row_id i head tokens ≡ ok r) × (row_id i head' tokens' ≡ ok r') × (r < r')
row_id_apart plan n offsets vocabs ms i head head' tokens tokens' built positive c lt lt' enough
      enough' =
    let x =
      row_id_total plan n offsets vocabs ms i head tokens built positive (omega arith) enough in
    let y = row_id_total plan n offsets vocabs ms i head' tokens' built positive lt' enough' in
    let apart =
      segments_apart 0 i.head_offsets i.head_vocab_sizes head head' x.1 y.1 x.2 c lt x.4 x.5 y.4 in
    (x.0, y.0, x.3, y.3, omega (arith, apart, x.7, y.6))
