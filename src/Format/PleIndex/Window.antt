-- ===== src/Format/PleIndex/Window.antt =====
-- A row is a function of the last tokens alone, which is what makes its prefetch exact.
use native.Mathlib.Omega.{arith}
use pocket_titan.Prelude.{
  ℕ, ◌+◌, ◌-◌, ◌/◌, ◌≤◌, ◌≡◌, List, ◌++◌, length, length-append, drop-append, le→leb,
}
use pocket_titan.Format.PleIndex.{PleIndex, row_id, last_tokens}

pub last_tokens-append :
    (n : ℕ) (older tokens : List ℕ)
    → n ≤ length tokens
    → last_tokens n (older ++ tokens) ≡ last_tokens n tokens
last_tokens-append n older tokens h =
    let e : length (older ++ tokens) - n ≡ length older + (length tokens - n) =
      omega (arith, length-append older tokens) in
    rw e (drop-append older tokens (length tokens - n))

-- Whatever tokens came before, the row of a head depends only on the n-gram at the end: a history
-- that holds the head's n-gram gives the same row, or the same exception, with any older tokens
-- in front of it.
pub row_id_window :
    (i : PleIndex) (head : ℕ) (older tokens : List ℕ)
    → 2 + head / i.heads_per_ngram ≤ length tokens
    → row_id i head (older ++ tokens) ≡ row_id i head tokens
unfolding row_id
row_id_window i head older tokens h =
    let long : 2 + head / i.heads_per_ngram ≤ length (older ++ tokens) =
      omega (arith, length-append older tokens) in
    rw (le→leb _ _ long, le→leb _ _ h, last_tokens-append _ older tokens h)
