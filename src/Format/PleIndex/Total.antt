-- ===== src/Format/PleIndex/Total.antt =====
-- An index that `build_ple_index` returns resolves every n-gram of enough tokens, inside its head.
use mathlib.Core.List.{reverse}
use native.Mathlib.Nat.{div-add-mod'}
use pocket_titan.Prelude.{
  ℕ, zero, suc, ◌+◌, ◌-◌, ◌*◌, ◌/◌, ◌%◌, ◌≤◌, ◌<◌, ◌≡◌, ◌∙◌, refl, true, false, ◌&&◌, some, List,
  [], ◌∷◌, ltb, leb, ◌==◌, length, get_elem?, take, length-drop, length-take, length-reverse,
  get_elem?-some, All, All-get_elem?, ok, index_error, value_error, or_raise, arith, >>=-eq-ok,
  guard-eq-ok, leb→le, ok-injective, lt→ltb, le→leb, subst,
}
use pocket_titan.Prelude.Int.{ℤ, pos, ◌%ℤ◌, %ℤ-lt}
use pocket_titan.Format.PleIndex.{
  PleIndex, PlePlan, last?, hash_from, head_row, row_id, last_tokens, build_ple_index,
}

hash_from_total :
    (ms : List ℤ) (position : ℕ) (acc : ℤ) (tokens : List ℕ)
    → position + length tokens ≤ length ms
    → (r : ℤ) × (hash_from ms position acc tokens ≡ ok r)
unfolding hash_from
hash_from_total ms position acc [] h = (acc, refl)
hash_from_total ms position acc (t ∷ tokens) h =
    let (m, e) = get_elem?-some ms position (omega arith) in
    rw e (hash_from_total ms (suc position) _ tokens (omega arith))

-- What the tests of `build_ple_index` leave true of its result.
pub record IsResolvable (i : PleIndex) : Type 0 where
  pub offsets : length i.head_offsets ≡ i.num_heads
  pub vocabs : length i.head_vocab_sizes ≡ i.num_heads
  pub multipliers : length i.layer_multipliers ≡ i.ngram_size
  pub some_order : 1 < i.ngram_size
  pub heads : i.heads_per_ngram * (i.ngram_size - 1) ≡ i.num_heads

pub build_ple_index-IsResolvable :
    (plan : PlePlan) (ngram_size : ℕ) (head_offsets head_vocab_sizes : List ℕ)
    (layer_multipliers : List ℤ) (i : PleIndex)
    → build_ple_index plan ngram_size head_offsets head_vocab_sizes layer_multipliers ≡ ok i
    → IsResolvable i
unfolding build_ple_index
build_ple_index-IsResolvable plan n offsets vocabs ms i h =
    let (same, h1) = guard-eq-ok (length offsets == length vocabs) value_error _ h in
    let (enough, h2) = guard-eq-ok (leb n (length ms)) value_error _ h1 in
    let orders = n - 1 in
    let (split, h3) = guard-eq-ok (ltb 0 orders && length offsets % orders == 0) value_error _ h2 in
    let (offset, e, h4) = >>=-eq-ok (or_raise (last? offsets) index_error) _ h3 in
    let (vocab, e', h5) = >>=-eq-ok (or_raise (last? vocabs) index_error) _ h4 in
    let (fits, h6) = guard-eq-ok (leb (offset + vocab) plan.logical_total_rows) value_error _ h5 in
    subst IsResolvable (ok-injective h6) (record {
      offsets = refl;
      vocabs = ground arith;
      multipliers = kept n ms enough;
      some_order = ground arith;
      heads = whole (length offsets) orders split;
    })
  where
    kept : (n : ℕ) (ms : List ℤ) → leb n (length ms) ≡ true → length (take n ms) ≡ n
    kept n ms enough = omega (arith, length-take n ms, leb→le n (length ms) enough)

    whole :
        (len orders : ℕ) → (ltb 0 orders && len % orders == 0) ≡ true → len / orders * orders ≡ len
    whole len orders split =
        let none_left : len % orders ≡ 0 = ground arith in omega (arith, div-add-mod' len orders)

factor_pos : (a b : ℕ) → 0 < a * b → 0 < a
factor_pos zero b h = absurd (omega arith)
factor_pos (suc a) b h = omega arith

below_of_scaled : (per a b : ℕ) → a * per < per * b → a < b
below_of_scaled per a b h = grind arith

pub ngram_order_le :
    (head per n heads : ℕ) → per * (n - 1) ≡ heads → head < heads → 2 + head / per ≤ n
ngram_order_le head per n heads e lt =
    let pos_per : 0 < per = factor_pos per (n - 1) (omega arith) in
    let below : head / per < n - 1 =
      below_of_scaled per (head / per) (n - 1) (omega (arith, div-add-mod' head per)) in
    omega arith

head_row_within :
    (i : PleIndex) (head : ℕ) (acc : ℤ)
    → IsResolvable i
    → All (λ v. 0 < v) i.head_vocab_sizes
    → head < i.num_heads
    → (r offset vocab : ℕ) × (head_row i head acc ≡ ok r)
      × (get_elem? i.head_offsets head ≡ some offset)
      × (get_elem? i.head_vocab_sizes head ≡ some vocab)
      × (offset ≤ r)
      × (r < offset + vocab)
unfolding head_row
head_row_within i head acc w positive lt =
    let (offset, e) = get_elem?-some i.head_offsets head (omega (arith, w.offsets)) in
    let (vocab, e') = get_elem?-some i.head_vocab_sizes head (omega (arith, w.vocabs)) in
    let pos_vocab : 0 < vocab =
      All-get_elem? (λ v. 0 < v) i.head_vocab_sizes head vocab positive e' in
    let nonzero : (vocab == 0) ≡ false = ground arith in
    (
      offset + acc %ℤ vocab,
      offset,
      vocab,
      rw (e, e', nonzero),
      e,
      e',
      omega arith,
      omega (arith, %ℤ-lt acc vocab pos_vocab),
    )

some_heads :
    (per orders heads : ℕ) {head : ℕ} → per * orders ≡ heads → head < heads → (per == 0) ≡ false
some_heads zero orders heads e lt = absurd (omega arith)
some_heads (suc per) orders heads e lt = ground arith

row_id-head_row :
    (i : PleIndex) (head : ℕ) (tokens : List ℕ) (acc : ℤ)
    → ltb head i.num_heads ≡ true
    → (i.heads_per_ngram == 0) ≡ false
    → leb (2 + head / i.heads_per_ngram) (length tokens) ≡ true
    → hash_from i.layer_multipliers 0
        (pos 0)
        (reverse (last_tokens (2 + head / i.heads_per_ngram) tokens))
      ≡ ok acc
    → row_id i head tokens ≡ head_row i head acc
unfolding row_id
row_id-head_row i head tokens acc p q r e = rw (p, q, r, e)

-- Resolution is total and stays in its head: for an index that `build_ple_index` returned with
-- positive vocabulary sizes, any head of the index and any history of at least `ngram_size`
-- tokens, `row_id` returns a row, and it lies in that head's own segment of the table.
pub row_id_total :
    (plan : PlePlan) (ngram_size : ℕ) (head_offsets head_vocab_sizes : List ℕ)
    (layer_multipliers : List ℤ) (i : PleIndex) (head : ℕ) (tokens : List ℕ)
    → build_ple_index plan ngram_size head_offsets head_vocab_sizes layer_multipliers ≡ ok i
    → All (λ v. 0 < v) i.head_vocab_sizes
    → head < i.num_heads
    → i.ngram_size ≤ length tokens
    → (r offset vocab : ℕ) × (row_id i head tokens ≡ ok r)
      × (get_elem? i.head_offsets head ≡ some offset)
      × (get_elem? i.head_vocab_sizes head ≡ some vocab)
      × (offset ≤ r)
      × (r < offset + vocab)
row_id_total plan n offsets vocabs ms i head tokens built positive lt enough =
    let w = build_ple_index-IsResolvable plan n offsets vocabs ms i built in
    let order = 2 + head / i.heads_per_ngram in
    let small : order ≤ i.ngram_size =
      ngram_order_le head i.heads_per_ngram i.ngram_size i.num_heads w.heads lt in
    let window = reverse (last_tokens order tokens) in
    let fits : 0 + length window ≤ length i.layer_multipliers = omega (
      arith,
      w.multipliers,
      length-reverse (last_tokens order tokens),
      length-drop (length tokens - order) tokens,
    ) in
    let (acc, hashed) = hash_from_total i.layer_multipliers 0 (pos 0) window fits in
    let per_pos : (i.heads_per_ngram == 0) ≡ false =
      some_heads i.heads_per_ngram (i.ngram_size - 1) i.num_heads w.heads lt in
    let long : order ≤ length tokens = omega arith in
    let x = head_row_within i head acc w positive lt in
    let step : row_id i head tokens ≡ head_row i head acc =
      row_id-head_row i head tokens acc (lt→ltb _ _ lt) per_pos (le→leb _ _ long) hashed in
    (x.0, x.1, x.2, step ∙ x.3, x.4, x.5, x.6, x.7)
