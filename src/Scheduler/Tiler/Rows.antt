-- ===== src/Scheduler/Tiler/Rows.antt =====
-- The tiles cover every row once, in order.
use pocket_titan.Prelude.{
  ℕ, zero, suc, ◌+◌, ◌-◌, ◌*◌, ◌≤◌, ◌<◌, ◌≡◌, ◌∙◌, sym, refl, ap, inl, inr, min, Bool, List, [],
  ◌++◌, leb, length, take, drop, drop-drop, drop_all, length-drop, take-append-drop, Option, none,
  some, Result, ok, err, ◌>>=◌, arith, Bool-cases, leb→le, leb→lt,
}
use pocket_titan.Scheduler.Budget.{aligned_tile_rows}
use pocket_titan.Scheduler.Tiler.{
  Matrix, QuantConfig, QuantizedResult, Tiles, join_zeros, join, tiles_of, combined, quantize_tiles,
}
use mathlib.Core.List.{append-nil}

pub tile_positive : (out budget : ℕ) → 0 < out → 0 < aligned_tile_rows out budget
unfolding aligned_tile_rows
tile_positive out budget h = omega arith

-- Where a clipped tile ends, the next one begins.
drop_clipped :
    {R : Type 0} (a b : ℕ) (xs : List R)
    → a ≤ b
    → drop (min (length xs) b - a) (drop a xs) ≡ drop b xs
drop_clipped a b xs le = elim (Bool-cases (leb b (length xs))) [
  | inl inside ↦
      let step : min (length xs) b - a ≡ b - a = omega (arith, leb→le _ _ inside) in
      let whole : a + (b - a) ≡ b = omega arith in
      rw step (sym (drop-drop a (b - a) xs) ∙ ap (λ n. drop n xs) whole)
  | inr past ↦
      let clipped : min (length xs) b - a ≡ length xs - a = omega (arith, leb→lt _ _ past) in
      rw clipped (
        drop_all (length xs - a) (drop a xs) (omega (arith, length-drop a xs))
        ∙ sym (drop_all b xs (omega (arith, leb→lt _ _ past))))
]

-- A quantizer that treats each row by itself: what it makes of some rows is `codes`, and of a
-- concatenation of rows the concatenation of what it makes of the parts. The rest of its result is what
-- the configuration and the matrix say, without a codebook.
pub record IsRowWise {R P M C D : Type 0} (config : QuantConfig)
    (quantize : Matrix R D → Result (QuantizedResult P M C D))
    (codes : D → ℕ → List R → Result (Tiles P M)) : Type 0 where
  pub whole :
      (m : Matrix R D)
      → quantize m ≡ (
          codes m.dtype m.in_features m.rows >>= λ t.
          ok (combined config (length m.rows, m.in_features) m.dtype t))
  pub by_rows :
      (dtype : D) (in_features : ℕ) (xs ys : List R)
      → codes dtype in_features (xs ++ ys)
        ≡ (codes dtype in_features xs >>= λ p. codes dtype in_features ys >>= λ q. ok (join p q))

join_zeros-none : {M : Type 0} (z : Option (List M)) → join_zeros z none ≡ z
join_zeros-none none = refl
join_zeros-none (some z) = refl

-- Nothing to add leaves the tiles as they are.
join-nothing :
    {P M : Type 0} (t : Tiles P M) → join t (record { packed = []; scales = []; zeros = none }) ≡ t
join-nothing t = rw (append-nil t.packed, append-nil t.scales, join_zeros-none t.zeros) refl

bind-join-nothing :
    {P M : Type 0} (r : Result (Tiles P M))
    → (r >>= λ t. ok (join t (record { packed = []; scales = []; zeros = none }))) ≡ r
bind-join-nothing (ok t) = ap ok (join-nothing t)
bind-join-nothing (err e) = refl

-- What the loops take of a result that was built of tiles are these tiles.
pub bind-tiles_of :
    {P M D B : Type 0} (C : Type 0) (config : QuantConfig) (shape : ℕ × ℕ) (dtype : D)
    (r : Result (Tiles P M)) (next : Tiles P M → Result B)
    → ((r >>= λ t. ok (combined {C = C} config shape dtype t)) >>= λ res. next (tiles_of res))
      ≡ (r >>= next)
bind-tiles_of C config shape dtype (ok t) next = refl
bind-tiles_of C config shape dtype (err e) next = refl

module _ {R P M C D : Type 0} (config : QuantConfig)
    (quantize : Matrix R D → Result (QuantizedResult P M C D)) (fits : D → ℕ → ℕ → Bool)
    (budget_rows : D → ℕ → ℕ → ℕ) (codes : D → ℕ → List R → Result (Tiles P M))
    (row_wise : IsRowWise config quantize codes) where
  pub tile_codes :
      {B : Type 0} (m : Matrix R D) (next : Tiles P M → Result B)
      → (quantize m >>= λ res. next (tiles_of res)) ≡ (codes m.dtype m.in_features m.rows >>= next)
  tile_codes m next =
      ap (λ r. r >>= λ res. next (tiles_of res)) (row_wise.whole m)
      ∙ bind-tiles_of C config (length m.rows, m.in_features) m.dtype
          (codes m.dtype m.in_features m.rows) next

  pub tiles_cover :
      (weight : Matrix R D) (rows i count : ℕ)
      → length weight.rows ≤ (i + suc count) * rows
      → quantize_tiles config quantize fits budget_rows weight rows i (suc count)
        ≡ codes weight.dtype weight.in_features (drop (i * rows) weight.rows)
  unfolding quantize_tiles
  tiles_cover weight rows i zero h =
      let m = min (length weight.rows) ((i + 1) * rows) - i * rows in
      let left = drop (i * rows) weight.rows in
      let none_left : drop m left ≡ [] =
        drop_clipped (i * rows) ((i + 1) * rows) weight.rows (grind arith)
        ∙ drop_all ((i + 1) * rows) weight.rows (omega arith) in
      let all : take m left ≡ left =
        sym (append-nil (take m left))
        ∙ ap (◌++◌ (take m left)) (sym none_left)
        ∙ take-append-drop m left in
      tile_codes (record weight { rows = take m left })
        (λ t. ok (join t (record { packed = []; scales = []; zeros = none })))
      ∙ bind-join-nothing (codes weight.dtype weight.in_features (take m left))
      ∙ ap (codes weight.dtype weight.in_features) all
  tiles_cover weight rows i (suc count) h =
      let m = min (length weight.rows) ((i + 1) * rows) - i * rows in
      let left = drop (i * rows) weight.rows in
      let code = codes weight.dtype weight.in_features in
      let next : drop m left ≡ drop ((i + 1) * rows) weight.rows =
        drop_clipped (i * rows) ((i + 1) * rows) weight.rows (grind arith) in
      let later = tiles_cover weight rows (i + 1) count (grind arith) in
      tile_codes (record weight { rows = take m left })
        (λ p.
          quantize_tiles config quantize fits budget_rows weight rows (i + 1) (suc count) >>= λ q.
          ok (join p q))
      ∙ ap (λ r. code (take m left) >>= λ p. r >>= λ q. ok (join p q)) (later ∙ ap code (sym next))
      ∙ sym (row_wise.by_rows weight.dtype weight.in_features (take m left) (drop m left))
      ∙ ap code (take-append-drop m left)

  pub tiled_matrix :
      (weight : Matrix R D) (rows count : ℕ)
      → length weight.rows ≤ suc count * rows
      → quantize_tiles config quantize fits budget_rows weight rows 0 (suc count)
        ≡ codes weight.dtype weight.in_features weight.rows
  tiled_matrix weight rows count h =
      let start : 0 * rows ≡ 0 = omega arith in
      tiles_cover weight rows 0 count (omega arith)
      ∙ ap (λ n. codes weight.dtype weight.in_features (drop n weight.rows)) start

  pub whole_tiles :
      (weight : Matrix R D) (rows n : ℕ)
      → 1 < n
      → length weight.rows ≤ n * rows
      → quantize_tiles config quantize fits budget_rows weight rows 0 n
        ≡ codes weight.dtype weight.in_features weight.rows
  whole_tiles weight rows zero q h = absurd (omega arith)
  whole_tiles weight rows (suc n) q h = tiled_matrix weight rows n h
