-- ===== src/Scheduler/Budget.antt =====
-- pockettitan/scheduler/budget.py: `compute_work_unit_bounds`. The estimates in megabytes are floats:
-- what the code takes from them, whether the matrix fits the budget and
-- `int(target_tile_vram_mb / max(1e-6, vram_per_row_mb))`, are arguments.
use pocket_titan.Prelude.{
  ℕ, ◌*◌, ◌/◌, min, max, Bool, true, false, List, [], ◌∷◌, ◌==◌, if◌then◌else◌, Result, ok, err,
  zero_division,
}
use pocket_titan.Prelude.Ceil.{ceil_div}

pub record WorkUnitBounds : Type 0 where
  pub needs_tiling : Bool
  pub tile_rows : ℕ
  pub num_tiles : ℕ

-- Whole multiples of 64 rows, at least one of them, and no more than the matrix has.
unfoldable pub aligned_tile_rows : ℕ → ℕ → ℕ
aligned_tile_rows out_features budget_rows =
    let raw_tile_rows = max 32 budget_rows in min out_features (max 64 (raw_tile_rows / 64 * 64))

abbrev pub first_dim : List ℕ → ℕ
first_dim [] = 0
first_dim (d ∷ shape) = d

unfoldable pub tiled_bounds : ℕ → ℕ → Result WorkUnitBounds
unfolding aligned_tile_rows ceil_div
tiled_bounds out_features budget_rows =
    let tile_rows = aligned_tile_rows out_features budget_rows in
    if tile_rows == 0
    then err zero_division
    else ok (record {
      needs_tiling = true;
      tile_rows = tile_rows;
      num_tiles = ceil_div out_features tile_rows;
    })

unfoldable pub compute_work_unit_bounds : List ℕ → Bool → ℕ → Result WorkUnitBounds
unfolding tiled_bounds
compute_work_unit_bounds matrix_shape fits budget_rows = elim matrix_shape [
  | out_features ∷ in_features ∷ [] ↦
      if fits
      then ok (record { needs_tiling = false; tile_rows = out_features; num_tiles = 1 })
      else tiled_bounds out_features budget_rows
  | shape ↦ ok (record { needs_tiling = false; tile_rows = first_dim shape; num_tiles = 1 })
]

-- `group_padding_factor` as the padded width over `in_features`; 1.0 is (1, 1).
unfoldable pub group_padding_factor : ℕ → ℕ → ℕ × ℕ
unfolding ceil_div
group_padding_factor in_features group_size =
    if group_size == 0
    then (1, 1)
    else if in_features == 0
    then (1, 1)
    else (ceil_div in_features group_size * group_size, in_features)
