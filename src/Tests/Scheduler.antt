-- ===== src/Tests/Scheduler.antt =====
-- A matrix of 130 rows, quantized row by row in tiles of 64.
use pocket_titan.Prelude.{
  ℕ, ◌≡◌, refl, Bool, true, false, some, List, [], ◌∷◌, ◌++◌, map, length, replicate, Result, ok,
  ◌>>=◌, ltb, suc,
}
use pocket_titan.Scheduler.Budget.{compute_work_unit_bounds}
use pocket_titan.Scheduler.Tiler.{
  Matrix, QuantConfig, QuantizedResult, Tiles, combined, quantize_matrix,
}

-- The dtypes of a source and of a tensor.
data Dtype : Type 0 where
  float8 float16 bfloat16 : Dtype

abbrev config : QuantConfig
config = record { bits = 4; is_ternary = false }

-- Each row gives one code, one scale and one zero-point.
abbrev codes : Dtype → ℕ → List ℕ → Result (Tiles ℕ ℕ)
codes dtype in_features rows =
    ok (record { packed = map suc rows; scales = rows; zeros = some rows })

abbrev quantize : Matrix ℕ Dtype → Result (QuantizedResult ℕ ℕ Bool Dtype)
quantize m = codes m.dtype m.in_features m.rows >>= λ t.
    ok (combined config (length m.rows, m.in_features) m.dtype t)

-- The budget holds fewer than 100 rows, and one tile 70 of them.
abbrev fits : Dtype → ℕ → ℕ → Bool
fits dtype out_features in_features = ltb out_features 100

abbrev budget_rows : Dtype → ℕ → ℕ → ℕ
budget_rows dtype out_features in_features = 70

abbrev weight : Matrix ℕ Dtype
weight = record { dtype = bfloat16; in_features = 16; rows = replicate 129 3 ++ 4 ∷ [] }

bounds_lem :
    compute_work_unit_bounds (130 ∷ 16 ∷ []) false 70
    ≡ ok (record { needs_tiling = true; tile_rows = 64; num_tiles = 3 })
unfolding compute_work_unit_bounds
bounds_lem = refl

tiled : quantize_matrix config quantize fits budget_rows weight ≡ quantize weight
unfolding quantize_matrix compute_work_unit_bounds
tiled = refl
