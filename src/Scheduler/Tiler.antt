-- ===== src/Scheduler/Tiler.antt =====
-- pockettitan/scheduler/tiler.py: `MatrixTiler.quantize_matrix` and the sliced streaming of
-- `quantize_address`. A matrix is its dtype, its width and the list of its rows; of a result, `device`
-- and the peak of the memory are left out. The quantizer is a parameter, and so are the answers of the
-- budget (`fits` and `budget_rows` of Scheduler.Budget), by the dtype and the dimensions.
pub mod Rows
pub mod Address
use pocket_titan.Prelude.{
  ℕ, zero, suc, ◌+◌, ◌-◌, ◌*◌, min, Bool, not, ◌||◌, Option, none, some, List, [], ◌∷◌, ◌++◌, leb,
  if◌then◌else◌, length, take, drop, Result, ok, ◌>>=◌,
}
use pocket_titan.Scheduler.Budget.{WorkUnitBounds, compute_work_unit_bounds}

pub record Matrix (R D : Type 0) : Type 0 where
  pub dtype : D
  pub in_features : ℕ
  pub rows : List R

-- The fields that the tiler reads.
pub record QuantConfig : Type 0 where
  pub bits : ℕ
  pub is_ternary : Bool

-- `bit_width` is in hundredths.
pub record QuantizedResult (P M C D : Type 0) : Type 0 where
  pub packed_weights : List P
  pub scales : List M
  pub zeros : Option (List M)
  pub codebook : Option C
  pub quant_config : QuantConfig
  pub original_shape : ℕ × ℕ
  pub original_dtype : D
  pub bit_width : ℕ

-- `packed_tiles`, `scale_tiles` and `zero_tiles`, each joined by `torch.cat`; no zeros at all are None.
pub record Tiles (P M : Type 0) : Type 0 where
  pub packed : List P
  pub scales : List M
  pub zeros : Option (List M)

-- `weight[r_start:r_end, :]`
abbrev pub tile : {R D : Type 0} → Matrix R D → ℕ → ℕ → Matrix R D
tile weight r_start r_end = record weight {
  rows = take (r_end - r_start) (drop r_start weight.rows);
}

abbrev pub join_zeros : {M : Type 0} → Option (List M) → Option (List M) → Option (List M)
join_zeros none later = later
join_zeros (some zeros) none = some zeros
join_zeros (some zeros) (some later) = some (zeros ++ later)

abbrev pub join : {P M : Type 0} → Tiles P M → Tiles P M → Tiles P M
join tiles later = record {
  packed = tiles.packed ++ later.packed;
  scales = tiles.scales ++ later.scales;
  zeros = join_zeros tiles.zeros later.zeros;
}

-- What the loops append of a tile's result.
abbrev pub tiles_of : {P M C D : Type 0} → QuantizedResult P M C D → Tiles P M
tiles_of res = record { packed = res.packed_weights; scales = res.scales; zeros = res.zeros }

-- The result that is built of the tiles.
abbrev pub combined :
    {P M C D : Type 0} → QuantConfig → ℕ × ℕ → D → Tiles P M → QuantizedResult P M C D
combined config shape dtype tiles = record {
  packed_weights = tiles.packed;
  scales = tiles.scales;
  zeros = tiles.zeros;
  codebook = none;
  quant_config = config;
  original_shape = shape;
  original_dtype = dtype;
  bit_width = if config.is_ternary then 158 else config.bits * 100;
}

module _ {R P M C D : Type 0} (config : QuantConfig)
    (quantize : Matrix R D → Result (QuantizedResult P M C D)) (fits : D → ℕ → ℕ → Bool)
    (budget_rows : D → ℕ → ℕ → ℕ) where
  abbrev pub bounds_of : D → ℕ → ℕ → Result WorkUnitBounds
  bounds_of dtype out_features in_features =
      compute_work_unit_bounds (out_features ∷ in_features ∷ [])
        (fits dtype out_features in_features) (budget_rows dtype out_features in_features)

  -- `for i in range(num_tiles)`, `count` tiles from `i` on.
  unfoldable pub quantize_tiles : Matrix R D → ℕ → ℕ → ℕ → Result (Tiles P M)
  quantize_tiles weight tile_rows i zero = ok (record { packed = []; scales = []; zeros = none })
  quantize_tiles weight tile_rows i (suc count) = do
    let out_features = length weight.rows
    tile_res ← quantize (tile weight (i * tile_rows) (min out_features ((i + 1) * tile_rows)))
    rest ← quantize_tiles weight tile_rows (i + 1) count
    ok (join (tiles_of tile_res) rest)

  unfoldable pub quantize_matrix : Matrix R D → Result (QuantizedResult P M C D)
  unfolding quantize_tiles
  quantize_matrix weight = do
    let out_features = length weight.rows
    bounds ← bounds_of weight.dtype out_features weight.in_features
    if not bounds.needs_tiling || leb bounds.num_tiles 1
        then quantize weight
        else (quantize_tiles weight bounds.tile_rows 0 bounds.num_tiles >>= λ tiles.
            ok (combined config (out_features, weight.in_features) weight.dtype tiles))

  -- The loops of `quantize_address`: each tile that is read is quantized by `quantize_matrix`. `read`
  -- is a slice of the tensor: the local reader's, or of the tensor that was read in one pass.
  unfoldable pub address_tiles : (ℕ → ℕ → Result (Matrix R D)) → ℕ → ℕ → ℕ → ℕ → Result (Tiles P M)
  unfolding quantize_matrix
  address_tiles read out_features tile_rows i zero =
      ok (record { packed = []; scales = []; zeros = none })
  address_tiles read out_features tile_rows i (suc count) = do
    tile_tensor ← read (i * tile_rows) (min out_features ((i + 1) * tile_rows))
    tile_res ← quantize_matrix tile_tensor
    rest ← address_tiles read out_features tile_rows (i + 1) count
    ok (join (tiles_of tile_res) rest)

  -- `quantize_address` for a matrix, from the dtype and the dimensions of the address. `read_tensor`
  -- has the dtype that the reader gives; a sliced matrix always gets `float16`.
  unfoldable pub quantize_address :
      D
      → Bool
      → (ℕ → ℕ → Result (Matrix R D))
      → Result (Matrix R D)
      → D
      → ℕ
      → ℕ
      → Result (QuantizedResult P M C D)
  unfolding address_tiles
  quantize_address float16 is_local read_slice read_tensor source_dtype out_features in_features =
      do
        bounds ← bounds_of source_dtype out_features in_features
        if not bounds.needs_tiling || leb bounds.num_tiles 1
            then (read_tensor >>= λ weight. quantize_matrix weight)
            else ((if is_local
                  then address_tiles read_slice out_features bounds.tile_rows 0 bounds.num_tiles
                  else (read_tensor >>= λ full_t.
                      address_tiles (λ r_start r_end. ok (tile full_t r_start r_end)) out_features
                        bounds.tile_rows 0 bounds.num_tiles))
                >>= λ tiles. ok (combined config (out_features, in_features) float16 tiles))
