-- ===== src/Quantizers/Dequantize.antt =====
-- pockettitan/quantizers/rtn.py: `RTNQuantizer.dequantize`. The float arithmetic is a parameter: the
-- half that two bytes hold, and the value of a code under a zero point or a centre, and a scale.
use pocket_titan.Prelude.{
  ℕ, zero, suc, ◌+◌, ◌-◌, ◌*◌, ◌/◌, ◌%◌, ◌^◌, Option, none, some, List, [], ◌∷◌, ◌++◌, map, ◌==◌,
  if◌then◌else◌, length, take, drop, Result, ok, err, runtime_error, zero_division, guard, ◌>>◌,
  ◌>>=◌,
}
use pocket_titan.Quantizers.Rtn.{unpack_tensor}

pub record Arithmetic (Half Value : Type 0) : Type 0 where
  pub half : ℕ → ℕ → Half
  pub affine : ℕ → Half → Half → Value
  pub centred : ℕ → ℕ → Half → Value

pub record QuantizedTensor (Half : Type 0) : Type 0 where
  pub packed_weights : List ℕ
  pub scales : List Half
  pub zeros : Option (List Half)

module _ {Half Value : Type 0} (arithmetic : Arithmetic Half Value) where
  -- Bytes viewed as float16.
  unfoldable pub halves : List ℕ → List Half
  halves [] = []
  halves (low ∷ []) = []
  halves (low ∷ high ∷ raw) = arithmetic.half low high ∷ halves raw

  -- `(q_grouped - zeros) * scales`, group by group
  unfoldable pub affine_groups : ℕ → List Half → List Half → List ℕ → List Value
  affine_groups group_size (zero_point ∷ zeros) (scale ∷ scales) codes =
      map (λ code. arithmetic.affine code zero_point scale) (take group_size codes)
      ++ affine_groups group_size zeros scales (drop group_size codes)
  affine_groups group_size _ _ codes = []

  -- `(q_grouped - (max_int // 2)) * scales`
  unfoldable pub centred_groups : ℕ → ℕ → List Half → List ℕ → List Value
  centred_groups group_size centre [] codes = []
  centred_groups group_size centre (scale ∷ scales) codes =
      map (λ code. arithmetic.centred code centre scale) (take group_size codes)
      ++ centred_groups group_size centre scales (drop group_size codes)

  -- The values of the groups; a view of the wrong size raises.
  unfoldable pub group_values :
      Option (List Half) → List Half → ℕ → ℕ → ℕ → List ℕ → Result (List Value)
  unfolding affine_groups centred_groups
  group_values zeros scales bits group_size groups codes = do
    guard (length scales == groups) runtime_error
    by_zeros zeros
    where
      by_zeros : Option (List Half) → Result (List Value)
      by_zeros (some zero_points) =
          guard (length zero_points == groups) runtime_error
          >> ok (affine_groups group_size zero_points scales codes)
      by_zeros none = ok (centred_groups group_size ((2 ^ bits - 1) / 2) scales codes)

  -- `[:, :in_features]` of a matrix of `rows` rows
  unfoldable pub trim_rows : ℕ → ℕ → ℕ → List Value → List Value
  trim_rows zero padded in_features values = []
  trim_rows (suc rows) padded in_features values =
      take in_features values ++ trim_rows rows padded in_features (drop padded values)

  -- `group_size` is 0 where the source has a size that is not positive.
  unfoldable pub dequantize : QuantizedTensor Half → ℕ → ℕ → ℕ → ℕ → Result (List Value)
  unfolding group_values trim_rows unpack_tensor
  dequantize quantized out_features in_features bits requested_group =
      let group_size = if requested_group == 0 then in_features else requested_group in
      if group_size == 0 then err zero_division else (do
        let pad_k = (group_size - in_features % group_size) % group_size
        let padded_in_features = in_features + pad_k
        unpacked ←
            unpack_tensor quantized.packed_weights bits (out_features ∷ padded_in_features ∷ [])
        let num_groups = padded_in_features / group_size
        values ←
            group_values quantized.zeros quantized.scales bits group_size
              (out_features * num_groups) unpacked
        ok (trim_rows out_features padded_in_features in_features values))
