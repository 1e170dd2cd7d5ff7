-- ===== src/Streaming/Reader.antt =====
-- pockettitan/streaming/reader.py: `RemoteTensorSliceReader`, which asks for the bytes of a tensor, of
-- some of its rows or of one expert of a fused bank. A tensor is the bytes of its elements, its dtype
-- and its shape. numpy and torch reinterpret the bytes, but for the eight-bit floats, which torch
-- converts to float16: that conversion is the parameter `to_float16`.
pub mod Ranges
use pocket_titan.Prelude.{
  ℕ, ◌+◌, ◌-◌, ◌*◌, ◌/◌, ◌%◌, max, Option, none, some, List, [], ◌∷◌, ◌==◌, leb, if◌then◌else◌,
  length, prod, Result, ok, err, value_error, truncated_tensor, unsupported_dtype, ◌>>=◌, ◌>>◌,
  guard, or_raise,
}
use pocket_titan.Streaming.Transfer.{Attempt, fetch_remote_bytes}

-- The dtype of a source tensor, by its branch of `_bytes_to_tensor`: an eight-bit float, another entry
-- of DTYPE_MAP_NUMPY by its item size, or a name that is not in the map.
pub data SourceDtype : Type 0 where
  f8_e4m3 f8_e5m2 unsupported : SourceDtype
  verbatim : ℕ → SourceDtype

-- `np.dtype(DTYPE_MAP_NUMPY[dtype_upper]).itemsize`
abbrev pub item_size : SourceDtype → Option ℕ
item_size f8_e4m3 = some 1
item_size f8_e5m2 = some 1
item_size unsupported = none
item_size (verbatim size) = some size

-- `float16` is the result of a conversion; `same` has the dtype of the source.
pub data TensorDtype : Type 0 where
  float16 : TensorDtype
  same : SourceDtype → TensorDtype

pub record Tensor : Type 0 where
  pub dtype : TensorDtype
  pub shape : List ℕ
  pub content : List ℕ

pub record TensorAddress : Type 0 where
  pub dtype : SourceDtype
  pub shape : List ℕ
  pub byte_start : ℕ
  pub byte_end : ℕ
  pub size_bytes : ℕ

-- `fetch_remote_bytes(url, byte_start=start, byte_end=end - 1)`: an empty range is not asked for.
unfoldable pub fetch_range : ℕ → ℕ → List Attempt → Result (List ℕ)
unfolding fetch_remote_bytes
fetch_range start end attempts =
    if leb end start then ok [] else fetch_remote_bytes start (end - 1) attempts

-- `size // max(1, parts)`, unless the parts do not divide the size.
unfoldable pub stride : ℕ → ℕ → Result ℕ
stride size parts =
    if size % max 1 parts == 0 then ok (size / max 1 parts) else err truncated_tensor

module _ (to_float16 : SourceDtype → List ℕ → List ℕ) where
  -- The last branches of `_bytes_to_tensor`, for bytes of the right number.
  abbrev pub as_tensor : SourceDtype → List ℕ → List ℕ → Tensor
  as_tensor f8_e4m3 shape raw_bytes = record {
    dtype = float16;
    shape = shape;
    content = to_float16 f8_e4m3 raw_bytes;
  }
  as_tensor f8_e5m2 shape raw_bytes = record {
    dtype = float16;
    shape = shape;
    content = to_float16 f8_e5m2 raw_bytes;
  }
  as_tensor dtype shape raw_bytes = record {
    dtype = same dtype;
    shape = shape;
    content = raw_bytes;
  }

  unfoldable pub bytes_to_tensor : List ℕ → SourceDtype → List ℕ → Result Tensor
  bytes_to_tensor raw_bytes dtype shape = do
    size ← or_raise (item_size dtype) unsupported_dtype
    guard (length raw_bytes == prod shape * size) truncated_tensor
    ok (as_tensor dtype shape raw_bytes)

  unfoldable pub read_tensor : TensorAddress → List Attempt → Result Tensor
  unfolding bytes_to_tensor fetch_range
  read_tensor addr attempts = do
    raw_bytes ← fetch_range addr.byte_start addr.byte_end attempts
    bytes_to_tensor raw_bytes addr.dtype addr.shape

  -- The rows of a matrix. `torch_rows` is `full_t[row_start:row_end]` of a tensor that is no matrix.
  -- For `row_start <= row_end`.
  unfoldable pub read_slice :
      (Tensor → ℕ → ℕ → Result Tensor) → TensorAddress → ℕ → ℕ → List Attempt → Result Tensor
  unfolding read_tensor stride
  read_slice torch_rows addr row_start row_end attempts = elim addr.shape [
    | out_features ∷ in_features ∷ [] ↦
        (stride addr.size_bytes out_features >>= λ bytes_per_row.
        fetch_range (addr.byte_start + row_start * bytes_per_row)
          (addr.byte_start + row_end * bytes_per_row) attempts
        >>= λ raw_bytes.
            bytes_to_tensor raw_bytes addr.dtype ((row_end - row_start) ∷ in_features ∷ []))
    | shape ↦ (read_tensor addr attempts >>= λ full_t. torch_rows full_t row_start row_end)
  ]

  unfoldable pub read_3d_expert_slice : TensorAddress → ℕ → List Attempt → Result Tensor
  unfolding stride fetch_range bytes_to_tensor
  read_3d_expert_slice addr expert_idx attempts = elim addr.shape [
    | num_experts ∷ out_feat ∷ in_feat ∷ [] ↦
        (stride addr.size_bytes num_experts >>= λ bytes_per_expert.
        fetch_range (addr.byte_start + expert_idx * bytes_per_expert)
          (addr.byte_start + expert_idx * bytes_per_expert + bytes_per_expert) attempts
        >>= λ raw_bytes. bytes_to_tensor raw_bytes addr.dtype (out_feat ∷ in_feat ∷ []))
    | shape ↦ err value_error
  ]
