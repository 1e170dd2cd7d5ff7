-- ===== src/Package/Encode.antt =====
-- pockettitan/package/writer.py: how a work item becomes bytes (`_sections_to_bytes`, `_quantize`,
-- `_encode_dense`, `_encode_expert` and `_encode_ple_shard`). Reading a tensor and quantizing it are
-- parameters; a quantized tensor is the bytes of its parts. `WriteError` is a RuntimeError.
pub mod Sizes
use Prim.Native.String.{String}
use pocket_titan.Prelude.{
  ℕ, zero, suc, ◌+◌, ◌*◌, Bool, Option, none, some, List, [], ◌∷◌, ◌++◌, leb, ◌==◌, if◌then◌else◌,
  length, take, drop, Result, ok, err, runtime_error, attribute_error, index_error, value_error,
  ◌>>=◌, ◌>>◌, guard, or_raise,
}
use pocket_titan.Format.Spans.{Section, packed, scales, zeros, SectionSpan}
use pocket_titan.Format.Record.{ProjectionLayout, ExpertRecordLayout, find_projection}
use pocket_titan.Format.PleRow.{PleRowLayout}

-- The bytes of a `QuantizedResult`'s tensors.
pub record Quantized : Type 0 where
  pub packed_weights : Option (List ℕ)
  pub scale_bytes : Option (List ℕ)
  pub zero_bytes : Option (List ℕ)

abbrev pub section_tensor : Quantized → Section → Option (List ℕ)
section_tensor result packed = result.packed_weights
section_tensor result scales = result.scale_bytes
section_tensor result zeros = result.zero_bytes

-- The payload from the first span on.
unfoldable pub sections_from : Quantized → List SectionSpan → Result (List ℕ)
sections_from result [] = ok []
sections_from result (span ∷ spans) = do
  raw ← or_raise (section_tensor result span.section) runtime_error
  guard (length raw == span.length) runtime_error
  rest ← sections_from result spans
  ok (raw ++ rest)

-- `result` may be None, which has no attributes.
unfoldable pub sections_to_bytes : Option Quantized → List SectionSpan → Result (List ℕ)
unfolding sections_from
sections_to_bytes none [] = ok []
sections_to_bytes none (span ∷ spans) = err attribute_error
sections_to_bytes (some result) spans = sections_from result spans

-- One column of a shard, cut into its rows: `raw.reshape(num_rows, span.length)`.
unfoldable pub reshape : ℕ → ℕ → List ℕ → List (List ℕ)
reshape zero width raw = []
reshape (suc num_rows) width raw = take width raw ∷ reshape num_rows width (drop width raw)

-- `np.concatenate((left, right), axis=1)`
unfoldable pub join_rows : List (List ℕ) → List (List ℕ) → List (List ℕ)
join_rows [] right = []
join_rows (l ∷ left) [] = []
join_rows (l ∷ left) (r ∷ right) = (l ++ r) ∷ join_rows left right

unfoldable pub concat : List (List ℕ) → List ℕ
concat [] = []
concat (row ∷ rows) = row ++ concat rows

-- The columns of the sections, checked one by one.
unfoldable pub shard_columns : Quantized → ℕ → List SectionSpan → Result (List (List (List ℕ)))
unfolding reshape
shard_columns result num_rows [] = ok []
shard_columns result num_rows (span ∷ spans) = do
  raw ← or_raise (section_tensor result span.section) runtime_error
  guard (length raw == num_rows * span.length) runtime_error
  rest ← shard_columns result num_rows spans
  ok (reshape num_rows span.length raw ∷ rest)

-- `np.concatenate(columns, axis=1)`, which needs a column.
unfoldable pub concatenate : List (List (List ℕ)) → Result (List (List ℕ))
unfolding join_rows
concatenate [] = err value_error
concatenate (column ∷ []) = ok column
concatenate (column ∷ next ∷ columns) = do
  rest ← concatenate (next ∷ columns)
  ok (join_rows column rest)

-- The end of `_encode_ple_shard`, from the quantized tensor on.
unfoldable pub interleave : Option Quantized → ℕ → ℕ → List SectionSpan → Result (List ℕ)
unfolding shard_columns concatenate concat
interleave none num_rows payload_bytes row_spans = err attribute_error
interleave (some result) num_rows payload_bytes row_spans = do
  columns ← shard_columns result num_rows row_spans
  rows ← concatenate columns
  let block = concat rows
  guard (length block == num_rows * payload_bytes) runtime_error
  ok block

-- A tensor of the plan's `dense` list; `source` stands for its address.
pub record DenseWorkItem (Source : Type 0) : Type 0 where
  pub name : String
  pub source : Source
  pub bits : ℕ
  pub group_size : ℕ
  pub symmetric : Bool
  pub byte_offset : ℕ
  pub spans : List SectionSpan

-- A slice of an expert, under the name of its projection.
pub record SourceSlice (Source : Type 0) : Type 0 where
  pub projection : String
  pub source : Source

pub record ExpertWorkItem (Source : Type 0) : Type 0 where
  pub layer : ℕ
  pub expert : ℕ
  pub projections : List (SourceSlice Source)
  pub record_index : ℕ
  pub bank_offset : ℕ

pub record PleShardWorkItem (Source : Type 0) : Type 0 where
  pub source : Source
  pub shard_index : ℕ
  pub first_row : ℕ
  pub num_rows : ℕ

-- What the writer calls: the reader, `tensor.to(float16)` as bytes, the view of a vector as a matrix
-- of one row, and the tiler with its quantizer.
pub record Codec (Source Tensor : Type 0) : Type 0 where
  pub read : Source → Result Tensor
  pub to_float16 : Tensor → List ℕ
  pub as_matrix : Tensor → Tensor
  pub quantize_matrix : Tensor → ℕ → ℕ → Bool → Result Quantized

module _ {Source Tensor : Type 0} (codec : Codec Source Tensor) where
  -- At 16 bits and more there is no quantized result.
  unfoldable pub quantize : Tensor → ℕ → ℕ → Bool → Result (Option Quantized)
  quantize weight bits group_size symmetric =
      if leb 16 bits
      then ok none
      else (codec.quantize_matrix weight bits group_size symmetric >>= λ result. ok (some result))

  -- `item.spans[0].length`
  unfoldable pub float16_payload : List ℕ → List SectionSpan → Result (List ℕ)
  float16_payload raw [] = err index_error
  float16_payload raw (span ∷ spans) = guard (length raw == span.length) runtime_error >> ok raw

  unfoldable pub encode_dense : DenseWorkItem Source → Tensor → Result (List ℕ)
  unfolding quantize float16_payload sections_to_bytes
  encode_dense item tensor =
      if leb 16 item.bits
      then float16_payload (codec.to_float16 tensor) item.spans
      else (quantize (codec.as_matrix tensor) item.bits item.group_size item.symmetric >>= λ result.
          sections_to_bytes result item.spans)

  -- The loop over the projections.
  unfoldable pub encode_projections :
      ExpertRecordLayout → List (SourceSlice Source) → Result (List ℕ)
  unfolding quantize sections_to_bytes find_projection
  encode_projections layout [] = ok []
  encode_projections layout (s ∷ sources) = do
    projection ← or_raise (find_projection layout.projections s.projection) runtime_error
    weight ← codec.read s.source
    result ← quantize weight projection.bits projection.group_size projection.symmetric
    payload ← sections_to_bytes result projection.spans
    rest ← encode_projections layout sources
    ok (payload ++ rest)

  unfoldable pub encode_expert : ExpertRecordLayout → ExpertWorkItem Source → Result (List ℕ)
  unfolding encode_projections
  encode_expert layout item = do
    payload ← encode_projections layout item.projections
    guard (length payload == layout.payload_bytes) runtime_error
    ok payload

  unfoldable pub encode_ple_shard :
      PleRowLayout → List SectionSpan → PleShardWorkItem Source → Result (List ℕ)
  unfolding quantize interleave
  encode_ple_shard row row_spans shard = do
    tensor ← codec.read shard.source
    result ← quantize tensor row.bits row.group_size row.symmetric
    interleave result shard.num_rows row.payload_bytes row_spans
