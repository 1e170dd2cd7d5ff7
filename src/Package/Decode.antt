-- ===== src/Package/Decode.antt =====
-- pockettitan/package/decode.py: `decode_record` and `decode_rows` with the RTN method. A payload is its
-- bytes, and a matrix the list of its values, row by row. `DecodeError` is a ValueError.
mod Sections
pub mod RoundTrip
use pocket_titan.Prelude.{
  ℕ, ◌+◌, ◌-◌, ◌*◌, ◌/◌, ◌%◌, ◌≤◌, Bool, not, ◌&&◌, ◌||◌, Option, none, some, List, [], ◌∷◌, leb,
  ◌==◌, if◌then◌else◌, length, take, drop, prod, map, Result, ok, err, runtime_error,
  attribute_error, value_error, zero_division, key_error, ◌>>=◌, ◌>>◌, guard, or_raise,
}
use pocket_titan.Format.Align.{packed_bytes}
use pocket_titan.Format.Spans.{
  Section, packed, scales, zeros, SectionSpan, matrix_dims, section_spans,
}
use pocket_titan.Format.Record.{same_section}
use pocket_titan.Quantizers.Dequantize.{Arithmetic, QuantizedTensor, halves, dequantize}

-- `payload[start:start + count]`
abbrev pub slice : List ℕ → ℕ → ℕ → List ℕ
slice payload start count = take count (drop start payload)

-- `{span.section: span for span in spans}`: the last span of a section wins.
unfoldable pub by_section : List SectionSpan → Section → Option SectionSpan
by_section [] section = none
by_section (s ∷ spans) section =
    let later = by_section spans section in prefer later (same_section s.section section) s
  where
    prefer : Option SectionSpan → Bool → SectionSpan → Option SectionSpan
    prefer (some found) same s = some found
    prefer none same s = if same then some s else none

-- A slice that must be there in full.
unfoldable pub read_exact : List ℕ → ℕ → ℕ → Result (List ℕ)
read_exact payload start count =
    let raw = slice payload start count in guard (length raw == count) value_error >> ok raw

-- `torch.frombuffer`, which refuses no bytes and a part of an element.
unfoldable pub from_buffer : ℕ → List ℕ → Result (List ℕ)
from_buffer element_bytes raw =
    guard (not (length raw == 0) && length raw % element_bytes == 0) value_error >> ok raw

-- `_read` and `_meta`: a section that the record may lack.
unfoldable pub read_section : List ℕ → Option (ℕ × ℕ) → ℕ → Result (Option (List ℕ))
unfolding read_exact from_buffer
read_section payload none element_bytes = ok none
read_section payload (some (start, count)) element_bytes = read_exact payload start count >>= λ raw.
    from_buffer element_bytes raw >>= λ bytes. ok (some bytes)

-- The bytes of a span behind the record's first byte.
abbrev pub span_range : ℕ → Option SectionSpan → Option (ℕ × ℕ)
span_range base_offset none = none
span_range base_offset (some span) = some (base_offset + span.offset, span.length)

-- The part of a section that some rows own, `stride` bytes each.
abbrev pub row_range : ℕ → ℕ → ℕ → ℕ → Option SectionSpan → Option (ℕ × ℕ)
row_range base_offset stride row_start count none = none
row_range base_offset stride row_start count (some span) =
    some (base_offset + span.offset + row_start * stride, count * stride)

unfoldable pub row_slice_is_byte_aligned : ℕ → ℕ → Result Bool
row_slice_is_byte_aligned in_features bits =
    if leb 8 bits
    then ok Bool.true
    else if bits == 0
    then err zero_division
    else ok (in_features % (8 / bits) == 0)

abbrev is_present : {A : Type 0} → Option A → Bool
is_present none = Bool.false
is_present (some a) = Bool.true

module _ {Half Value : Type 0} (arithmetic : Arithmetic Half Value) (widen : Half → Value) where
  abbrev pub option_halves : Option (List ℕ) → Option (List Half)
  option_halves none = none
  option_halves (some raw) = some (halves arithmetic raw)

  -- `get_quantizer(config).dequantize(result)` of the bytes that were read; without scales it raises.
  unfoldable pub dequantize_bytes :
      List ℕ → Option (List ℕ) → Option (List ℕ) → ℕ → ℕ → ℕ → ℕ → Result (List Value)
  unfolding halves dequantize
  dequantize_bytes packed_weights none zero_bytes rows in_features bits group_size =
      err attribute_error
  dequantize_bytes packed_weights (some scale_bytes) zero_bytes rows in_features bits group_size =
      dequantize arithmetic
        (record {
          packed_weights = packed_weights;
          scales = halves arithmetic scale_bytes;
          zeros = option_halves zero_bytes;
        })
        rows in_features bits group_size

  -- The quantized branch, with the manifest's spans. An asymmetric record has to have zero points.
  unfoldable pub decode_quantized :
      List ℕ → List ℕ → ℕ → ℕ → Bool → List SectionSpan → ℕ → Result (List Value)
  unfolding by_section read_section dequantize_bytes
  decode_quantized payload shape bits group_size symmetric spans base_offset = do
    packed_span ← or_raise (by_section spans packed) value_error
    raw ← read_exact payload (base_offset + packed_span.offset) packed_span.length
    packed_weights ← from_buffer 1 raw
    scale_bytes ← read_section payload (span_range base_offset (by_section spans scales)) 2
    zero_bytes ← read_section payload (span_range base_offset (by_section spans zeros)) 2
    guard (symmetric || is_present zero_bytes) value_error
    dequantize_bytes packed_weights scale_bytes zero_bytes (matrix_dims shape).0
        (matrix_dims shape).1 bits group_size

  unfoldable pub decode_record :
      List ℕ → List ℕ → ℕ → ℕ → Bool → List SectionSpan → ℕ → Result (List Value)
  unfolding decode_quantized
  decode_record payload shape bits group_size symmetric spans base_offset =
      if leb 16 bits
      then (read_exact payload base_offset (prod shape * 2) >>= λ raw.
          from_buffer 2 raw >>= λ bytes. ok (map widen (halves arithmetic bytes)))
      else decode_quantized payload shape bits group_size symmetric spans base_offset

  -- The rows of float16, whose view raises if the payload ends before them.
  unfoldable pub float16_rows : List ℕ → ℕ → ℕ → ℕ → Result (List Value)
  float16_rows payload start in_features count = do
    bytes ← from_buffer 2 (slice payload start (count * (in_features * 2)))
    let values = map widen (halves arithmetic bytes)
    guard (length values == count * in_features) runtime_error
    ok values

  -- The aligned branch: only the bytes of the rows are read.
  unfoldable pub aligned_rows :
      List ℕ → ℕ → ℕ → ℕ → ℕ → ℕ → List SectionSpan → ℕ → Result (List Value)
  unfolding by_section read_section dequantize_bytes
  aligned_rows payload in_features bits group_size row_start count spans base_offset =
      let effective_group = if group_size == 0 then in_features else group_size in
      if effective_group == 0 then err zero_division else (do
        guard (in_features % effective_group == 0) value_error
        let groups_per_row = in_features / effective_group
        let packed_stride = packed_bytes in_features bits
        packed_span ← or_raise (by_section spans packed) key_error
        let packed_start = base_offset + packed_span.offset + row_start * packed_stride
        packed_weights ← from_buffer 1 (slice payload packed_start (count * packed_stride))
        guard (length packed_weights == count * packed_stride) value_error
        let stride = groups_per_row * 2
        scale_bytes ←
            read_section payload
              (row_range base_offset stride row_start count (by_section spans scales)) 2
        zero_bytes ←
            read_section payload
              (row_range base_offset stride row_start count (by_section spans zeros)) 2
        dequantize_bytes packed_weights scale_bytes zero_bytes count in_features bits
            effective_group)

  unfoldable pub decode_rows :
      List ℕ → List ℕ → ℕ → ℕ → Bool → ℕ → ℕ → List SectionSpan → ℕ → Result (List Value)
  unfolding decode_record float16_rows aligned_rows row_slice_is_byte_aligned
  decode_rows payload shape bits group_size symmetric row_start row_stop spans base_offset = do
    let rows = (matrix_dims shape).0
    let in_features = (matrix_dims shape).1
    guard (leb row_start row_stop && leb row_stop rows) value_error
    let count = row_stop - row_start
    if row_start == row_stop
        then ok []
        else if leb 16 bits
        then float16_rows payload (base_offset + row_start * (in_features * 2)) in_features count
        else (row_slice_is_byte_aligned in_features bits >>= λ aligned.
            if not aligned
            then (decode_record payload shape bits group_size symmetric spans base_offset
                >>= λ whole. ok (take (count * in_features) (drop (row_start * in_features) whole)))
            else aligned_rows payload in_features bits group_size row_start count spans base_offset)
