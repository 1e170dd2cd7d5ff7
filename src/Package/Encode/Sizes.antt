-- ===== src/Package/Encode/Sizes.antt =====
-- An encoded item has exactly the bytes that the plan reserved for it.
use pocket_titan.Prelude.{
  ℕ, ◌*◌, ◌≡◌, ap, sym, ◌∙◌, inl, inr, Bool-cases, Option, none, some, List, [], ◌∷◌, leb, ◌==◌,
  length, length-append, ok, runtime_error, ok-injective, guard-eq-ok, >>=-eq-ok, or_raise, ◌>>=◌,
  arith, if◌then◌else◌,
}
use pocket_titan.Format.Spans.{SectionSpan, total_length}
use pocket_titan.Format.Record.{ExpertRecordLayout}
use pocket_titan.Format.PleRow.{PleRowLayout}
use pocket_titan.Package.Encode.{
  Quantized, section_tensor, sections_from, sections_to_bytes, interleave, DenseWorkItem,
  ExpertWorkItem, PleShardWorkItem, Codec, quantize, float16_payload, encode_dense,
  encode_projections, encode_expert, encode_ple_shard, concatenate, shard_columns, concat,
}

pub length-sections_from :
    (result : Quantized) (spans : List SectionSpan) (payload : List ℕ)
    → sections_from result spans ≡ ok payload
    → length payload ≡ total_length spans
unfolding sections_from
length-sections_from result [] payload e = ap length (sym (ok-injective e))
length-sections_from result (span ∷ spans) payload e =
    let (raw, _, e1) =
      >>=-eq-ok (or_raise (section_tensor result span.section) runtime_error) _ e in
    let (same, e2) = guard-eq-ok (length raw == span.length) runtime_error _ e1 in
    let (rest, r, e3) = >>=-eq-ok (sections_from result spans) _ e2 in
    let sized : length raw ≡ span.length = ground arith in
    ap length (sym (ok-injective e3))
    ∙ omega (arith, length-append raw rest, length-sections_from result spans rest r)

length-sections_to_bytes :
    (result : Option Quantized) (spans : List SectionSpan) (payload : List ℕ)
    → sections_to_bytes result spans ≡ ok payload
    → length payload ≡ total_length spans
unfolding sections_to_bytes
length-sections_to_bytes none [] payload e = ap length (sym (ok-injective e))
length-sections_to_bytes none (span ∷ spans) payload e = cc
length-sections_to_bytes (some result) spans payload e = length-sections_from result spans payload e

abbrev first_length : List SectionSpan → ℕ
first_length [] = 0
first_length (span ∷ spans) = span.length

-- The bytes that a dense item takes: of its first span where it is stored as it is.
abbrev pub dense_bytes : {Source : Type 0} → DenseWorkItem Source → ℕ
dense_bytes item = if leb 16 item.bits then first_length item.spans else total_length item.spans

module _ {Source Tensor : Type 0} (codec : Codec Source Tensor) where
  length-float16_payload :
      (raw : List ℕ) (spans : List SectionSpan) (payload : List ℕ)
      → float16_payload codec raw spans ≡ ok payload
      → length payload ≡ first_length spans
  unfolding float16_payload
  length-float16_payload raw [] payload e = cc
  length-float16_payload raw (span ∷ spans) payload e =
      let (same, e1) = guard-eq-ok (length raw == span.length) runtime_error _ e in
      let sized : length raw ≡ span.length = ground arith in
      ap length (sym (ok-injective e1)) ∙ sized

  pub length-encode_dense :
      (item : DenseWorkItem Source) (tensor : Tensor) (payload : List ℕ)
      → encode_dense codec item tensor ≡ ok payload
      → length payload ≡ dense_bytes item
  unfolding encode_dense
  length-encode_dense item tensor payload e = elim (Bool-cases (leb 16 item.bits)) [
    | inl wide ↦
        rw wide (length-float16_payload (codec.to_float16 tensor) item.spans payload (rw wide at e))
    | inr narrow ↦
        let (result, _, e1) =
          >>=-eq-ok
            (codec.quantize_matrix (codec.as_matrix tensor) item.bits item.group_size item.symmetric
              >>= λ result. ok (some result))
            _ (rw narrow at e) in
        rw narrow (length-sections_to_bytes result item.spans payload e1)
  ]

  pub length-encode_expert :
      (layout : ExpertRecordLayout) (item : ExpertWorkItem Source) (payload : List ℕ)
      → encode_expert codec layout item ≡ ok payload
      → length payload ≡ layout.payload_bytes
  unfolding encode_expert
  length-encode_expert layout item payload e =
      let (raw, _, e1) = >>=-eq-ok (encode_projections codec layout item.projections) _ e in
      let (same, e2) = guard-eq-ok (length raw == layout.payload_bytes) runtime_error _ e1 in
      let sized : length raw ≡ layout.payload_bytes = ground arith in
      ap length (sym (ok-injective e2)) ∙ sized

  length-interleave :
      (result : Option Quantized) (num_rows payload_bytes : ℕ) (row_spans : List SectionSpan)
      (block : List ℕ)
      → interleave result num_rows payload_bytes row_spans ≡ ok block
      → length block ≡ num_rows * payload_bytes
  unfolding interleave
  length-interleave none num_rows payload_bytes row_spans block e = cc
  length-interleave (some result) num_rows payload_bytes row_spans block e =
      let (columns, _, e1) = >>=-eq-ok (shard_columns result num_rows row_spans) _ e in
      let (rows, _, e2) = >>=-eq-ok (concatenate columns) _ e1 in
      let (same, e3) =
        guard-eq-ok (length (concat rows) == num_rows * payload_bytes) runtime_error _ e2 in
      let sized : length (concat rows) ≡ num_rows * payload_bytes = ground arith in
      ap length (sym (ok-injective e3)) ∙ sized

  pub length-encode_ple_shard :
      (row : PleRowLayout) (row_spans : List SectionSpan) (shard : PleShardWorkItem Source)
      (block : List ℕ)
      → encode_ple_shard codec row row_spans shard ≡ ok block
      → length block ≡ shard.num_rows * row.payload_bytes
  unfolding encode_ple_shard
  length-encode_ple_shard row row_spans shard block e =
      let (tensor, _, e1) = >>=-eq-ok (codec.read shard.source) _ e in
      let (result, _, e2) =
        >>=-eq-ok (quantize codec tensor row.bits row.group_size row.symmetric) _ e1 in
      length-interleave result shard.num_rows row.payload_bytes row_spans block e2
