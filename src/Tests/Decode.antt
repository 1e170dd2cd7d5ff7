-- ===== src/Tests/Decode.antt =====
-- A row of two eight-bit codes with one scale, in the middle of a region.
use pocket_titan.Prelude.{
  ℕ, ◌≡◌, refl, ◌<◌, ◌-◌, ◌*◌, true, none, some, List, [], ◌∷◌, ◌++◌, ok, All, arith,
}
use pocket_titan.Format.Groups.{resolve_group_size}
use pocket_titan.Format.Align.{packed_bytes}
use pocket_titan.Format.Spans.{SectionSpan, packed, scales, section_spans, matrix_dims, group_spans}
use pocket_titan.Package.Encode.{Quantized, sections_to_bytes}
use pocket_titan.Quantizers.Dequantize.{Arithmetic}
use pocket_titan.Package.Decode.{decode_record, decode_rows}
use pocket_titan.Package.Decode.RoundTrip.{decode_record-sections_to_bytes, written_values}

program : Unit {0}
unfolding section_spans sections_to_bytes decode_record decode_rows resolve_group_size matrix_dims
    group_spans packed_bytes
program = tt

-- Small numbers in place of floats.
abbrev arithmetic : Arithmetic ℕ ℕ
arithmetic = record {
  half = λ low high. low;
  affine = λ code zero_point scale. (code - zero_point) * scale;
  centred = λ code centre scale. (code - centre) * scale;
}

abbrev widen : ℕ → ℕ
widen h = h

abbrev result : Quantized
result = record {
  packed_weights = some (129 ∷ 130 ∷ []);
  scale_bytes = some (5 ∷ 0 ∷ []);
  zero_bytes = none;
}

abbrev spans : List SectionSpan
spans =
    record { section = packed; offset = 0; length = 2 }
    ∷ record { section = scales; offset = 2; length = 2 }
    ∷ []

abbrev payload : List ℕ
payload = 129 ∷ 130 ∷ 5 ∷ 0 ∷ []

planned : section_spans (1 ∷ 2 ∷ []) 8 2 true 2 2 ≡ ok spans
unfolding program
planned = refl

written : sections_to_bytes (some result) spans ≡ ok payload
unfolding program
written = refl

decoded :
    decode_record arithmetic widen (9 ∷ payload ++ 9 ∷ []) (1 ∷ 2 ∷ []) 8 2 true spans 1
    ≡ ok (10 ∷ 15 ∷ [])
unfolding program
decoded = refl

decoded_row :
    decode_rows arithmetic widen payload (1 ∷ 2 ∷ []) 8 2 true 0 1 spans 0 ≡ ok (10 ∷ 15 ∷ [])
unfolding program
decoded_row = refl

positive : All (λ s. 0 < s.length) spans
positive = (omega arith, (omega arith, tt))

decode_record-sections_to_bytes_example :
    decode_record arithmetic widen (9 ∷ payload ++ 9 ∷ []) (1 ∷ 2 ∷ []) 8 2 true spans 1
    ≡ written_values arithmetic widen (1 ∷ 2 ∷ []) 8 2 result true
decode_record-sections_to_bytes_example =
    decode_record-sections_to_bytes arithmetic widen (9 ∷ []) (9 ∷ []) (1 ∷ 2 ∷ []) 8 2 2 true
      result spans payload (omega arith) planned positive written
