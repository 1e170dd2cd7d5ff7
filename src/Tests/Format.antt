-- ===== src/Tests/Format.antt =====
-- The package format on concrete layouts.
use pocket_titan.Prelude.{
  ℕ, ◌+◌, ◌/◌, ◌%◌, ◌≤◌, ◌<◌, ◌≡◌, ◌⊎◌, inr, refl, true, false, none, some, List, [], ◌∷◌, leb,
  ◌||◌, if◌then◌else◌, ok, err, key_error, zero_division, arith,
}
use pocket_titan.Prelude.Ceil.{ceil_div}
use pocket_titan.Format.Align.{align_up, storage_bits, packed_bytes}
use pocket_titan.Format.Groups.{resolve_group_size, resolve_group_size_largest}
use pocket_titan.Format.Spans.{
  SectionSpan, packed, scales, zeros, section_spans, group_spans, matrix_dims,
}
use pocket_titan.Format.Spans.Tiling.{TilesFrom, section_spans-TilesFrom}
use pocket_titan.Format.Record
use pocket_titan.Format.Record.{
  ProjectionSpec, ProjectionLayout, ExpertRecordLayout, projection_length, lay_out, lay_out_all,
  record_offset, section_offset, find_span, find_projection,
}
use pocket_titan.Format.Record.Contiguity.{PlacedFrom, build-PlacedFrom, section_offset_within}
use pocket_titan.Format.Bank.{ExpertLayout, byte_range, total_bytes}
use pocket_titan.Format.Bank.Disjoint.{byte_range_apart}
use pocket_titan.Format.PleRow
use pocket_titan.Format.PleRow.{PleRowLayout, row_offset, bytes_for}
use pocket_titan.Format.PleRow.Pages.{row_offset_in_page, row_offset_apart, row_offset-bytes_for}

format : Unit {0}
unfolding ceil_div align_up storage_bits packed_bytes resolve_group_size matrix_dims group_spans
    section_spans find_span find_projection Record.build section_offset byte_range total_bytes
    PleRow.build row_offset bytes_for
format = tt

-- A 3-bit weight takes 4 bits on disk; 160 elements at a requested group of 128 are grouped by 80.
widths :
    (storage_bits 3 ≡ 4)
    × (storage_bits 6 ≡ 8)
    × (packed_bytes 10 3 ≡ 5)
    × (resolve_group_size 160 128 ≡ 80)
    × (align_up 4097 4096 ≡ 8192)
unfolding format
widths = (refl, refl, refl, refl, refl)

resolve_group_size_largest_example :
    (0 < resolve_group_size 160 128)
    × (160 % resolve_group_size 160 128 ≡ 0)
    × (resolve_group_size 160 128 ≤ (if leb 128 0 || leb 160 128 then 160 else 128))
    × (40 ≤ resolve_group_size 160 128)
resolve_group_size_largest_example =
    resolve_group_size_largest 160 128 40 (omega arith) (omega arith) refl (omega arith)

abbrev down_spans : List SectionSpan
down_spans =
    record { section = packed; offset = 0; length = 8 }
    ∷ record { section = scales; offset = 8; length = 8 }
    ∷ record { section = zeros; offset = 16; length = 8 }
    ∷ []

down_spans_lem : section_spans (2 ∷ 8 ∷ []) 3 4 false 2 2 ≡ ok down_spans
unfolding format
down_spans_lem = refl

section_spans-TilesFrom_example : TilesFrom 0 down_spans
section_spans-TilesFrom_example =
    section_spans-TilesFrom (2 ∷ 8 ∷ []) 3 4 false 2 2 down_spans down_spans_lem

no_elements : section_spans (2 ∷ 0 ∷ []) 3 4 false 2 2 ≡ err zero_division
unfolding format
no_elements = refl

abbrev down_spec : ProjectionSpec
down_spec = record {
  name = "down_proj";
  shape = 2 ∷ 8 ∷ [];
  bits = 3;
  group_size = 4;
  symmetric = none;
  codec_id = none;
}

abbrev gate_spec : ProjectionSpec
gate_spec = record {
  name = "gate_up_proj";
  shape = 8 ∷ [];
  bits = 16;
  group_size = 4;
  symmetric = some true;
  codec_id = none;
}

abbrev gate_layout : ProjectionLayout
gate_layout = record {
  name = "gate_up_proj";
  shape = 8 ∷ [];
  bits = 16;
  group_size = 4;
  symmetric = true;
  codec_id = "pt.scalar.rtn.v1";
  offset = 0;
  spans = record { section = packed; offset = 0; length = 16 } ∷ [];
}

abbrev down_layout : ProjectionLayout
down_layout = record {
  name = "down_proj";
  shape = 2 ∷ 8 ∷ [];
  bits = 3;
  group_size = 4;
  symmetric = false;
  codec_id = "pt.scalar.rtn.v1";
  offset = 16;
  spans = down_spans;
}

abbrev geometry : ExpertRecordLayout
geometry = record {
  projections = gate_layout ∷ down_layout ∷ [];
  payload_bytes = 40;
  stride = 64;
  alignment = 32;
}

build_lem : Record.build (gate_spec ∷ down_spec ∷ []) 32 2 2 ≡ ok geometry
unfolding format
build_lem = refl

build-PlacedFrom_example :
    PlacedFrom 0 geometry.projections geometry.payload_bytes
    × (geometry.payload_bytes ≤ geometry.stride)
    × (geometry.stride < geometry.payload_bytes + 32)
    × (geometry.stride % 32 ≡ 0)
build-PlacedFrom_example =
    build-PlacedFrom (gate_spec ∷ down_spec ∷ []) 32 2 2 geometry (omega arith) build_lem

found_down : find_projection geometry.projections "down_proj" ≡ some down_layout
unfolding format
found_down = refl

found_zeros :
    find_span down_layout.spans zeros ≡ some (record { section = zeros; offset = 16; length = 8 })
unfolding format
found_zeros = refl

section_offset_within_example :
    (o : ℕ) × (section_offset geometry 3 "down_proj" zeros ≡ ok o)
    × (record_offset geometry 3 ≤ o)
    × (o + 8 ≤ record_offset geometry 3 + geometry.payload_bytes)
    × (o + 8 ≤ record_offset geometry (3 + 1))
section_offset_within_example =
    section_offset_within (gate_spec ∷ down_spec ∷ []) 32 2 2 geometry 3 "down_proj" zeros
      down_layout (record { section = zeros; offset = 16; length = 8 }) (omega arith) build_lem
      found_down found_zeros

section_offset_lem : section_offset geometry 3 "down_proj" zeros ≡ ok 224
unfolding format
section_offset_lem = refl

abbrev bank : ExpertLayout
bank = record {
  num_layers = 2;
  num_experts = 4;
  layers = 3 ∷ 7 ∷ [];
  geometry = geometry;
  records = [];
}

in_bank : (byte_range bank 7 1 ≡ ok (320, 40)) × (byte_range bank 3 2 ≡ ok (128, 40))
unfolding format
in_bank = (refl, refl)

out_of_bank : (byte_range bank 5 1 ≡ err key_error) × (byte_range bank 3 4 ≡ err key_error)
unfolding format
out_of_bank = (refl, refl)

byte_range_apart_example : (320 + 40 ≤ 128) ⊎ (128 + 40 ≤ 320)
byte_range_apart_example =
    byte_range_apart bank refl 7 1 3 2 320 40 128 40 (omega arith) in_bank.0 in_bank.1
      (inr (omega arith))

abbrev row : PleRowLayout
row = record {
  row_width = 160;
  bits = 3;
  group_size = 160;
  symmetric = true;
  codec_id = "pt.ple.rtn.v1";
  payload_bytes = 82;
  rows_per_page = 49;
  page_bytes = 4096;
}

row_lem : PleRow.build 160 3 160 true 2 2 4096 "pt.ple.rtn.v1" ≡ ok row
unfolding format
row_lem = refl

row_offset_in_page_example :
    (row_offset row 100 / row.page_bytes ≡ 100 / row.rows_per_page)
    × (row_offset row 100 % row.page_bytes + row.payload_bytes ≤ row.page_bytes)
row_offset_in_page_example =
    row_offset_in_page 160 3 160 true 2 2 4096 "pt.ple.rtn.v1" row 100 row_lem

row_offset_apart_example : row_offset row 48 + row.payload_bytes ≤ row_offset row 49
row_offset_apart_example =
    row_offset_apart 160 3 160 true 2 2 4096 "pt.ple.rtn.v1" row 48 49 row_lem (omega arith)

row_offset-bytes_for_example : row_offset row 100 + row.payload_bytes ≤ bytes_for row 101
row_offset-bytes_for_example =
    row_offset-bytes_for 160 3 160 true 2 2 4096 "pt.ple.rtn.v1" row 100 101 row_lem (omega arith)
