-- ===== src/Tests/Validator.antt =====
-- Spans that fit, spans that overlap, and the planned addresses of two dense tensors.
use pocket_titan.Prelude.{ℕ, ◌≡◌, refl, false, List, [], ◌∷◌, All}
use pocket_titan.Prelude.Int.{pos, negsuc}
use pocket_titan.Format.Spans.{packed}
use pocket_titan.Format.Dense.{DenseTensorEntry}
use pocket_titan.Package.DensePlan.{place_dense}
use pocket_titan.Package.DensePlan.Accepted.{IsSized, validate_dense_layout-place_dense}
use pocket_titan.Package.Validator.{
  Span, outside, overlaps, check_non_overlapping, validate_dense_layout,
}
use pocket_titan.Package.Validator.Sound.{Within, Apart, check_non_overlapping_sound}
use pocket_titan.Package.Writer.Disk.{Pairwise}

program : Unit {0}
unfolding check_non_overlapping validate_dense_layout place_dense
program = tt

abbrev fitting : List Span
fitting =
    record { start = pos 64; end = pos 100; label = "b" }
    ∷ record { start = pos 0; end = pos 64; label = "a" }
    ∷ []

passed : check_non_overlapping fitting (pos 100) ≡ []
unfolding program
passed = refl

abbrev overlapping : List Span
overlapping =
    record { start = pos 64; end = pos 100; label = "b" }
    ∷ record { start = pos 0; end = pos 65; label = "a" }
    ∷ []

refused : check_non_overlapping overlapping (pos 100) ≡ overlaps "b" ∷ []
unfolding program
refused = refl

abbrev negative : List Span
negative = record { start = negsuc 3; end = pos 0; label = "a" } ∷ []

before_the_file : check_non_overlapping negative (pos 100) ≡ outside "a" ∷ overlaps "a" ∷ []
unfolding program
before_the_file = refl

check_non_overlapping_sound_example : All (Within (pos 100)) fitting × Pairwise Apart fitting
check_non_overlapping_sound_example = check_non_overlapping_sound fitting (pos 100) passed

abbrev entry : ℕ → DenseTensorEntry
entry bytes = record {
  name = "norm";
  component = "norm";
  shape = bytes ∷ [];
  bits = 16;
  group_size = 0;
  symmetric = false;
  codec_id = "raw.f16.v1";
  num_params = bytes;
  packed_bytes = bytes;
  byte_offset = pos 0;
  spans = record { section = packed; offset = 0; length = bytes } ∷ [];
}

abbrev entries : List DenseTensorEntry
entries = entry 10 ∷ entry 0 ∷ entry 70 ∷ []

placed_bytes : (place_dense 0 entries).1 ≡ 192
unfolding program
placed_bytes = refl

sized : All IsSized entries
sized = (refl, (refl, (refl, tt)))

validate_dense_layout-place_dense_example :
    validate_dense_layout (place_dense 0 entries).0 (pos (place_dense 0 entries).1) ≡ []
validate_dense_layout-place_dense_example = validate_dense_layout-place_dense entries sized
