-- ===== src/Package/Validator.antt =====
-- pockettitan/package/validator.py: `_check_non_overlapping` and the layout checks that are made of it.
-- A span is its first byte, the byte behind its last one, both integers, and its label; an error names
-- a label. The source also sorts spans with the same bytes by their labels, which no test depends on.
mod Sorting
pub mod Sound
use Prim.Native.String.{String}
use pocket_titan.Prelude.{
  ℕ, ◌+◌, Bool, ◌&&◌, ◌||◌, ltb, leb, ◌==◌, if◌then◌else◌, List, [], ◌∷◌, ◌++◌, max, map, Option,
  none, some,
}
use pocket_titan.Prelude.Int.{ℤ, pos, ltb_ℤ, leb_ℤ, max_ℤ, ◌+ℤ◌}
use pocket_titan.Format.Dense.{DenseTensorEntry, entry_length}
use pocket_titan.Format.PleIndex.{PleShardMapping}

pub record Span : Type 0 where
  pub start : ℤ
  pub end : ℤ
  pub label : String

pub data LayoutError : Type 0 where
  outside overlaps : String → LayoutError

abbrev pub span_le : Span → Span → Bool
span_le a b = ltb_ℤ a.start b.start || (leb_ℤ a.start b.start && leb_ℤ a.end b.end)

-- `sorted(spans)`
unfoldable pub insert_span : Span → List Span → List Span
insert_span s [] = s ∷ []
insert_span s (t ∷ spans) =
    let rest = insert_span s spans in if span_le s t then s ∷ t ∷ spans else t ∷ rest

unfoldable pub sort_spans : List Span → List Span
unfolding insert_span
sort_spans [] = []
sort_spans (s ∷ spans) = insert_span s (sort_spans spans)

-- One round's errors.
abbrev pub span_errors : ℤ → ℤ → Span → List LayoutError
span_errors limit previous_end s =
    (if ltb_ℤ s.start (pos 0) || ltb_ℤ s.end s.start || ltb_ℤ limit s.end
      then outside s.label ∷ []
      else [])
    ++ (if ltb_ℤ s.start previous_end then overlaps s.label ∷ [] else [])

unfoldable pub check_sorted : ℤ → ℤ → List Span → List LayoutError
check_sorted limit previous_end [] = []
check_sorted limit previous_end (s ∷ spans) =
    span_errors limit previous_end s ++ check_sorted limit (max_ℤ previous_end s.end) spans

unfoldable pub check_non_overlapping : List Span → ℤ → List LayoutError
unfolding sort_spans check_sorted
check_non_overlapping spans limit = check_sorted limit (pos 0) (sort_spans spans)

abbrev pub dense_span : DenseTensorEntry → Span
dense_span item = record {
  start = item.byte_offset;
  end = item.byte_offset +ℤ pos (entry_length item);
  label = item.name;
}

-- `_validate_dense_layout`, with the size of the dense region.
unfoldable pub validate_dense_layout : List DenseTensorEntry → ℤ → List LayoutError
unfolding check_non_overlapping
validate_dense_layout entries dense_bytes =
    check_non_overlapping (map dense_span entries) dense_bytes
