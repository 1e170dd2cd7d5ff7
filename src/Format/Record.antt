-- ===== src/Format/Record.antt =====
-- `ProjectionLayout` and `ExpertRecordLayout`: the byte layout that all expert records share.
pub mod Contiguity
use Prim.Native.String.{String}
use text.Mathlib.Text.{◌==◌ as str_eq}
use pocket_titan.Prelude.{
  ℕ, ◌+◌, ◌-◌, ◌*◌, Bool, false, Option, none, some, List, [], ◌∷◌, if◌then◌else◌, prod, sum, map,
  Result, ok, err, key_error, ◌>>=◌, or_raise,
}
use pocket_titan.Format.Align.{align_up}
use pocket_titan.Format.Groups.{resolve_group_size}
use pocket_titan.Format.Spans.{
  Section, packed, scales, zeros, SectionSpan, total_length, matrix_dims, section_spans,
}

-- One entry of `build`'s argument; `none` is a key that the dict lacks.
pub record ProjectionSpec : Type 0 where
  pub name : String
  pub shape : List ℕ
  pub bits : ℕ
  pub group_size : ℕ
  pub symmetric : Option Bool
  pub codec_id : Option String

pub record ProjectionLayout : Type 0 where
  pub name : String
  pub shape : List ℕ
  pub bits : ℕ
  pub group_size : ℕ
  pub symmetric : Bool
  pub codec_id : String
  pub offset : ℕ
  pub spans : List SectionSpan

abbrev pub projection_length : ProjectionLayout → ℕ
projection_length p = total_length p.spans

unfoldable pub num_elements : ProjectionLayout → ℕ
num_elements p = elim p.shape [ [] ↦ 0 | x ∷ xs ↦ x * prod xs ]

abbrev pub same_section : Section → Section → Bool
same_section packed packed = Bool.true
same_section scales scales = Bool.true
same_section zeros zeros = Bool.true
same_section _ _ = false

-- `ProjectionLayout.span`: the first span of the section.
unfoldable pub find_span : List SectionSpan → Section → Option SectionSpan
find_span [] section = none
find_span (s ∷ spans) section =
    if same_section s.section section then some s else find_span spans section

pub record ExpertRecordLayout : Type 0 where
  pub projections : List ProjectionLayout
  pub payload_bytes : ℕ
  pub stride : ℕ
  pub alignment : ℕ

unfoldable pub num_params : ExpertRecordLayout → ℕ
unfolding num_elements
num_params r = sum (map num_elements r.projections)

unfoldable pub padding_bytes : ExpertRecordLayout → ℕ
padding_bytes r = r.stride - r.payload_bytes

-- `projection`: the first projection of the name.
unfoldable pub find_projection : List ProjectionLayout → String → Option ProjectionLayout
find_projection [] name = none
find_projection (p ∷ ps) name = if str_eq p.name name then some p else find_projection ps name

abbrev get_or {ℓ} : {A : Type ℓ} → Option A → A → A
get_or none d = d
get_or (some a) d = a

-- One round of `build`'s loop: the projection at the cursor.
unfoldable pub lay_out : ProjectionSpec → ℕ → ℕ → ℕ → Result ProjectionLayout
lay_out spec scale_bytes zero_bytes cursor = do
  let symmetric = get_or spec.symmetric false
  let group_size = resolve_group_size (matrix_dims spec.shape).1 spec.group_size
  spans ← section_spans spec.shape spec.bits group_size symmetric scale_bytes zero_bytes
  ok (record {
    name = spec.name;
    shape = spec.shape;
    bits = spec.bits;
    group_size = group_size;
    symmetric = symmetric;
    codec_id = get_or spec.codec_id "pt.scalar.rtn.v1";
    offset = cursor;
    spans = spans;
  })

-- `build`'s loop: the projections, and the cursor behind the last one.
unfoldable pub lay_out_all : List ProjectionSpec → ℕ → ℕ → ℕ → Result (List ProjectionLayout × ℕ)
unfolding lay_out
lay_out_all [] scale_bytes zero_bytes cursor = ok ([], cursor)
lay_out_all (spec ∷ specs) scale_bytes zero_bytes cursor = do
  p ← lay_out spec scale_bytes zero_bytes cursor
  (ps, stop) ← lay_out_all specs scale_bytes zero_bytes (cursor + projection_length p)
  ok (p ∷ ps, stop)

unfoldable pub build : List ProjectionSpec → ℕ → ℕ → ℕ → Result ExpertRecordLayout
unfolding lay_out_all align_up
build projections alignment scale_bytes zero_bytes = do
  (laid_out, cursor) ← lay_out_all projections scale_bytes zero_bytes 0
  ok (record {
    projections = laid_out;
    payload_bytes = cursor;
    stride = align_up cursor alignment;
    alignment = alignment;
  })

unfoldable pub record_offset : ExpertRecordLayout → ℕ → ℕ
record_offset r record_index = record_index * r.stride

unfoldable pub section_offset : ExpertRecordLayout → ℕ → String → Section → Result ℕ
unfolding record_offset find_span find_projection
section_offset r record_index projection section = do
  p ← or_raise (find_projection r.projections projection) key_error
  s ← or_raise (find_span p.spans section) key_error
  ok (record_offset r record_index + p.offset + s.offset)
