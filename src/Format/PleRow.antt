-- ===== src/Format/PleRow.antt =====
-- `PleRowLayout`: the row geometry of the n-gram table.
pub mod Pages
use Prim.Native.String.{String}
use pocket_titan.Prelude.{
  ℕ, ◌+◌, ◌*◌, ◌/◌, ◌%◌, ◌<◌, Bool, List, [], ◌∷◌, ltb, ◌==◌, not, if◌then◌else◌, max, Result, ok,
  err, zero_division, ◌>>=◌, ◌>>◌, guard,
}
use pocket_titan.Prelude.Ceil.{ceil_div}
use pocket_titan.Format.Align.{align_up, page_size}
use pocket_titan.Format.Groups.{resolve_group_size}
use pocket_titan.Format.Spans.{total_length, section_spans}

pub record PleRowLayout : Type 0 where
  pub row_width : ℕ
  pub bits : ℕ
  pub group_size : ℕ
  pub symmetric : Bool
  pub codec_id : String
  pub payload_bytes : ℕ
  pub rows_per_page : ℕ
  pub page_bytes : ℕ

-- The page size and the rows per page, from the payload of a row: `page_bytes // payload` raises
-- for an empty payload.
unfoldable pub page_geometry : ℕ → ℕ → Result (ℕ × ℕ)
unfolding align_up
page_geometry payload page_bytes =
    if ltb page_bytes payload
    then ok (align_up payload page_size, 1)
    else if payload == 0
    then err zero_division
    else ok (page_bytes, max 1 (page_bytes / payload))

-- `build` once the payload is known.
unfoldable pub from_payload : ℕ → ℕ → ℕ → Bool → ℕ → String → ℕ → Result PleRowLayout
unfolding page_geometry
from_payload row_width bits group_size symmetric requested_page codec_id payload = do
  (page_bytes, rows_per_page) ← page_geometry payload requested_page
  ok (record {
    row_width = row_width;
    bits = bits;
    group_size = group_size;
    symmetric = symmetric;
    codec_id = codec_id;
    payload_bytes = payload;
    rows_per_page = rows_per_page;
    page_bytes = page_bytes;
  })

unfoldable pub build : ℕ → ℕ → ℕ → Bool → ℕ → ℕ → ℕ → String → Result PleRowLayout
unfolding from_payload
build row_width bits requested_group symmetric scale_bytes zero_bytes requested_page codec_id =
    let group_size = resolve_group_size row_width requested_group in
    section_spans (1 ∷ row_width ∷ []) bits group_size symmetric scale_bytes zero_bytes >>= λ spans.
    from_payload row_width bits group_size symmetric requested_page codec_id (total_length spans)

unfoldable pub row_offset : PleRowLayout → ℕ → ℕ
row_offset r row_id =
    row_id / r.rows_per_page * r.page_bytes + row_id % r.rows_per_page * r.payload_bytes

unfoldable pub bytes_for : PleRowLayout → ℕ → ℕ
unfolding ceil_div
bytes_for r total_rows = ceil_div total_rows r.rows_per_page * r.page_bytes
