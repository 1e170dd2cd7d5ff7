-- ===== src/Format/PleRow/Pages.antt =====
-- Rows of the n-gram table: none straddles a page, no two overlap, and the table holds them all.
use Prim.Native.String.{String}
use pocket_titan.Prelude.{
  ℕ, ◌+◌, ◌*◌, ◌/◌, ◌%◌, ◌≤◌, ◌<◌, ◌≡◌, Bool, [], ◌∷◌, ltb, ◌==◌, max, ok, err, >>=-eq-ok,
  ok-injective, subst, arith, Bool-cases, inl, inr, true, zero_division,
}
use pocket_titan.Prelude.Ceil.{ceil_div, ceil_div_bounds}
use pocket_titan.Format.Align.{align_up, align_up_bounds, page_size}
use native.Mathlib.Nat.{
  div-mul-le_self, mod-lt, div-add-mod', le_antisymm, add-mul-div_right, add-mul-mod_self_right,
  mod-eq_of_lt, div-eq_of_lt,
}
use pocket_titan.Format.Groups.{resolve_group_size}
use pocket_titan.Format.Spans.{section_spans, total_length}
use native.Mathlib.Decide.{dec_le, dec_lt}
use pocket_titan.Format.PleRow.{
  PleRowLayout, from_payload, page_geometry, build, row_offset, bytes_for,
}

-- What `build` ensures of its result.
pub record IsPacked (r : PleRowLayout) : Type 0 where
  pub some_payload : 0 < r.payload_bytes
  pub some_rows : 0 < r.rows_per_page
  pub fits : r.rows_per_page * r.payload_bytes ≤ r.page_bytes

ltb→pos : (a b : ℕ) → ltb a b ≡ true → 0 < b
ltb→pos a b h = ground arith

rows_fit :
    (payload page : ℕ) → 0 < payload → payload ≤ page → max 1 (page / payload) * payload ≤ page
rows_fit payload page p h = elim (dec_le 1 (page / payload)) [
  | yes le ↦
      let e : max 1 (page / payload) ≡ page / payload = omega arith in
      rw e (div-mul-le_self page payload)
  | no gt ↦ let e : max 1 (page / payload) ≡ 1 = omega arith in rw e (omega arith)
]

page_geometry_lem :
    (payload page_bytes : ℕ) (g : ℕ × ℕ)
    → page_geometry payload page_bytes ≡ ok g
    → (0 < payload) × (0 < g.1) × (g.1 * payload ≤ g.0)
unfolding page_geometry
page_geometry_lem payload page_bytes g h = elim (Bool-cases (ltb page_bytes payload)) [
  | inl long ↦
      subst (λ (g : ℕ × ℕ). (0 < payload) × (0 < g.1) × (g.1 * payload ≤ g.0))
        {x = (align_up payload page_size, 1)} (ok-injective (rw long at h))
        (
          ltb→pos page_bytes payload long,
          omega arith,
          omega (arith, align_up_bounds payload page_size (omega arith)),
        )
  | inr short ↦ elim (Bool-cases (payload == 0)) [
    | inl none_left ↦ absurd (raised (rw (short, none_left) at h))
    | inr some_left ↦
        subst (λ (g : ℕ × ℕ). (0 < payload) × (0 < g.1) × (g.1 * payload ≤ g.0))
          {x = (page_bytes, max 1 (page_bytes / payload))}
          (ok-injective (rw (short, some_left) at h))
          (ground arith, omega arith, rows_fit payload page_bytes (ground arith) (ground arith))
  ]
]
  where
    raised : err zero_division ≡ ok g → ⊥
    raised e = cc

from_payload-IsPacked :
    (row_width bits group_size : ℕ) (symmetric : Bool) (page_bytes : ℕ) (codec_id : String)
    (payload : ℕ) (r : PleRowLayout)
    → from_payload row_width bits group_size symmetric page_bytes codec_id payload ≡ ok r
    → IsPacked r
unfolding from_payload
from_payload-IsPacked row_width bits group_size symmetric page_bytes codec_id payload r h =
    let (g, e, f) = >>=-eq-ok (page_geometry payload page_bytes) _ h in
    let b = page_geometry_lem payload page_bytes g e in
    subst IsPacked (ok-injective f) (record { some_payload = b.0; some_rows = b.1; fits = b.2 })

build-IsPacked :
    (row_width bits group_size : ℕ) (symmetric : Bool) (scale_bytes zero_bytes page_bytes : ℕ)
    (codec_id : String) (r : PleRowLayout)
    → build row_width bits group_size symmetric scale_bytes zero_bytes page_bytes codec_id ≡ ok r
    → IsPacked r
unfolding build
build-IsPacked row_width bits group_size symmetric scale_bytes zero_bytes page_bytes codec_id r h =
    let g = resolve_group_size row_width group_size in
    let (spans, e, f) =
      >>=-eq-ok (section_spans (1 ∷ row_width ∷ []) bits g symmetric scale_bytes zero_bytes) _ h in
    from_payload-IsPacked row_width bits g symmetric page_bytes codec_id (total_length spans) r f

row_in_page :
    (rows payload page slot : ℕ)
    → slot < rows
    → rows * payload ≤ page
    → slot * payload + payload ≤ page
row_in_page rows payload page slot h fits = grind arith

lt_of_scaled : (rows a b : ℕ) → a * rows < b * rows → a < b
lt_of_scaled rows a b h = grind arith

le_of_scaled : (rows a b : ℕ) → a * rows < b * rows + rows → a ≤ b
le_of_scaled rows a b h = grind arith

page_before : (page q q' x y : ℕ) → x ≤ page → q < q' → q * page + x ≤ q' * page + y
page_before page q q' x y h lt = grind arith

slot_before : (payload base s s' : ℕ) → s < s' → base + s * payload + payload ≤ base + s' * payload
slot_before payload base s s' h = grind arith

slot_order :
    (rows i j q : ℕ)
    → q * rows + i % rows ≡ i
    → q * rows + j % rows ≡ j
    → i < j
    → i % rows < j % rows
slot_order rows i j q e e' lt = omega arith

div_mono : (rows i j : ℕ) → 0 < rows → i < j → i / rows ≤ j / rows
div_mono rows i j p lt =
    le_of_scaled rows (i / rows) (j / rows)
      (omega (arith, div-add-mod' i rows, div-add-mod' j rows, mod-lt j p))

div_before_ceil : (rows i total : ℕ) → 0 < rows → i < total → i / rows < ceil_div total rows
div_before_ceil rows i total p lt =
    lt_of_scaled rows (i / rows) (ceil_div total rows)
      (omega (arith, div-add-mod' i rows, ceil_div_bounds total rows p))

same_page : (rows i j : ℕ) → 0 < rows → i < j → ¬ (i / rows < j / rows) → i / rows ≡ j / rows
same_page rows i j p lt no_more = le_antisymm (div_mono rows i j p lt) (omega arith)

-- A number below the page size behind whole pages.
in_page : (page q x : ℕ) → x < page → ((q * page + x) / page ≡ q) × ((q * page + x) % page ≡ x)
in_page page q x h =
    let e : q * page + x ≡ x + q * page = omega arith in
    (
      rw (e, add-mul-div_right x q {z = page} (omega arith), div-eq_of_lt h) (omega arith),
      rw (e, add-mul-mod_self_right x q page, mod-eq_of_lt h),
    )

-- Rows in different slots, then rows on different pages.
rows_apart :
    (rows payload page i j : ℕ)
    → 0 < rows
    → rows * payload ≤ page
    → i < j
    → i / rows * page + i % rows * payload + payload ≤ j / rows * page + j % rows * payload
rows_apart rows payload page i j p fits lt = elim (dec_lt (i / rows) (j / rows)) [
  | yes before ↦
      let room = row_in_page rows payload page (i % rows) (mod-lt i p) fits in
      omega (
        arith,
        page_before page (i / rows) (j / rows) (i % rows * payload + payload) (j % rows * payload)
            room before,
      )
  | no same ↦
      let e : i / rows ≡ j / rows = same_page rows i j p lt same in
      rw e (
        slot_before payload (j / rows * page) (i % rows) (j % rows)
          (slot_order rows i j (j / rows) (rw e at (div-add-mod' i rows)) (div-add-mod' j rows) lt))
]

-- No row straddles a page: in a layout that `build` returns, the page of a row's first byte is
-- the row's number over the rows per page, and the whole payload ends within that page.
pub row_offset_in_page :
    (row_width bits group_size : ℕ) (symmetric : Bool) (scale_bytes zero_bytes page_bytes : ℕ)
    (codec_id : String) (r : PleRowLayout) (i : ℕ)
    → build row_width bits group_size symmetric scale_bytes zero_bytes page_bytes codec_id ≡ ok r
    → (row_offset r i / r.page_bytes ≡ i / r.rows_per_page)
      × (row_offset r i % r.page_bytes + r.payload_bytes ≤ r.page_bytes)
unfolding row_offset
row_offset_in_page row_width bits group_size symmetric scale_bytes zero_bytes page_bytes codec_id r
      i h =
    let b =
      build-IsPacked row_width bits group_size symmetric scale_bytes zero_bytes page_bytes codec_id
        r h in
    let room =
      row_in_page r.rows_per_page r.payload_bytes r.page_bytes (i % r.rows_per_page)
        (mod-lt i b.some_rows) b.fits in
    let e =
      in_page r.page_bytes (i / r.rows_per_page) (i % r.rows_per_page * r.payload_bytes)
        (omega (arith, b.some_payload)) in
    (e.0, rw e.1 room)

-- Rows never overlap: of two different rows of a built layout, the one with the smaller number
-- ends before the other starts.
pub row_offset_apart :
    (row_width bits group_size : ℕ) (symmetric : Bool) (scale_bytes zero_bytes page_bytes : ℕ)
    (codec_id : String) (r : PleRowLayout) (i j : ℕ)
    → build row_width bits group_size symmetric scale_bytes zero_bytes page_bytes codec_id ≡ ok r
    → i < j
    → row_offset r i + r.payload_bytes ≤ row_offset r j
unfolding row_offset
row_offset_apart row_width bits group_size symmetric scale_bytes zero_bytes page_bytes codec_id r i
      j h lt =
    let b =
      build-IsPacked row_width bits group_size symmetric scale_bytes zero_bytes page_bytes codec_id
        r h in
    rows_apart r.rows_per_page r.payload_bytes r.page_bytes i j b.some_rows b.fits lt

-- The table size that a built layout gives for a number of rows holds every one of them.
pub row_offset-bytes_for :
    (row_width bits group_size : ℕ) (symmetric : Bool) (scale_bytes zero_bytes page_bytes : ℕ)
    (codec_id : String) (r : PleRowLayout) (i total_rows : ℕ)
    → build row_width bits group_size symmetric scale_bytes zero_bytes page_bytes codec_id ≡ ok r
    → i < total_rows
    → row_offset r i + r.payload_bytes ≤ bytes_for r total_rows
unfolding row_offset bytes_for
row_offset-bytes_for row_width bits group_size symmetric scale_bytes zero_bytes page_bytes codec_id
      r i total_rows h lt =
    let b =
      build-IsPacked row_width bits group_size symmetric scale_bytes zero_bytes page_bytes codec_id
        r h in
    let n = r.rows_per_page in
    let m = r.payload_bytes in
    let page = r.page_bytes in
    let room = row_in_page n m page (i % n) (mod-lt i b.some_rows) b.fits in
    let before = div_before_ceil n i total_rows b.some_rows lt in
    omega (arith, page_before page (i / n) (ceil_div total_rows n) (i % n * m + m) 0 room before)
