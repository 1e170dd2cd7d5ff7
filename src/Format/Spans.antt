-- ===== src/Format/Spans.antt =====
-- `Section`, `SectionSpan`, `matrix_dims` (of quantizers/base.py, which format.py delegates to) and
-- `section_spans`: the byte spans of one quantized matrix. Float widths are whole numbers here.
use pocket_titan.Prelude.{
  ℕ, ◌+◌, ◌-◌, ◌*◌, ◌/◌, ◌%◌, ◌≤◌, ◌<◌, ◌≡◌, refl, Bool, true, false, not, Option, none, some, List,
  [], ◌∷◌, ◌++◌, arith, leb, ◌==◌, if◌then◌else◌, prod, sum, map, Result, ok, err, zero_division,
  ◌>>=◌, ◌>>◌, guard,
}
use pocket_titan.Prelude.Ceil.{ceil_div}
use pocket_titan.Format.Align.{packed_bytes}
use pocket_titan.Format.Groups.{resolve_group_size, resolve_group_size_divides}
pub mod Tiling

pub data Section : Type 0 where
  packed scales zeros : Section

pub record SectionSpan : Type 0 where
  pub section : Section
  pub offset : ℕ
  pub length : ℕ

abbrev pub end : SectionSpan → ℕ
end s = s.offset + s.length

-- `sum(s.length for s in spans)`
abbrev pub total_length : List SectionSpan → ℕ
total_length spans = sum (map (λ s. s.length) spans)

-- `shape[:-1]` and `shape[-1]` of a list with a first element.
abbrev init : ℕ → List ℕ → List ℕ
init x [] = []
init x (y ∷ ys) = x ∷ init y ys

abbrev last : ℕ → List ℕ → ℕ
last x [] = x
last x (y ∷ ys) = last y ys

unfoldable pub matrix_dims : List ℕ → ℕ × ℕ
matrix_dims [] = (1, 1)
matrix_dims (x ∷ []) = (1, x)
matrix_dims (x ∷ y ∷ ys) = (prod (init x (y ∷ ys)), last x (y ∷ ys))

-- The list that the code builds below 16 bits, once it has a group size.
unfoldable pub group_spans : ℕ → ℕ → ℕ → ℕ → Bool → ℕ → ℕ → List SectionSpan
unfolding ceil_div
group_spans rows in_features bits effective_group symmetric scale_bytes zero_bytes =
    let groups_per_row = ceil_div in_features effective_group in
    let padded_in = groups_per_row * effective_group in
    let groups = rows * groups_per_row in
    let codes = packed_bytes (rows * padded_in) bits in
    let scale_length = groups * scale_bytes in
    record { section = packed; offset = 0; length = codes }
    ∷ record { section = scales; offset = codes; length = scale_length }
    ∷ (if symmetric
        then []
        else record { section = zeros; offset = codes + scale_length; length = groups * zero_bytes }
          ∷ [])

-- `math.ceil(in_features / effective_group)` raises for a row of no elements.
unfoldable pub section_spans : List ℕ → ℕ → ℕ → Bool → ℕ → ℕ → Result (List SectionSpan)
section_spans shape bits group_size symmetric scale_bytes zero_bytes =
    let (rows, in_features) = matrix_dims shape in
    let effective_group = resolve_group_size in_features group_size in
    if leb 16 bits
    then ok (record { section = packed; offset = 0; length = rows * in_features * 2 } ∷ [])
    else if effective_group == 0
    then err zero_division
    else ok (group_spans rows in_features bits effective_group symmetric scale_bytes zero_bytes)
