-- ===== src/Package/DensePlan/Accepted.antt =====
-- The addresses that the planner gives to the dense tensors, against the validator's layout check.
use pocket_titan.Prelude.{
  ℕ, ◌+◌, ◌≤◌, ◌≡◌, refl, ap, ◌∙◌, true, false, ◌||◌, List, [], ◌∷◌, ◌++◌, map, All, arith,
}
use pocket_titan.Prelude.Int.{ℤ, pos, ◌≤ℤ◌, ltb_ℤ, max_ℤ}
use Prim.Native.String.{String}
use pocket_titan.Format.Align.{align_up, align_up_bounds}
use pocket_titan.Format.Spans.{total_length}
use pocket_titan.Format.Dense.{DenseTensorEntry, entry_length}
use pocket_titan.Package.DensePlan.{place_dense, dense_entry_alignment}
use pocket_titan.Package.Validator.{
  span_le, insert_span, sort_spans, span_errors, check_sorted, check_non_overlapping, dense_span,
  validate_dense_layout,
}

-- The planner's size of an entry is the sum of its spans.
abbrev pub IsSized : DenseTensorEntry → Type 0
IsSized e = e.packed_bytes ≡ total_length e.spans

length-sized : (e : DenseTensorEntry) → IsSized e → entry_length e ≡ total_length e.spans
unfolding entry_length
length-sized e sized = ground (arith, sized)

next_cursor : (c n : ℕ) → c + n ≤ align_up (c + n) dense_entry_alignment
next_cursor c n = (align_up_bounds (c + n) 64 (omega arith)).0

place_dense-le : (c : ℕ) (items : List DenseTensorEntry) → c ≤ (place_dense c items).1
unfolding place_dense
place_dense-le c [] = omega arith
place_dense-le c (item ∷ items) = omega (
  arith,
  next_cursor c (total_length item.spans),
  place_dense-le (align_up (c + total_length item.spans) dense_entry_alignment) items,
)

inside_clear :
    (limit c e : ℕ) (previous_end : ℤ) (label : String)
    → previous_end ≤ℤ pos c
    → c ≤ e
    → e ≤ limit
    → span_errors (pos limit) previous_end (record { start = pos c; end = pos e; label = label })
      ≡ []
inside_clear limit c e previous_end label before grows fits =
    let bounds : (ltb_ℤ (pos c) (pos 0) || ltb_ℤ (pos e) (pos c) || ltb_ℤ (pos limit) (pos e))
        ≡ false =
      ground arith in
    let order : ltb_ℤ (pos c) previous_end ≡ false = ground arith in rw (bounds, order) refl

max_ℤ-below : (a b c : ℤ) → a ≤ℤ c → b ≤ℤ c → max_ℤ a b ≤ℤ c
max_ℤ-below a b c h k = ground arith

check_placed :
    (c : ℕ) (previous_end : ℤ) (limit : ℕ) (items : List DenseTensorEntry)
    → previous_end ≤ℤ pos c
    → (place_dense c items).1 ≤ limit
    → All IsSized items
    → check_sorted (pos limit) previous_end (map dense_span (place_dense c items).0) ≡ []
unfolding place_dense check_sorted
check_placed c previous_end limit [] before fits sized = refl
check_placed c previous_end limit (item ∷ items) before fits sized =
    let n = total_length item.spans in
    let next = align_up (c + n) dense_entry_alignment in
    let placed = record item { byte_offset = pos c } in
    let size = entry_length placed in
    let long : size ≡ n = length-sized placed sized.0 in
    let inside : c + n ≤ limit = omega (arith, next_cursor c n, place_dense-le next items, fits) in
    let grown : previous_end ≤ℤ pos (c + size) = omega (arith, before) in
    let end : pos (c + size) ≤ℤ pos next = omega (arith, next_cursor c n, long) in
    ap
      (λ errors.
        errors
        ++ check_sorted (pos limit) (max_ℤ previous_end (pos (c + size)))
            (map dense_span (place_dense next items).0))
      (inside_clear limit c (c + size) previous_end item.name before (omega arith)
        (omega (arith, long, inside)))
    ∙ check_placed next (max_ℤ previous_end (pos (c + size))) limit items
        (max_ℤ-below previous_end (pos (c + size)) (pos next)
          (omega (arith, before, next_cursor c n)) end)
        fits sized.1

-- The entries are already in the order of their bytes.
sort_placed :
    (c : ℕ) (items : List DenseTensorEntry)
    → All IsSized items
    → sort_spans (map dense_span (place_dense c items).0) ≡ map dense_span (place_dense c items).0
unfolding place_dense sort_spans insert_span
sort_placed c [] sized = refl
sort_placed c (item ∷ []) sized = refl
sort_placed c (item ∷ next ∷ items) sized =
    let n = total_length item.spans in
    let c' = align_up (c + n) dense_entry_alignment in
    let long : entry_length (record item { byte_offset = pos c }) ≡ n =
      length-sized (record item { byte_offset = pos c }) sized.0 in
    let first = dense_span (record item { byte_offset = pos c }) in
    let second = dense_span (record next { byte_offset = pos c' }) in
    let ordered : span_le first second ≡ true = ground (arith, next_cursor c n, long) in
    ap (insert_span first) (sort_placed c' (next ∷ items) sized.1) ∙ rw ordered refl

-- The addresses that the planner gives to the dense tensors pass the validator: whatever their sizes,
-- no two entries overlap and all of them lie inside the `dense_bytes` that the planner reports.
pub validate_dense_layout-place_dense :
    (items : List DenseTensorEntry)
    → All IsSized items
    → validate_dense_layout (place_dense 0 items).0 (pos (place_dense 0 items).1) ≡ []
unfolding validate_dense_layout check_non_overlapping
validate_dense_layout-place_dense items sized =
    ap (check_sorted (pos (place_dense 0 items).1) (pos 0)) (sort_placed 0 items sized)
    ∙ check_placed 0 (pos 0) (place_dense 0 items).1 items (omega arith) (omega arith) sized
