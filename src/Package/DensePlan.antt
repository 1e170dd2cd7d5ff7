-- ===== src/Package/DensePlan.antt =====
-- pockettitan/package/plan.py: the addresses of the dense blob, which `plan_package` gives to the
-- tensors in their final order.
pub mod Accepted
use pocket_titan.Prelude.{ℕ, ◌+◌, List, [], ◌∷◌}
use pocket_titan.Prelude.Int.{pos}
use pocket_titan.Format.Align.{align_up}
use pocket_titan.Format.Spans.{total_length}
use pocket_titan.Format.Dense.{DenseTensorEntry}

abbrev pub dense_entry_alignment : ℕ
dense_entry_alignment = 64

-- The loop over `dense`, from a cursor on: the entries with their addresses, and `dense_bytes`.
unfoldable pub place_dense : ℕ → List DenseTensorEntry → List DenseTensorEntry × ℕ
unfolding align_up
place_dense cursor [] = ([], cursor)
place_dense cursor (item ∷ dense) =
    let (placed, dense_bytes) =
      place_dense (align_up (cursor + total_length item.spans) dense_entry_alignment) dense in
    (record item { byte_offset = pos cursor } ∷ placed, dense_bytes)
