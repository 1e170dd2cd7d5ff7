-- ===== src/Scheduler/Tiler/Address.antt =====
-- Streaming a matrix slice by slice gives what quantizing the whole matrix gives, but for its dtype.
use pocket_titan.Prelude.{ℕ, Bool, not, ◌&&◌, if◌then◌else◌, leb}
use pocket_titan.Prelude.Ceil.{ceil_div}
use pocket_titan.Scheduler.Budget.{aligned_tile_rows}
use pocket_titan.Scheduler.Tiler.{QuantizedResult}

-- A result with `dtype` for its original dtype, where `sliced`.
abbrev pub relabelled :
    {P M C D : Type 0} → Bool → D → QuantizedResult P M C D → QuantizedResult P M C D
relabelled sliced dtype res = record res {
  original_dtype = if sliced then dtype else res.original_dtype;
}

-- The matrix is read and quantized in slices: it does not fit, and has more than one tile.
abbrev pub is_sliced : Bool → ℕ → ℕ → Bool
is_sliced fits out_features budget_rows =
    not fits && not (leb (ceil_div out_features (aligned_tile_rows out_features budget_rows)) 1)
