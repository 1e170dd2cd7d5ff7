-- ===== src/Format/Align.antt =====
-- Alignment and packing density: `align_up`, `storage_bits`, `packed_bytes` and `num_groups`.
-- Bit widths are whole numbers; `int(nominal_bits)` is then the identity.
use native.Mathlib.Nat.{mul-mod_left}
use pocket_titan.Prelude.{
  ℕ, zero, suc, inl, inr, Bool-cases, ◌+◌, ◌-◌, ◌*◌, ◌/◌, ◌%◌, ◌≤◌, ◌<◌, ◌≡◌, Bool, ◌||◌, arith,
  leb, ◌==◌, if◌then◌else◌,
}
use pocket_titan.Prelude.Ceil.{ceil_div, ceil_div_bounds}

abbrev pub page_size : ℕ
page_size = 4096

unfoldable pub align_up : ℕ → ℕ → ℕ
align_up value alignment =
    if leb alignment 1 then value else (value + alignment - 1) / alignment * alignment

unfoldable pub storage_bits : ℕ → ℕ
storage_bits nominal_bits =
    if leb 8 nominal_bits || leb nominal_bits 0 then nominal_bits else 8 / (8 / nominal_bits)

unfoldable pub is_dense_bit_width : ℕ → Bool
unfolding storage_bits
is_dense_bit_width nominal_bits = storage_bits nominal_bits == nominal_bits

unfoldable pub packed_bytes : ℕ → ℕ → ℕ
unfolding storage_bits ceil_div
packed_bytes num_elements bits = ceil_div (num_elements * storage_bits bits) 8

unfoldable pub num_groups : ℕ → ℕ → ℕ
unfolding ceil_div
num_groups num_elements group_size =
    if leb group_size 0 then 1 else ceil_div num_elements group_size

-- Aligning up gives the least multiple of the alignment that is not below the value: it reaches
-- the value, exceeds it by less than one alignment, and is a multiple.
pub align_up_bounds :
    (value alignment : ℕ)
    → 0 < alignment
    → (value ≤ align_up value alignment)
      × (align_up value alignment < value + alignment)
      × (align_up value alignment % alignment ≡ 0)
unfolding align_up ceil_div
align_up_bounds value alignment h = elim (Bool-cases (leb alignment 1)) [
  | inl one ↦ ground arith
  | inr many ↦
      let b = ceil_div_bounds value alignment h in
      rw many (b.0, b.1, mul-mod_left ((value + alignment - 1) / alignment) alignment)
]

-- Planning with storage bits never undercounts: for every width from 1 to 8 the width on disk is
-- at least the nominal one, at most 8, and packs a byte with no bit left over.
pub storage_bits_bounds :
    (bits : ℕ)
    → 0 < bits
    → bits ≤ 8
    → (bits ≤ storage_bits bits) × (storage_bits bits ≤ 8) × (8 % storage_bits bits ≡ 0)
unfolding storage_bits
storage_bits_bounds zero p q = absurd (omega arith)
storage_bits_bounds (suc zero) p q = omega arith
storage_bits_bounds (suc (suc zero)) p q = omega arith
storage_bits_bounds (suc (suc (suc zero))) p q = omega arith
storage_bits_bounds (suc (suc (suc (suc zero)))) p q = omega arith
storage_bits_bounds (suc (suc (suc (suc (suc zero))))) p q = omega arith
storage_bits_bounds (suc (suc (suc (suc (suc (suc zero)))))) p q = omega arith
storage_bits_bounds (suc (suc (suc (suc (suc (suc (suc zero))))))) p q = omega arith
storage_bits_bounds (suc (suc (suc (suc (suc (suc (suc (suc n)))))))) p q =
    let e : n ≡ 0 = omega arith in rw e (omega arith)
