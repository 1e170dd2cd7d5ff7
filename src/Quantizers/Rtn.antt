-- ===== src/Quantizers/Rtn.antt =====
-- pockettitan/quantizers/rtn.py: `RTNQuantizer._pack_tensor` and `_unpack_tensor`. A uint8 tensor is
-- the list of its bytes, flattened, and each vectorised statement acts on the whole list.
mod Bits
mod Digits
mod Columns
pub mod RoundTrip
use Prim.Native.Nat.{bit_and, bit_or}
use pocket_titan.Prelude.{
  ℕ, zero, suc, ◌+◌, ◌-◌, ◌*◌, ◌/◌, ◌%◌, ◌^◌, Bool, not, ◌||◌, List, [], ◌∷◌, ◌++◌, map, leb, ◌==◌,
  if◌then◌else◌, length, take, replicate, prod, Result, ok, err, value_error, zero_division,
  runtime_error, guard, ◌>>◌, ◌>>=◌,
}

-- `8 // bits`
unfoldable pub vals_per_byte : ℕ → Result ℕ
vals_per_byte bits = if bits == 0 then err zero_division else ok (8 / bits)

-- `xs[skip::step]`
unfoldable pub strided : ℕ → ℕ → List ℕ → List ℕ
strided skip step [] = []
strided zero step (x ∷ xs) = x ∷ strided (step - 1) step xs
strided (suc skip) step (x ∷ xs) = strided skip step xs

-- `xs[skip::step] = ys`, for as many values as there are places
unfoldable pub assign_strided : ℕ → ℕ → List ℕ → List ℕ → List ℕ
assign_strided skip step ys [] = []
assign_strided zero step [] (x ∷ xs) = x ∷ xs
assign_strided zero step (y ∷ ys) (x ∷ xs) = y ∷ assign_strided (step - 1) step ys xs
assign_strided (suc skip) step ys (x ∷ xs) = x ∷ assign_strided skip step ys xs

-- The codes of a whole number of bytes; `%` by zero raises.
unfoldable pub pad_flat : ℕ → List ℕ → Result (List ℕ)
pad_flat per_byte flat =
    if per_byte == 0
    then err zero_division
    else if not (length flat % per_byte == 0)
    then ok (flat ++ replicate (per_byte - length flat % per_byte) 0)
    else ok flat

-- `packed |= column << shift` on uint8, which keeps the low eight bits of a shifted code
unfoldable pub or_shifted : ℕ → List ℕ → List ℕ → List ℕ
or_shifted shift [] column = []
or_shifted shift packed [] = packed
or_shifted shift (p ∷ packed) (x ∷ column) =
    bit_or p (x * 2 ^ shift % 256) ∷ or_shifted shift packed column

-- The loop of `_pack_tensor` after its first `i` rounds.
unfoldable pub pack_columns : ℕ → ℕ → List ℕ → ℕ → List ℕ
unfolding or_shifted strided
pack_columns bits per_byte flat zero = replicate (length flat / per_byte) 0
pack_columns bits per_byte flat (suc i) =
    or_shifted (i * bits) (pack_columns bits per_byte flat i) (strided i per_byte flat)

unfoldable pub pack_tensor : List ℕ → ℕ → Result (List ℕ)
unfolding vals_per_byte pad_flat pack_columns
pack_tensor tensor bits =
    guard (not (leb 16 bits || leb bits 0)) value_error >> vals_per_byte bits >>= λ per_byte.
    pad_flat per_byte tensor >>= λ flat. ok (pack_columns bits per_byte flat per_byte)

-- `(packed >> shift) & mask`
unfoldable pub unpack_column : ℕ → ℕ → List ℕ → List ℕ
unpack_column shift mask packed = map (λ p. bit_and (p / 2 ^ shift) mask) packed

-- The loop of `_unpack_tensor` after its first `i` rounds.
unfoldable pub unpack_columns : ℕ → ℕ → List ℕ → ℕ → List ℕ
unfolding assign_strided unpack_column
unpack_columns bits per_byte packed zero = replicate (length packed * per_byte) 0
unpack_columns bits per_byte packed (suc i) =
    assign_strided i per_byte (unpack_column (i * bits) (2 ^ bits - 1) packed)
      (unpack_columns bits per_byte packed i)

-- `unpacked[:num_elements].view(target_shape)`: the view raises if the number of elements differs.
unfoldable pub view_as : List ℕ → List ℕ → Result (List ℕ)
view_as flat target_shape =
    let kept = take (prod target_shape) flat in
    if length kept == prod target_shape then ok kept else err runtime_error

unfoldable pub unpack_tensor : List ℕ → ℕ → List ℕ → Result (List ℕ)
unfolding vals_per_byte unpack_columns view_as
unpack_tensor packed bits target_shape = vals_per_byte bits >>= λ per_byte.
    view_as (unpack_columns bits per_byte packed per_byte) target_shape
