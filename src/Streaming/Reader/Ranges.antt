-- ===== src/Streaming/Reader/Ranges.antt =====
-- The ranges that the reader asks for are those of the rows and of the expert.
use native.Mathlib.Nat.{div-add-mod'}
use pocket_titan.Prelude.{
  if◌then◌else◌, ℕ, ◌+◌, ◌-◌, ◌*◌, ◌/◌, ◌%◌, ◌≤◌, ◌<◌, ◌≡◌, ◌∙◌, sym, ap, inl, inr, max, List, [],
  ◌∷◌, ◌==◌, leb, length, take, drop, prod, Result, ok, err, All, arith, Bool-cases, ok-injective,
  leb→le, leb→lt, >>=-eq-ok, guard-eq-ok, truncated_tensor, or_raise, unsupported_dtype,
}
use pocket_titan.Streaming.Transfer.{Attempt}
use pocket_titan.Streaming.Transfer.Exact.{IsHonest, fetch_remote_bytes_exact}
use pocket_titan.Streaming.Reader.{
  SourceDtype, Tensor, item_size, as_tensor, TensorAddress, bytes_to_tensor, fetch_range, stride,
  read_slice, read_3d_expert_slice,
}

-- The network serves `file`, whatever range is asked for.
abbrev pub AreHonest : List ℕ → List Attempt → Type 0
AreHonest file attempts = (byte_end : ℕ) → All (IsHonest file byte_end) attempts

fetch_range_exact :
    (file : List ℕ) (start end : ℕ) (attempts : List Attempt) (bytes : List ℕ)
    → AreHonest file attempts
    → fetch_range start end attempts ≡ ok bytes
    → bytes ≡ take (end - start) (drop start file)
unfolding fetch_range
fetch_range_exact file start end attempts bytes honest e = elim (Bool-cases (leb end start)) [
  | inl empty ↦
      let none_left : 0 ≡ end - start = omega (arith, leb→le _ _ empty) in
      sym (ok-injective (rw empty at e)) ∙ ap (λ n. take n (drop start file)) none_left
  | inr some_bytes ↦
      let whole =
        fetch_remote_bytes_exact file start (end - 1) attempts bytes (honest (end - 1))
          (rw some_bytes at e) in
      let same : end - 1 + 1 - start ≡ end - start = omega (arith, leb→lt _ _ some_bytes) in
      whole.0 ∙ ap (λ n. take n (drop start file)) same
]

bytes_to_tensor_same :
    (to_float16 : SourceDtype → List ℕ → List ℕ) (raw : List ℕ) (dtype : SourceDtype)
    (shape : List ℕ) (t : Tensor)
    → bytes_to_tensor to_float16 raw dtype shape ≡ ok t
    → as_tensor to_float16 dtype shape raw ≡ t
unfolding bytes_to_tensor
bytes_to_tensor_same to_float16 raw dtype shape t e =
    let (size, s, e1) = >>=-eq-ok (or_raise (item_size dtype) unsupported_dtype) _ e in
    let (fits, e2) = guard-eq-ok (length raw == prod shape * size) truncated_tensor _ e1 in
    ok-injective e2

stride-ok : (size parts per : ℕ) → 0 < parts → stride size parts ≡ ok per → per * parts ≡ size
unfolding stride
stride-ok size parts per p e =
    let some_parts : max 1 parts ≡ parts = omega arith in by_rest (rw (some_parts, stride) at e)
  where
    by_rest :
        (if size % parts == 0 then ok (size / parts) else err truncated_tensor) ≡ ok per
        → per * parts ≡ size
    by_rest f =
        let quotient : (size % parts ≡ 0) × (size / parts ≡ per) = ground (arith, f) in
        rw (← quotient.1) (omega (arith, quotient.0, div-add-mod' size parts))

-- One expert of a fused bank: where the network serves `file`, a read of an expert that the bank has
-- returns the tensor of that expert's record alone: with `per` bytes for each of the bank's experts,
-- those from `expert_idx * per` on, all inside the tensor, as they are or, for an eight-bit float,
-- converted to float16.
pub read_3d_expert_slice_exact :
    (to_float16 : SourceDtype → List ℕ → List ℕ) (file : List ℕ) (addr : TensorAddress)
    (num_experts out_feat in_feat expert_idx : ℕ) (attempts : List Attempt) (t : Tensor)
    → addr.shape ≡ num_experts ∷ out_feat ∷ in_feat ∷ []
    → expert_idx < num_experts
    → AreHonest file attempts
    → read_3d_expert_slice to_float16 addr expert_idx attempts ≡ ok t
    → (per : ℕ) × (per * num_experts ≡ addr.size_bytes)
      × (t
          ≡ as_tensor to_float16 addr.dtype
              (out_feat ∷ in_feat ∷ [])
              (take per (drop (addr.byte_start + expert_idx * per) file)))
      × (expert_idx * per + per ≤ addr.size_bytes)
unfolding read_3d_expert_slice
read_3d_expert_slice_exact to_float16 file addr num_experts out_feat in_feat expert_idx attempts t
      shape lt honest e =
    let (per, s, e1) = >>=-eq-ok (stride addr.size_bytes num_experts) _ (rw shape at e) in
    let start = addr.byte_start + expert_idx * per in
    let (raw, fetched, e2) = >>=-eq-ok (fetch_range start (start + per) attempts) _ e1 in
    let whole = stride-ok addr.size_bytes num_experts per (omega arith) s in
    let width : start + per - start ≡ per = omega arith in
    (
      per,
      whole,
      sym (bytes_to_tensor_same to_float16 raw addr.dtype (out_feat ∷ in_feat ∷ []) t e2)
          ∙ ap (as_tensor to_float16 addr.dtype (out_feat ∷ in_feat ∷ [])) (
              fetch_range_exact file start (start + per) attempts raw honest fetched
              ∙ ap (λ n. take n (drop start file)) width),
      rw (← whole) (within per expert_idx num_experts lt),
    )
  where
    within : (per i n : ℕ) → i < n → i * per + per ≤ per * n
    within per i n h = grind arith

-- The rows of a matrix: where the network serves `file`, a read of some rows returns the tensor of
-- exactly their bytes, `bytes_per_row` for each, as they are or, for an eight-bit float, converted to
-- float16; those of rows that the matrix has lie inside the tensor.
pub read_slice_exact :
    (to_float16 : SourceDtype → List ℕ → List ℕ) (torch_rows : Tensor → ℕ → ℕ → Result Tensor)
    (file : List ℕ) (addr : TensorAddress) (out_features in_features row_start row_end : ℕ)
    (attempts : List Attempt) (t : Tensor)
    → addr.shape ≡ out_features ∷ in_features ∷ []
    → row_start < row_end
    → row_end ≤ out_features
    → AreHonest file attempts
    → read_slice to_float16 torch_rows addr row_start row_end attempts ≡ ok t
    → (bytes_per_row : ℕ) × (bytes_per_row * out_features ≡ addr.size_bytes)
      × (t
          ≡ as_tensor to_float16 addr.dtype ((row_end - row_start) ∷ in_features ∷ []) (
              take
                ((row_end - row_start) * bytes_per_row)
                (drop (addr.byte_start + row_start * bytes_per_row) file)))
      × (row_end * bytes_per_row ≤ addr.size_bytes)
unfolding read_slice
read_slice_exact to_float16 torch_rows file addr out_features in_features row_start row_end attempts
      t shape lt le honest e =
    let (per, s, e1) = >>=-eq-ok (stride addr.size_bytes out_features) _ (rw shape at e) in
    let start = addr.byte_start + row_start * per in
    let end = addr.byte_start + row_end * per in
    let (raw, fetched, e2) = >>=-eq-ok (fetch_range start end attempts) _ e1 in
    let whole = stride-ok addr.size_bytes out_features per (omega arith) s in
    let width : end - start ≡ (row_end - row_start) * per =
      between per addr.byte_start row_start row_end lt in
    (
      per,
      whole,
      sym (
            bytes_to_tensor_same to_float16 raw addr.dtype
              ((row_end - row_start) ∷ in_features ∷ []) t e2)
          ∙ ap (as_tensor to_float16 addr.dtype ((row_end - row_start) ∷ in_features ∷ [])) (
              fetch_range_exact file start end attempts raw honest fetched
              ∙ ap (λ n. take n (drop start file)) width),
      rw (← whole) (below per row_end out_features le),
    )
  where
    distributed : (i d j per : ℕ) → j ≡ i + d → j * per ≡ i * per + d * per
    distributed i d j per later = grind arith

    between : (per b i j : ℕ) → i < j → b + j * per - (b + i * per) ≡ (j - i) * per
    between per b i j h =
        let later : j ≡ i + (j - i) = omega arith in
        let product : j * per ≡ i * per + (j - i) * per = distributed i (j - i) j per later in
        omega arith

    below : (per i n : ℕ) → i ≤ n → i * per ≤ per * n
    below per i n h = grind arith
