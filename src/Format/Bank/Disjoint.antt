-- ===== src/Format/Bank/Disjoint.antt =====
-- The bank as a whole: no two experts share a byte, and none lies outside.
use native.Mathlib.Decide.{dec_lt}
use pocket_titan.Prelude.{
  ◌≤◌, none, List, [], ◌≢◌, ◌⊎◌, inl, inr, sym, ap, ◌∙◌, some_inj, >>=-eq-ok, err, key_error, ltb,
  if◌then◌else◌, ℕ, zero, suc, ◌+◌, ◌*◌, ◌<◌, ◌≡◌, inl, inr, Option-cases, some, List, [], ◌∷◌,
  length, ok, get_elem?, arith,
}
use pocket_titan.Format.Bank.{
  ExpertLayout, index_of, full_index, record_index, byte_range, total_bytes, num_records,
}

-- `index_of` returns a position at which the layer stands.
index_of_sound :
    (layer : ℕ) (xs : List ℕ) (i : ℕ)
    → index_of layer xs ≡ some i
    → (get_elem? xs i ≡ some layer) × (i < length xs)
unfolding index_of
index_of_sound layer [] i h = cc
index_of_sound layer (x ∷ xs) zero h = ground (arith)
index_of_sound layer (x ∷ xs) (suc i) h = ground (arith, index_of_sound layer xs i)

full_index_lem :
    (l : ExpertLayout) (layer expert i : ℕ)
    → full_index l layer expert ≡ ok i
    → (p : ℕ) × (index_of layer l.layers ≡ some p)
      × (expert < l.num_experts)
      × (i ≡ p * l.num_experts + expert)
unfolding full_index
full_index_lem l layer expert i h = elim (Option-cases (index_of layer l.layers)) [
  | inl missing ↦ ground arith
  | inr (p, found) ↦ (p, found, ground arith, ground arith)
]

whole_before :
    (stride payload i j : ℕ) → payload ≤ stride → i < j → i * stride + payload ≤ j * stride
whole_before stride payload i j h lt = grind arith

slots_apart : (p p' n e e' : ℕ) → e < n → e' < n → p < p' → p * n + e < p' * n + e'
slots_apart p p' n e e' h h' lt = grind arith

slot_below : (p rows n e : ℕ) → e < n → p < rows → p * n + e < rows * n
slot_below p rows n e h lt = grind arith

same_row : (p p' n e e' : ℕ) → e < n → e' < n → p * n + e ≡ p' * n + e' → p ≡ p'
same_row p p' n e e' h h' eq = elim (dec_lt p p') [
  | yes lt ↦ absurd (omega (arith, slots_apart p p' n e e' h h' lt))
  | no ge ↦ elim (dec_lt p' p) [
    | yes lt ↦ absurd (omega (arith, slots_apart p' p n e' e h' h lt))
    | no le ↦ omega arith
  ]
]

same_slot : (p n e e' : ℕ) → p * n + e ≡ p * n + e' → e ≡ e'
same_slot p n e e' h = omega arith

-- Equal positions in the bank mean equal layers and experts.
full_index_injective :
    (l : ExpertLayout) (layer expert layer' expert' i : ℕ)
    → full_index l layer expert ≡ ok i
    → full_index l layer' expert' ≡ ok i
    → (layer ≡ layer') × (expert ≡ expert')
full_index_injective l layer expert layer' expert' i h h' =
    let (p, found, within, e) = full_index_lem l layer expert i h in
    let (p', found', within', e') = full_index_lem l layer' expert' i h' in
    let n = l.num_experts in
    let s = index_of_sound layer l.layers p found in
    let s' = index_of_sound layer' l.layers p' found' in
    let same : p ≡ p' = same_row p p' n expert expert' within within' (sym e ∙ e') in
    (
      some_inj (sym s.0 ∙ ap (get_elem? l.layers) same ∙ s'.0),
      same_slot p' n expert expert' (rw same at (sym e ∙ e')),
    )

records_apart :
    (stride payload i j : ℕ)
    → payload ≤ stride
    → i ≢ j
    → (i * stride + payload ≤ j * stride) ⊎ (j * stride + payload ≤ i * stride)
records_apart stride payload i j h other = elim (dec_lt i j) [
  | yes before ↦ inl (whole_before stride payload i j h before)
  | no after ↦ inr (whole_before stride payload j i h (omega arith))
]

module _ (l : ExpertLayout) (full : l.records ≡ []) where
  record_index_full : (layer expert : ℕ) → record_index l layer expert ≡ full_index l layer expert
  unfolding record_index
  record_index_full layer expert = rw (full, record_index)

  num_records_full : num_records l ≡ length l.layers * l.num_experts
  unfolding num_records
  num_records_full = rw (full, num_records)

  byte_range_lem :
      (layer expert offset size : ℕ)
      → byte_range l layer expert ≡ ok (offset, size)
      → (i : ℕ) × (full_index l layer expert ≡ ok i)
        × (offset ≡ i * l.geometry.stride)
        × (size ≡ l.geometry.payload_bytes)
  unfolding byte_range
  byte_range_lem layer expert offset size h =
      let (i, e, f) = >>=-eq-ok (record_index l layer expert) _ h in
      (i, sym (record_index_full layer expert) ∙ e, ground arith, ground arith)

  -- In a full package no two experts share a byte: the ranges that `byte_range` returns for two
  -- different (layer, expert) pairs do not overlap, whenever the record pitch holds the payload.
  pub byte_range_apart :
      (layer expert layer' expert' offset size offset' size' : ℕ)
      → l.geometry.payload_bytes ≤ l.geometry.stride
      → byte_range l layer expert ≡ ok (offset, size)
      → byte_range l layer' expert' ≡ ok (offset', size')
      → (layer ≢ layer') ⊎ (expert ≢ expert')
      → (offset + size ≤ offset') ⊎ (offset' + size' ≤ offset)
  byte_range_apart layer expert layer' expert' offset size offset' size' fits h h' other =
      let (i, e, o, s) = byte_range_lem layer expert offset size h in
      let (i', e', o', s') = byte_range_lem layer' expert' offset' size' h' in
      let distinct : i ≢ i' = λ same.
        different other (full_index_injective l layer expert layer' expert' i' (rw same at e) e') in
      rw (o, o', s, s')
        (records_apart l.geometry.stride l.geometry.payload_bytes i i' fits distinct)
    where
      different : (layer ≢ layer') ⊎ (expert ≢ expert') → (layer ≡ layer') × (expert ≡ expert') → ⊥
      different (inl d) same = d same.0
      different (inr d) same = d same.1

  -- Every range that a full package returns ends within the bank's total size.
  pub byte_range_within :
      (layer expert offset size : ℕ)
      → l.geometry.payload_bytes ≤ l.geometry.stride
      → byte_range l layer expert ≡ ok (offset, size)
      → offset + size ≤ total_bytes l
  unfolding total_bytes
  byte_range_within layer expert offset size fits h =
      let (i, e, o, s) = byte_range_lem layer expert offset size h in
      let (p, found, within, at) = full_index_lem l layer expert i e in
      let b = index_of_sound layer l.layers p found in
      rw (o, s, num_records_full)
        (whole_before l.geometry.stride l.geometry.payload_bytes i (length l.layers * l.num_experts)
          fits (rw at (slot_below p (length l.layers) l.num_experts expert within b.1)))

  -- A full package answers for exactly its layers and experts: `byte_range` raises KeyError when
  -- the layer is not listed or the expert is out of range, and returns a range otherwise.
  pub byte_range_answers :
      (layer expert : ℕ)
      → byte_range l layer expert ≡ elim (index_of layer l.layers) [
        | none ↦ err key_error
        | some p ↦
            if ltb expert l.num_experts
            then ok ((p * l.num_experts + expert) * l.geometry.stride, l.geometry.payload_bytes)
            else err key_error
      ]
  unfolding byte_range full_index
  byte_range_answers layer expert = ground (arith, record_index_full layer expert)
