-- ===== src/Package/Decode/RoundTrip.antt =====
-- What the writer serializes, `decode_record` reads back.
use mathlib.Core.List.{append_assoc, append-nil}
use native.Mathlib.Nat.{mul-mod_left}
use pocket_titan.Prelude.{
  ℕ, ◌+◌, ◌%◌, ◌<◌, ◌≡◌, refl, ap, sym, ◌∙◌, subst, Bool, true, false, inl, inr, Bool-cases, Option,
  none, some, List, [], ◌∷◌, ◌++◌, leb, ◌==◌, if◌then◌else◌, length, All, Result, ok, err,
  zero_division, ok-injective, arith,
}
use pocket_titan.Format.Spans.{
  packed, scales, zeros, SectionSpan, matrix_dims, section_spans, group_spans,
}
use pocket_titan.Format.Groups.{resolve_group_size}
use pocket_titan.Package.Encode.{Quantized, sections_from, sections_to_bytes}
use pocket_titan.Quantizers.Dequantize.{Arithmetic}
use pocket_titan.Package.Decode.{decode_quantized, decode_record, dequantize_bytes}
use pocket_titan.Package.Decode.Sections.{
  serialized, two_spans, three_spans, decode_two, decode_three,
}

abbrev or_empty : Option (List ℕ) → List ℕ
or_empty none = []
or_empty (some raw) = raw

-- The last section ends the payload.
ends : (result : Quantized) (rest : List ℕ) → sections_from result [] ≡ ok rest → rest ≡ []
unfolding sections_from
ends result rest e = sym (ok-injective e)

-- What the values of a written result are: zero points only where the record has them.
abbrev pub written_values :
    {Half Value : Type 0}
    → Arithmetic Half Value
    → (Half → Value)
    → List ℕ
    → ℕ
    → ℕ
    → Quantized
    → Bool
    → Result (List Value)
written_values arithmetic widen shape bits group_size result symmetric =
    dequantize_bytes arithmetic widen (or_empty result.packed_weights) result.scale_bytes
      (if symmetric then none else result.zero_bytes) (matrix_dims shape).0 (matrix_dims shape).1
      bits group_size

module _ {Half Value : Type 0} (arithmetic : Arithmetic Half Value) (widen : Half → Value)
    (before after : List ℕ) (shape : List ℕ) (bits group_size : ℕ) (result : Quantized) where
  abbrev Reads : Bool → List SectionSpan → Type 0
  Reads symmetric spans =
      (payload : List ℕ)
      → All (λ s. 0 < s.length) spans
      → sections_from result spans ≡ ok payload
      → decode_quantized arithmetic widen (before ++ (payload ++ after)) shape bits group_size
          symmetric spans (length before)
        ≡ written_values arithmetic widen shape bits group_size result symmetric

  two-Reads : (c l : ℕ) → l % 2 ≡ 0 → Reads true (two_spans c l)
  two-Reads c l even payload (pc, (pl, _)) e =
      let sp : SectionSpan = record { section = packed; offset = 0; length = c } in
      let ss : SectionSpan = record { section = scales; offset = c; length = l } in
      let (w, rest, found_w, len_w, e1, split) = serialized result sp (ss ∷ []) payload e in
      let (s, rest', found_s, len_s, e2, split') = serialized result ss [] rest e1 in
      let laid : before ++ (payload ++ after) ≡ before ++ (w ++ (s ++ after)) =
        ap (λ p. before ++ (p ++ after))
          (split
            ∙ ap (λ r. w ++ r) (split' ∙ ap (λ r. s ++ r) (ends result rest' e2) ∙ append-nil s))
        ∙ ap (λ r. before ++ r) (append_assoc w s after) in
      ap
        (λ p.
          decode_quantized arithmetic widen p shape bits group_size true (two_spans c l)
            (length before))
        laid
      ∙ ap
          (λ n.
            decode_quantized arithmetic widen (before ++ (w ++ (s ++ after))) shape bits group_size
              true (two_spans n l) (length before))
          (sym len_w)
      ∙ ap
          (λ n.
            decode_quantized arithmetic widen (before ++ (w ++ (s ++ after))) shape bits group_size
              true (two_spans (length w) n) (length before))
          (sym len_s)
      ∙ decode_two arithmetic widen before w s after shape bits group_size (omega arith)
          (omega arith) (ap (λ n. n % 2) len_s ∙ even)
      ∙ sym (rw (found_w, found_s) refl)

  three-Reads : (c l z : ℕ) → l % 2 ≡ 0 → z % 2 ≡ 0 → Reads false (three_spans c l z)
  three-Reads c l m even even' payload (pc, (pl, (pm, _))) e =
      let sp : SectionSpan = record { section = packed; offset = 0; length = c } in
      let ss : SectionSpan = record { section = scales; offset = c; length = l } in
      let sz : SectionSpan = record { section = zeros; offset = c + l; length = m } in
      let (w, rest, found_w, len_w, e1, split) = serialized result sp (ss ∷ sz ∷ []) payload e in
      let (s, rest', found_s, len_s, e2, split') = serialized result ss (sz ∷ []) rest e1 in
      let (z, rest'', found_z, len_z, e3, split'') = serialized result sz [] rest' e2 in
      let whole : payload ≡ w ++ (s ++ z) =
        split
        ∙ ap (λ r. w ++ r)
            (split'
              ∙ ap (λ r. s ++ r)
                  (split'' ∙ ap (λ r. z ++ r) (ends result rest'' e3) ∙ append-nil z)) in
      let laid : before ++ (payload ++ after) ≡ before ++ (w ++ (s ++ (z ++ after))) =
        ap (λ p. before ++ (p ++ after)) whole
        ∙ ap (λ r. before ++ r)
            (append_assoc w (s ++ z) after ∙ ap (λ r. w ++ r) (append_assoc s z after)) in
      let read = λ (a b d : ℕ).
        decode_quantized arithmetic widen (before ++ (w ++ (s ++ (z ++ after)))) shape bits
          group_size false (three_spans a b d) (length before) in
      ap
        (λ p.
          decode_quantized arithmetic widen p shape bits group_size false (three_spans c l m)
            (length before))
        laid
      ∙ ap (λ n. read n l m) (sym len_w)
      ∙ ap (λ n. read (length w) n m) (sym len_s)
      ∙ ap (λ n. read (length w) (length s) n) (sym len_z)
      ∙ decode_three arithmetic widen before w s z after shape bits group_size false (omega arith)
          (omega arith, ap (λ n. n % 2) len_s ∙ even) (omega arith, ap (λ n. n % 2) len_z ∙ even')
      ∙ sym (rw (found_w, found_s, found_z) refl)

  grouped-Reads :
      (rows in_features g : ℕ) (symmetric : Bool)
      → Reads symmetric (group_spans rows in_features bits g symmetric 2 2)
  unfolding group_spans
  grouped-Reads rows in_features g true = two-Reads _ _ (mul-mod_left _ 2)
  grouped-Reads rows in_features g false = three-Reads _ _ _ (mul-mod_left _ 2) (mul-mod_left _ 2)

-- A quantized tensor that the writer serialized into the spans planned for its shape, wherever the
-- record stands in the region, decodes to the values of exactly the codes, the scales and, unless it is
-- symmetric, the zero points that the quantizer produced.
pub decode_record-sections_to_bytes :
    {Half Value : Type 0} (arithmetic : Arithmetic Half Value) (widen : Half → Value)
    (before after shape : List ℕ) (bits requested group_size : ℕ) (symmetric : Bool)
    (result : Quantized) (spans : List SectionSpan) (payload : List ℕ)
    → bits < 16
    → section_spans shape bits requested symmetric 2 2 ≡ ok spans
    → All (λ s. 0 < s.length) spans
    → sections_to_bytes (some result) spans ≡ ok payload
    → decode_record arithmetic widen
        (before ++ (payload ++ after))
        shape
        bits
        group_size
        symmetric
        spans
        (length before)
      ≡ written_values arithmetic widen shape bits group_size result symmetric
unfolding decode_record section_spans sections_to_bytes
decode_record-sections_to_bytes arithmetic widen before after shape bits requested group_size
      symmetric result spans payload narrow planned positive written =
    let small : leb 16 bits ≡ false = ground arith in
    rw small (
      by_group (resolve_group_size (matrix_dims shape).1 requested) (rw small at planned) payload
        positive written)
  where
    by_group :
        (g : ℕ)
        → (if g == 0
            then err zero_division
            else ok (group_spans (matrix_dims shape).0 (matrix_dims shape).1 bits g symmetric 2 2))
          ≡ ok spans
        → Reads arithmetic widen before after shape bits group_size result symmetric spans
    by_group g e = elim (Bool-cases (g == 0)) [
      | inl none_fits ↦ cc (rw none_fits at e)
      | inr fits ↦
          subst (Reads arithmetic widen before after shape bits group_size result symmetric)
            (ok-injective (rw fits at e))
            (grouped-Reads arithmetic widen before after shape bits group_size result
              (matrix_dims shape).0 (matrix_dims shape).1 g symmetric)
    ]
