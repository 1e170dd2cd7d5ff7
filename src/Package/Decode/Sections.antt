-- ===== src/Package/Decode/Sections.antt =====
-- Reading the sections of a record at any place of a region.
use mathlib.Core.List.{append_assoc}
use pocket_titan.Prelude.{
  ℕ, ◌+◌, ◌%◌, ◌<◌, ◌≡◌, refl, ap, sym, Bool, true, false, ◌||◌, Option, none, some, List, [], ◌∷◌,
  ◌++◌, ◌==◌, length, length-append, take-append_self, drop-append_self, ok, value_error,
  runtime_error, ok-injective, guard-eq-ok, >>=-eq-ok, or_raise, guard, ◌>>◌, arith, ==_refl,
}
use pocket_titan.Format.Spans.{packed, scales, zeros, SectionSpan, matrix_dims}
use pocket_titan.Package.Encode.{Quantized, section_tensor, sections_from}
use pocket_titan.Quantizers.Dequantize.{Arithmetic}
use pocket_titan.Package.Decode.{
  by_section, read_exact, from_buffer, read_section, decode_quantized, dequantize_bytes,
}

pub read_exact-append :
    (before raw after : List ℕ) (start count : ℕ)
    → start ≡ length before
    → count ≡ length raw
    → read_exact (before ++ (raw ++ after)) start count ≡ ok raw
unfolding read_exact
read_exact-append before raw after start count p q =
    rw
      (
        p,
        q,
        drop-append_self before (raw ++ after),
        take-append_self raw after,
        ==_refl (length raw),
      )
      refl

pub from_buffer-some :
    (element_bytes : ℕ) (raw : List ℕ)
    → 0 < length raw
    → length raw % element_bytes ≡ 0
    → from_buffer element_bytes raw ≡ ok raw
unfolding from_buffer
from_buffer-some element_bytes raw p q = ground arith

pub read_section-append :
    (before raw after : List ℕ) (start count element_bytes : ℕ)
    → start ≡ length before
    → count ≡ length raw
    → 0 < length raw
    → length raw % element_bytes ≡ 0
    → read_section (before ++ (raw ++ after)) (some (start, count)) element_bytes ≡ ok (some raw)
unfolding read_section
read_section-append before raw after start count element_bytes p q some_bytes whole =
    rw
      (
        read_exact-append before raw after start count p q,
        from_buffer-some element_bytes raw some_bytes whole,
      )
      refl

-- A section that was serialized: its bytes, and what is behind them.
pub serialized :
    (result : Quantized) (span : SectionSpan) (spans : List SectionSpan) (payload : List ℕ)
    → sections_from result (span ∷ spans) ≡ ok payload
    → (raw : List ℕ) × (rest : List ℕ) × (section_tensor result span.section ≡ some raw)
      × (length raw ≡ span.length)
      × (sections_from result spans ≡ ok rest)
      × (payload ≡ raw ++ rest)
unfolding sections_from
serialized result span spans payload e =
    let (raw, found, e1) =
      >>=-eq-ok (or_raise (section_tensor result span.section) runtime_error) _ e in
    let (same, e2) = guard-eq-ok (length raw == span.length) runtime_error _ e1 in
    let (rest, r, e3) = >>=-eq-ok (sections_from result spans) _ e2 in
    let sized : length raw ≡ span.length = ground arith in
    (
      raw,
      rest,
      was_some (section_tensor result span.section) found,
      sized,
      r,
      sym (ok-injective e3),
    )
  where
    was_some :
        {raw : List ℕ} (o : Option (List ℕ)) → or_raise o runtime_error ≡ ok raw → o ≡ some raw
    was_some none h = cc
    was_some (some x) h = ap some (ok-injective h)

-- The spans of a quantized record without and with zero points, by the lengths of their sections.
abbrev pub two_spans : ℕ → ℕ → List SectionSpan
two_spans codes scale_length =
    record { section = packed; offset = 0; length = codes }
    ∷ record { section = scales; offset = codes; length = scale_length }
    ∷ []

abbrev pub three_spans : ℕ → ℕ → ℕ → List SectionSpan
three_spans codes scale_length zero_length =
    record { section = packed; offset = 0; length = codes }
    ∷ record { section = scales; offset = codes; length = scale_length }
    ∷ record { section = zeros; offset = codes + scale_length; length = zero_length }
    ∷ []

module _ {Half Value : Type 0} (arithmetic : Arithmetic Half Value) (widen : Half → Value) where
  pub decode_two :
      (before w s after : List ℕ) (shape : List ℕ) (bits group_size : ℕ)
      → 0 < length w
      → 0 < length s
      → length s % 2 ≡ 0
      → decode_quantized arithmetic widen
          (before ++ (w ++ (s ++ after)))
          shape
          bits
          group_size
          true
          (two_spans (length w) (length s))
          (length before)
        ≡ dequantize_bytes arithmetic widen w
            (some s)
            none
            (matrix_dims shape).0
            (matrix_dims shape).1
            bits
            group_size
  unfolding decode_quantized by_section read_section
  decode_two before w s after shape bits group_size pw ps es =
      let moved : before ++ (w ++ (s ++ after)) ≡ (before ++ w) ++ (s ++ after) =
        sym (append_assoc before w (s ++ after)) in
      rw
        (
          read_exact-append before w (s ++ after) (length before + 0) (length w) (omega arith) refl,
          from_buffer-some 1 w pw (omega arith),
          moved,
          read_section-append (before ++ w) s after (length before + length w) (length s) 2
              (sym (length-append before w)) refl ps es,
        )
        refl

  pub decode_three :
      (before w s z after : List ℕ) (shape : List ℕ) (bits group_size : ℕ) (symmetric : Bool)
      → 0 < length w
      → (0 < length s) × (length s % 2 ≡ 0)
      → (0 < length z) × (length z % 2 ≡ 0)
      → decode_quantized arithmetic widen
          (before ++ (w ++ (s ++ (z ++ after))))
          shape
          bits
          group_size
          symmetric
          (three_spans (length w) (length s) (length z))
          (length before)
        ≡ dequantize_bytes arithmetic widen w
            (some s)
            (some z)
            (matrix_dims shape).0
            (matrix_dims shape).1
            bits
            group_size
  unfolding decode_quantized by_section read_section
  decode_three before w s z after shape bits group_size symmetric pw (ps, es) (pz, ez) =
      let moved : before ++ (w ++ (s ++ (z ++ after))) ≡ (before ++ w) ++ (s ++ (z ++ after)) =
        sym (append_assoc before w (s ++ (z ++ after))) in
      let again : (before ++ w) ++ (s ++ (z ++ after)) ≡ ((before ++ w) ++ s) ++ (z ++ after) =
        sym (append_assoc (before ++ w) s (z ++ after)) in
      let at_zeros : length before + (length w + length s) ≡ length ((before ++ w) ++ s) =
        omega (arith, length-append (before ++ w) s, length-append before w) in
      rw
        (
          read_exact-append before w (s ++ (z ++ after)) (length before + 0) (length w)
              (omega arith) refl,
          from_buffer-some 1 w pw (omega arith),
          moved,
          read_section-append (before ++ w) s (z ++ after) (length before + length w) (length s) 2
              (sym (length-append before w)) refl ps es,
          again,
          read_section-append ((before ++ w) ++ s) z after (length before + (length w + length s))
              (length z) 2 at_zeros refl pz ez,
        )
        (present symmetric)
    where
      present :
          (symmetric : Bool)
          → (guard (symmetric || true) value_error
              >> dequantize_bytes arithmetic widen w
                  (some s)
                  (some z)
                  (matrix_dims shape).0
                  (matrix_dims shape).1
                  bits
                  group_size)
            ≡ dequantize_bytes arithmetic widen w
                (some s)
                (some z)
                (matrix_dims shape).0
                (matrix_dims shape).1
                bits
                group_size
      present true = refl
      present false = refl
