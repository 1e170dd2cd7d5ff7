-- ===== src/Format/Spans/Tiling.antt =====
-- The spans of a matrix: they tile the record from its start, and hold no padding.
use pocket_titan.Prelude.{
  ℕ, subst, inl, inr, Bool-cases, ok-injective, ◌*◌, ◌/◌, ◌≡◌, Bool, true, false, List, [], ◌∷◌,
  arith, leb, ◌==◌, if◌then◌else◌, ok, err, zero_division,
}
use pocket_titan.Format.Align.{packed_bytes}
use pocket_titan.Format.Groups.{resolve_group_size}
use pocket_titan.Format.Spans.{
  Section, packed, scales, zeros, SectionSpan, group_spans, end, matrix_dims, section_spans,
}

-- Each span starts where the one before it ends, the first at `start`.
abbrev pub TilesFrom : ℕ → List SectionSpan → Type 0
TilesFrom start [] = Unit
TilesFrom start (s ∷ spans) = (s.offset ≡ start) × TilesFrom (end s) spans

group_spans-TilesFrom :
    (rows in_features bits g : ℕ) (symmetric : Bool) (scale_bytes zero_bytes : ℕ)
    → TilesFrom 0 (group_spans rows in_features bits g symmetric scale_bytes zero_bytes)
unfolding group_spans
group_spans-TilesFrom rows in_features bits g true scale_bytes zero_bytes = omega arith
group_spans-TilesFrom rows in_features bits g false scale_bytes zero_bytes = omega arith

-- The sections of a matrix of `rows` times `n` elements, with their bytes: `n` elements of a row make
-- whole groups of the resolved size.
abbrev pub exact_lengths : ℕ → ℕ → ℕ → ℕ → Bool → ℕ → ℕ → List (Section × ℕ)
exact_lengths rows n bits group_size symmetric scale_bytes zero_bytes =
    let groups = rows * (n / resolve_group_size n group_size) in
    (packed, packed_bytes (rows * n) bits)
    ∷ (scales, groups * scale_bytes)
    ∷ (if symmetric then [] else (zeros, groups * zero_bytes) ∷ [])

-- The spans tile the record without gap or overlap: the first starts at 0 and each next one where
-- the one before it ends, at every width and grouping for which the code returns spans.
pub section_spans-TilesFrom :
    (shape : List ℕ) (bits group_size : ℕ) (symmetric : Bool) (scale_bytes zero_bytes : ℕ)
    (spans : List SectionSpan)
    → section_spans shape bits group_size symmetric scale_bytes zero_bytes ≡ ok spans
    → TilesFrom 0 spans
unfolding section_spans
section_spans-TilesFrom shape bits group_size symmetric scale_bytes zero_bytes spans h =
    elim (Bool-cases (leb 16 bits)) [
      | inl wide ↦ subst (TilesFrom 0) (ok-injective (rw wide at h)) (omega arith)
      | inr narrow ↦ subst (TilesFrom 0) (quantized g (rw narrow at h)) (
          group_spans-TilesFrom (matrix_dims shape).0 (matrix_dims shape).1 bits g symmetric
            scale_bytes zero_bytes)
    ]
  where
    g : ℕ
    g = resolve_group_size (matrix_dims shape).1 group_size

    quantized :
        (g : ℕ) {xs : List SectionSpan}
        → (if g == 0 then err zero_division else ok xs) ≡ ok spans
        → xs ≡ spans
    quantized g e = ground arith
