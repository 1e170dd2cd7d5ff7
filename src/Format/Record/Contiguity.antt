-- ===== src/Format/Record/Contiguity.antt =====
-- The expert record: projections and their sections lie end to end, and the record pitch holds them.
use Prim.Native.String.{String}
use text.Mathlib.Text.{◌==◌ as str_eq}
use pocket_titan.Prelude.{
  some_inj, ℕ, ◌+◌, ◌%◌, ◌≤◌, ◌<◌, ◌≡◌, refl, some, List, [], ◌∷◌, arith, ok, >>=-eq-ok,
  ok-injective, subst, Bool-cases, inl, inr,
}
use pocket_titan.Format.Align.{align_up_bounds}
use pocket_titan.Format.Spans.{Section, SectionSpan, end, total_length}
use pocket_titan.Format.Spans.Tiling.{TilesFrom, section_spans-TilesFrom}
use pocket_titan.Format.Record.{
  ProjectionSpec, ProjectionLayout, projection_length, ExpertRecordLayout, lay_out, lay_out_all,
  build, find_span, find_projection, record_offset, section_offset,
}

-- Each projection starts where the one before it ends, its spans tile it, and the last ends at `stop`.
abbrev pub PlacedFrom : ℕ → List ProjectionLayout → ℕ → Type 0
PlacedFrom start [] stop = start ≡ stop
PlacedFrom start (p ∷ ps) stop =
    (p.offset ≡ start) × TilesFrom 0 p.spans × PlacedFrom (start + projection_length p) ps stop

lay_out_lem :
    (spec : ProjectionSpec) (scale_bytes zero_bytes cursor : ℕ) (p : ProjectionLayout)
    → lay_out spec scale_bytes zero_bytes cursor ≡ ok p
    → (p.offset ≡ cursor) × TilesFrom 0 p.spans
unfolding lay_out
lay_out_lem spec scale_bytes zero_bytes cursor p h =
    let (spans, e, f) = >>=-eq-ok _ _ h in
    subst (λ (q : ProjectionLayout). (q.offset ≡ cursor) × TilesFrom 0 q.spans) (ok-injective f)
      (refl, section_spans-TilesFrom _ _ _ _ _ _ spans e)

lay_out_all-PlacedFrom :
    (specs : List ProjectionSpec) (scale_bytes zero_bytes cursor : ℕ) (ps : List ProjectionLayout)
    (stop : ℕ)
    → lay_out_all specs scale_bytes zero_bytes cursor ≡ ok (ps, stop)
    → PlacedFrom cursor ps stop
unfolding lay_out_all
lay_out_all-PlacedFrom [] scale_bytes zero_bytes cursor ps stop h =
    subst (λ (r : List ProjectionLayout × ℕ). PlacedFrom cursor r.0 r.1) (ok-injective h) refl
lay_out_all-PlacedFrom (spec ∷ specs) scale_bytes zero_bytes cursor ps stop h =
    let (p, e, f) = >>=-eq-ok (lay_out spec scale_bytes zero_bytes cursor) _ h in
    let (rest, e', f') =
      >>=-eq-ok (lay_out_all specs scale_bytes zero_bytes (cursor + projection_length p)) _ f in
    let first = lay_out_lem spec scale_bytes zero_bytes cursor p e in
    subst (λ (r : List ProjectionLayout × ℕ). PlacedFrom cursor r.0 r.1) {x = (p ∷ rest.0, rest.1)}
      (ok-injective f')
      (
        first.0,
        first.1,
        lay_out_all-PlacedFrom specs scale_bytes zero_bytes (cursor + projection_length p) rest.0
            rest.1 e',
      )

-- In a record layout that `build` returns, the projections lie end to end from offset 0 to the
-- payload size, each tiled by its own sections, and the pitch is the least multiple of the
-- alignment that holds the payload.
pub build-PlacedFrom :
    (specs : List ProjectionSpec) (alignment scale_bytes zero_bytes : ℕ) (r : ExpertRecordLayout)
    → 0 < alignment
    → build specs alignment scale_bytes zero_bytes ≡ ok r
    → PlacedFrom 0 r.projections r.payload_bytes
      × (r.payload_bytes ≤ r.stride)
      × (r.stride < r.payload_bytes + alignment)
      × (r.stride % alignment ≡ 0)
unfolding build
build-PlacedFrom specs alignment scale_bytes zero_bytes r pos h =
    let (laid, e, f) = >>=-eq-ok _ _ h in
    let b = align_up_bounds laid.1 alignment pos in
    subst
      (λ (r : ExpertRecordLayout).
        PlacedFrom 0 r.projections r.payload_bytes
        × (r.payload_bytes ≤ r.stride)
        × (r.stride < r.payload_bytes + alignment)
        × (r.stride % alignment ≡ 0))
      (ok-injective f)
      (lay_out_all-PlacedFrom specs scale_bytes zero_bytes 0 laid.0 laid.1 e, b.0, b.1, b.2)

TilesFrom-find_span :
    (start : ℕ) (spans : List SectionSpan) (section : Section) (s : SectionSpan)
    → TilesFrom start spans
    → find_span spans section ≡ some s
    → (start ≤ s.offset) × (s.offset + s.length ≤ start + total_length spans)
unfolding find_span
TilesFrom-find_span start [] section s t h = cc
TilesFrom-find_span start (x ∷ spans) section s t h =
    ground (arith, TilesFrom-find_span (end x) spans section s t.1)

PlacedFrom-le :
    (start : ℕ) (ps : List ProjectionLayout) (stop : ℕ) → PlacedFrom start ps stop → start ≤ stop
PlacedFrom-le start [] stop h = omega arith
PlacedFrom-le start (p ∷ ps) stop h =
    omega (arith, PlacedFrom-le (start + projection_length p) ps stop h.2)

PlacedFrom-find_projection :
    (start : ℕ) (ps : List ProjectionLayout) (stop : ℕ) (name : String) (p : ProjectionLayout)
    → PlacedFrom start ps stop
    → find_projection ps name ≡ some p
    → (start ≤ p.offset) × (p.offset + projection_length p ≤ stop) × TilesFrom 0 p.spans
unfolding find_projection
PlacedFrom-find_projection start [] stop name p t h = cc
PlacedFrom-find_projection start (q ∷ ps) stop name p t h = elim (Bool-cases (str_eq q.name name)) [
  | inl same ↦
      subst
        (λ (p : ProjectionLayout).
          (start ≤ p.offset) × (p.offset + projection_length p ≤ stop) × TilesFrom 0 p.spans)
        (some_inj (rw same at h))
        (omega arith, omega (arith, PlacedFrom-le (start + projection_length q) ps stop t.2), t.1)
  | inr other ↦
      let later =
        PlacedFrom-find_projection (start + projection_length q) ps stop name p t.2
          (rw other at h) in
      (omega arith, later.1, later.2)
]

-- Every section that a built record has is addressed inside its own record: the bytes from the
-- offset that `section_offset` returns stay in the record's payload, before the next record.
pub section_offset_within :
    (specs : List ProjectionSpec) (alignment scale_bytes zero_bytes : ℕ) (r : ExpertRecordLayout)
    (i : ℕ) (name : String) (section : Section) (p : ProjectionLayout) (s : SectionSpan)
    → 0 < alignment
    → build specs alignment scale_bytes zero_bytes ≡ ok r
    → find_projection r.projections name ≡ some p
    → find_span p.spans section ≡ some s
    → (o : ℕ) × (section_offset r i name section ≡ ok o)
      × (record_offset r i ≤ o)
      × (o + s.length ≤ record_offset r i + r.payload_bytes)
      × (o + s.length ≤ record_offset r (i + 1))
unfolding section_offset
section_offset_within specs alignment scale_bytes zero_bytes r i name section p s pos built found
      spanned =
    let b = build-PlacedFrom specs alignment scale_bytes zero_bytes r pos built in
    let q = PlacedFrom-find_projection 0 r.projections r.payload_bytes name p b.0 found in
    let t = TilesFrom-find_span 0 p.spans section s q.2 spanned in
    (
      record_offset r i + p.offset + s.offset,
      rw (found, spanned),
      omega arith,
      omega arith,
      omega arith,
    )
