-- ===== src/Package/Validator/Sorting.antt =====
-- Sorting keeps what holds of all spans, and of all pairs of them.
use pocket_titan.Prelude.{Bool-cases, inl, inr, List, [], ◌∷◌, All}
use pocket_titan.Package.Validator.{Span, span_le, insert_span, sort_spans}
use pocket_titan.Package.Writer.Disk.{Pairwise}

insert_span-All :
    (P : Span → Type 0) (s : Span) (l : List Span) → All P (insert_span s l) → P s × All P l
unfolding insert_span
insert_span-All P s [] h = (h.0, tt)
insert_span-All P s (t ∷ l) h = elim (Bool-cases (span_le s t)) [
  | inl before ↦ rw before at h
  | inr behind ↦
      let moved : P t × All P (insert_span s l) = rw behind at h in
      let (here, rest) = insert_span-All P s l moved.1 in (here, (moved.0, rest))
]

pub sort_spans-All : (P : Span → Type 0) (l : List Span) → All P (sort_spans l) → All P l
unfolding sort_spans
sort_spans-All P [] h = tt
sort_spans-All P (s ∷ l) h =
    let (here, rest) = insert_span-All P s (sort_spans l) h in (here, sort_spans-All P l rest)

module _ (R : Span → Span → Type 0) (symmetric : (s t : Span) → R s t → R t s) where
  insert_span-Pairwise :
      (s : Span) (l : List Span) → Pairwise R (insert_span s l) → All (R s) l × Pairwise R l
  unfolding insert_span
  insert_span-Pairwise s [] h = (tt, tt)
  insert_span-Pairwise s (t ∷ l) h = elim (Bool-cases (span_le s t)) [
    | inl before ↦ rw before at h
    | inr behind ↦
        let moved : All (R t) (insert_span s l) × Pairwise R (insert_span s l) = rw behind at h in
        let (here, rest) = insert_span-All (R t) s l moved.0 in
        let (apart, pairs) = insert_span-Pairwise s l moved.1 in
        ((symmetric t s here, apart), (rest, pairs))
  ]

  pub sort_spans-Pairwise : (l : List Span) → Pairwise R (sort_spans l) → Pairwise R l
  unfolding sort_spans
  sort_spans-Pairwise [] h = tt
  sort_spans-Pairwise (s ∷ l) h =
      let (apart, pairs) = insert_span-Pairwise s (sort_spans l) h in
      (sort_spans-All (R s) l apart, sort_spans-Pairwise l pairs)
