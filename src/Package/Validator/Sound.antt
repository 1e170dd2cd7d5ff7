-- ===== src/Package/Validator/Sound.antt =====
-- What the validator's layout check means.
use pocket_titan.Prelude.{
  ◌≡◌, refl, Bool, true, false, inl, inr, ◌⊎◌, ◌||◌, if◌then◌else◌, List, [], ◌∷◌, ◌++◌, All, arith,
}
use pocket_titan.Prelude.Int.{ℤ, pos, ◌≤ℤ◌, ltb_ℤ, max_ℤ}
use pocket_titan.Package.Validator.{
  Span, LayoutError, outside, overlaps, sort_spans, span_errors, check_sorted,
  check_non_overlapping,
}
use pocket_titan.Package.Validator.Sorting.{sort_spans-All, sort_spans-Pairwise}
use pocket_titan.Package.Writer.Disk.{Pairwise}

abbrev pub Within : ℤ → Span → Type 0
Within limit s = (pos 0 ≤ℤ s.start) × (s.start ≤ℤ s.end) × (s.end ≤ℤ limit)

abbrev pub Apart : Span → Span → Type 0
Apart s t = (s.end ≤ℤ t.start) ⊎ (t.end ≤ℤ s.start)

Apart-sym : (s t : Span) → Apart s t → Apart t s
Apart-sym s t (inl h) = inr h
Apart-sym s t (inr h) = inl h

append-eq-nil : {A : Type 0} (xs ys : List A) → xs ++ ys ≡ [] → (xs ≡ []) × (ys ≡ [])
append-eq-nil [] ys e = (refl, e)
append-eq-nil (x ∷ xs) ys e = cc

flag_clear : (b : Bool) (x : LayoutError) → (if b then x ∷ [] else []) ≡ [] → b ≡ false
flag_clear true x e = cc
flag_clear false x e = refl

All-start :
    (a b : ℤ) (l : List Span) → a ≤ℤ b → All (λ s. b ≤ℤ s.start) l → All (λ s. a ≤ℤ s.start) l
All-start a b [] h k = tt
All-start a b (s ∷ l) h k = (omega (arith, k.0), All-start a b l h k.1)

All-Apart :
    (s : Span) (m : ℤ) (l : List Span) → s.end ≤ℤ m → All (λ t. m ≤ℤ t.start) l → All (Apart s) l
All-Apart s m [] h k = tt
All-Apart s m (t ∷ l) h k = (inl (omega (arith, h, k.0)), All-Apart s m l h k.1)

max_ℤ-le : (a b : ℤ) → (a ≤ℤ max_ℤ a b) × (b ≤ℤ max_ℤ a b)
max_ℤ-le a b = ground arith

check_sorted-clear :
    (limit previous_end : ℤ) (l : List Span)
    → check_sorted limit previous_end l ≡ []
    → All (Within limit) l × All (λ s. previous_end ≤ℤ s.start) l × Pairwise Apart l
unfolding check_sorted
check_sorted-clear limit previous_end [] e = (tt, tt, tt)
check_sorted-clear limit previous_end (s ∷ l) e =
    let (here, later) = append-eq-nil (span_errors limit previous_end s) _ e in
    let astray = ltb_ℤ s.start (pos 0) || ltb_ℤ s.end s.start || ltb_ℤ limit s.end in
    let (bounds, order) = append-eq-nil (if astray then outside s.label ∷ [] else []) _ here in
    let in_bounds = flag_clear astray (outside s.label) bounds in
    let in_order = flag_clear (ltb_ℤ s.start previous_end) (overlaps s.label) order in
    let next = max_ℤ previous_end s.end in
    let (grown, behind) = max_ℤ-le previous_end s.end in
    let (within, starts, pairs) = check_sorted-clear limit next l later in
    (
      (ground (arith, in_bounds), within),
      (ground (arith, in_order), All-start previous_end next l grown starts),
      (All-Apart s next l behind starts, pairs),
    )

-- Spans that the validator passes start at 0 or later, end no earlier than they start and no later
-- than the limit, and no two of them overlap, in whatever order they were listed and whatever integers
-- they hold.
pub check_non_overlapping_sound :
    (spans : List Span) (limit : ℤ)
    → check_non_overlapping spans limit ≡ []
    → All (Within limit) spans × Pairwise Apart spans
unfolding check_non_overlapping
check_non_overlapping_sound spans limit e =
    let (within, _, pairs) = check_sorted-clear limit (pos 0) (sort_spans spans) e in
    (sort_spans-All (Within limit) spans within, sort_spans-Pairwise Apart Apart-sym spans pairs)
