-- ===== src/Package/Writer/Filter.antt =====
-- A region writer as a whole: the items that are pending, and that the other regions are left alone.
use pocket_titan.Prelude.{
  ℕ, ◌+◌, ◌<◌, ◌≡◌, refl, sym, ap, inl, inr, Bool, true, false, List, [], ◌∷◌, length, All, arith,
  subst, Bool-cases, Result, ok, err, ok-injective, drop, take, take-append-drop, zero, suc, not,
}
use pocket_titan.Package.Encode.{Codec}
use pocket_titan.Package.Journal.{BuildJournal, BuildPlan, WorkItem, is_done, filter_items}
use pocket_titan.Package.Effects.{
  Region, Effect, allocated, wrote, synced, saved, write_effects, region_of, Run, continue_run,
}
use pocket_titan.Package.Writer.{
  item_writes, write_items, write_batch, write_batches, batches, batches_from, pending_items,
  region_run, write_region, RegionResult,
}
use pocket_titan.Package.Writer.Disk.{grow, Disk, same_region, apply_effect, run, Pairwise}
use mathlib.Core.List.{append-nil}
use pocket_titan.Package.Writer.Batch.{
  All-append, All-map, Always, Journaled, Recoverable, Kept-add_change,
}
use pocket_titan.Package.Writer.Commit.{JournalIs, Recoverable-Journaled, write_items-Written}
use pocket_titan.Package.Writer.Apart.{
  All-append_left, All-append_right, Known, Spread, Fresh, All-always,
}
use pocket_titan.Package.Writer.Regions.{Progress, Established, idle, write_batches-Progress}

abbrev pub OnlyAt : Region → Effect → Type 0
OnlyAt region (allocated r size) = r ≡ region
OnlyAt region (wrote r offset payload) = r ≡ region
OnlyAt region (synced r) = r ≡ region
OnlyAt region (saved j) = Unit

only-apply_effect :
    (region r : Region) (e : Effect) (d : Disk)
    → OnlyAt region e
    → same_region region r ≡ false
    → d.unsynced r ≡ []
    → (apply_effect e d).unsynced r ≡ []
only-apply_effect region r (allocated s size) d only other clean = rw (only, other) clean
only-apply_effect region r (wrote s offset payload) d only other clean = rw (only, other) clean
only-apply_effect region r (synced s) d only other clean = rw (only, other) clean
only-apply_effect region r (saved j) d only other clean = clean

pub only-run :
    (region r : Region) (trace : List Effect) (d : Disk)
    → All (OnlyAt region) trace
    → same_region region r ≡ false
    → d.unsynced r ≡ []
    → (run trace d).unsynced r ≡ []
only-run region r [] d only other clean = clean
only-run region r (e ∷ trace) d only other clean =
    only-run region r trace (apply_effect e d) only.1 other
      (only-apply_effect region r e d only.0 other clean)

only-write_effects :
    (region : Region) (writes : List (ℕ × List ℕ))
    → All (OnlyAt region) (write_effects region writes)
only-write_effects region [] = tt
only-write_effects region (w ∷ writes) = (refl, only-write_effects region writes)

only-continue :
    {A B : Type 0} (region : Region) (trace : List Effect) (outcome : Result A) (next : A → Run B)
    → All (OnlyAt region) trace
    → ((a : A) → All (OnlyAt region) (next a).trace)
    → All (OnlyAt region) (continue_run trace outcome next).trace
only-continue region trace (err e) next first later = first
only-continue region trace (ok a) next first later =
    All-append (OnlyAt region) trace (next a).trace first (later a)

pub All-filter_items :
    {Source : Type 0} (P : WorkItem Source → Type 0) (keep : WorkItem Source → Bool)
    (l : List (WorkItem Source))
    → All P l
    → All P (filter_items keep l)
unfolding filter_items
All-filter_items P keep [] h = tt
All-filter_items P keep (i ∷ l) h = elim (Bool-cases (keep i)) [
  | inl kept ↦ rw kept (h.0, All-filter_items P keep l h.1)
  | inr dropped ↦ rw dropped (All-filter_items P keep l h.1)
]

Pairwise-filter_items :
    {Source : Type 0} (R : WorkItem Source → WorkItem Source → Type 0)
    (keep : WorkItem Source → Bool) (l : List (WorkItem Source))
    → Pairwise R l
    → Pairwise R (filter_items keep l)
unfolding filter_items
Pairwise-filter_items R keep [] h = tt
Pairwise-filter_items R keep (i ∷ l) h = elim (Bool-cases (keep i)) [
  | inl kept ↦ rw kept (All-filter_items (R i) keep l h.0, Pairwise-filter_items R keep l h.1)
  | inr dropped ↦ rw dropped (Pairwise-filter_items R keep l h.1)
]

module _ {Source : Type 0} (j : BuildJournal) where
  pending_fresh : (l : List (WorkItem Source)) → All (λ b. is_done j b ≡ false) (pending_items j l)
  unfolding pending_items filter_items
  pending_fresh [] = tt
  pending_fresh (i ∷ l) = elim (Bool-cases (is_done j i)) [
    | inl done ↦ rw done (pending_fresh l)
    | inr fresh ↦ rw fresh (fresh, pending_fresh l)
  ]

  -- What is done once the pending items are.
  pending_done :
      (j' : BuildJournal) (l : List (WorkItem Source))
      → ((k : WorkItem Source) → is_done j k ≡ true → is_done j' k ≡ true)
      → All (λ b. is_done j' b ≡ true) (pending_items j l)
      → All (λ b. is_done j' b ≡ true) l
  unfolding pending_items filter_items
  pending_done j' [] mono h = tt
  pending_done j' (i ∷ l) mono h = elim (Bool-cases (is_done j i)) [
    | inl done ↦ (mono i done, pending_done j' l mono (rw done at h))
    | inr fresh ↦
        let both : (is_done j' i ≡ true) × All (λ b. is_done j' b ≡ true) (pending_items j l) =
          rw fresh at h in
        (both.0, pending_done j' l mono both.1)
  ]

pub batches_from-All :
    {A : Type 0} (P : A → Type 0) (steps size : ℕ) (l : List A)
    → All P l
    → All (All P) (batches_from steps size l)
unfolding batches_from
batches_from-All P zero size l h = tt
batches_from-All P (suc steps) size [] h = tt
batches_from-All P (suc steps) size (x ∷ l) h =
    let whole = subst (All P) (sym (take-append-drop size (x ∷ l))) h in
    (
      All-append_left P (take size (x ∷ l)) (drop size (x ∷ l)) whole,
      batches_from-All P steps size (drop size (x ∷ l))
          (All-append_right P (take size (x ∷ l)) (drop size (x ∷ l)) whole),
    )

module _ {Source Tensor : Type 0} (codec : Codec Source Tensor) (crc32c : List ℕ → ℕ)
    (plan : BuildPlan Source) (items : List (WorkItem Source)) where
  only-write_batch :
      (region : Region) (batch : List (WorkItem Source)) (j : BuildJournal)
      → All (λ b. region_of b ≡ region) batch
      → All (OnlyAt region) (write_batch codec crc32c plan region batch j).trace
  unfolding write_batch
  only-write_batch region batch j here =
      let w =
        write_items-Written codec crc32c plan items region batch (λ v. Unit) here
          (All-map batch (λ b same p e. All-always (item_writes codec crc32c plan b p) (λ v. tt))
            here) in
      only-continue region (write_items codec crc32c plan batch).trace
        (write_items codec crc32c plan batch).outcome _
        (subst (All (OnlyAt region)) (sym w.trace) (only-write_effects region w.writes))
        (λ committed. (refl, (tt, tt)))

  only-write_batches :
      (region : Region) (l : List (List (WorkItem Source))) (j : BuildJournal) (n : ℕ)
      → All (All (λ b. region_of b ≡ region)) l
      → All (OnlyAt region) (write_batches codec crc32c plan region l j n).trace
  unfolding write_batches
  only-write_batches region [] j n here = tt
  only-write_batches region (batch ∷ l) j n here =
      only-continue region (write_batch codec crc32c plan region batch j).trace
        (write_batch codec crc32c plan region batch j).outcome _
        (only-write_batch region batch j here.0)
        (λ (j', bytes). only-write_batches region l j' (n + bytes) here.1)

  only-region_run :
      (region : Region) (total size : ℕ) (l : List (WorkItem Source)) (j : BuildJournal)
      → All (λ b. region_of b ≡ region) l
      → All (OnlyAt region) (region_run codec crc32c plan region total size l j).trace
  unfolding region_run
  only-region_run region total size [] j here = tt
  only-region_run region total size (b ∷ l) j here = (
    refl,
    only-write_batches region (batches size (b ∷ l)) j 0
        (batches_from-All _ (length (b ∷ l)) size (b ∷ l) here),
  )

  -- The region writer from its pending items on, after the file was grown.
  region_run-Progress :
      (region : Region) (total size : ℕ) (l : List (WorkItem Source)) (j : BuildJournal) (d : Disk)
      → 0 < size
      → d.unsynced region ≡ []
      → Known codec crc32c plan items region l
      → Spread codec crc32c plan items l
      → Fresh codec crc32c plan items j l
      → Journaled codec crc32c plan items j d
      → JournalIs j d
      → Progress codec crc32c plan items region l j
          (region_run codec crc32c plan region total size l j)
          d
  unfolding region_run
  region_run-Progress region total size [] j d p clean known spread fresh h is =
      idle codec crc32c plan items region j 0 d clean h is
  region_run-Progress region total size (b ∷ l) j d p clean known spread fresh h is =
      let d' = apply_effect (allocated region total) d in
      let grown : Journaled codec crc32c plan items j d' =
        All-map items
          (λ i kept done.
            Kept-add_change codec crc32c plan items region (grow total) d i
              (λ same q e. All-always (item_writes codec crc32c plan i q) (λ w. tt)) (kept done))
          h in
      let next =
        write_batches-Progress codec crc32c plan items region size (length (b ∷ l)) (b ∷ l) j 0 d' p
          (omega arith) (λ nothing. cc) known spread fresh grown is in
      record {
        always = (Recoverable-Journaled codec crc32c plan items j d h is, next.always);
        returned = next.returned;
      }

  -- A region writer, from a journal and a disk that agree.
  pub record RegionDone (region : Region) (l : List (WorkItem Source)) (j : BuildJournal)
      (r : Run RegionResult) (d : Disk) : Type 0 where
    pub always : Always (Recoverable codec crc32c plan items) r.trace d
    pub only : All (OnlyAt region) r.trace
    pub returned :
        (res : RegionResult)
        → r.outcome ≡ ok res
        → Established codec crc32c plan items region l j res.journal (run r.trace d)

  pub write_region-Done :
      (region : Region) (total size : ℕ) (l : List (WorkItem Source)) (j : BuildJournal) (d : Disk)
      → 0 < size
      → d.unsynced region ≡ []
      → Known codec crc32c plan items region l
      → Spread codec crc32c plan items l
      → Journaled codec crc32c plan items j d
      → JournalIs j d
      → RegionDone region l j (write_region codec crc32c plan region total size l j) d
  unfolding write_region pending_items
  write_region-Done region total size l j d p clean known spread h is =
      by_outcome (region_run codec crc32c plan region total size pending j).outcome refl
    where
      pending : List (WorkItem Source)
      pending = pending_items j l

      known_pending : Known codec crc32c plan items region pending
      known_pending = All-filter_items _ (λ i. not (is_done j i)) l known

      spread_pending : Spread codec crc32c plan items pending
      spread_pending = Pairwise-filter_items _ (λ i. not (is_done j i)) l spread

      progress :
          Progress codec crc32c plan items region pending j
            (region_run codec crc32c plan region total size pending j)
            d
      progress =
          region_run-Progress region total size pending j d p clean known_pending spread_pending
            (pending_fresh j l) h is

      only_pending :
          All (OnlyAt region) (region_run codec crc32c plan region total size pending j).trace
      only_pending =
          only-region_run region total size pending j (All-map pending (λ b k. k.0) known_pending)

      by_outcome :
          (r : Result (BuildJournal × ℕ))
          → (region_run codec crc32c plan region total size pending j).outcome ≡ r
          → RegionDone region l j (write_region codec crc32c plan region total size l j) d
      by_outcome (err error) e =
          rw (e, write_region)
            (record { always = progress.always; only = only_pending; returned = λ res r. cc })
      by_outcome (ok (j', n)) e =
          let (h', is', clean', done, mono) = progress.returned j' n e in
          let trace = (region_run codec crc32c plan region total size pending j).trace in
          rw (e, append-nil trace, write_region)
            (record {
              always = progress.always;
              only = only_pending;
              returned = λ res r.
                  subst (λ x. Established codec crc32c plan items region l j x (run trace d))
                    (ap (λ x. x.journal) (ok-injective r))
                    (h', is', clean', pending_done j j' l mono done, mono);
            })
