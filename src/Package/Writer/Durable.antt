-- ===== src/Package/Writer/Durable.antt =====
-- A build may be interrupted anywhere: the journal on the disk never lists an item whose bytes are not
-- in the flushed files.
use pocket_titan.Prelude.{
  ℕ, ◌≡◌, refl, sym, ap, ◌∙◌, List, [], ◌∷◌, ◌++◌, All, subst, Result, ok, if◌then◌else◌, err,
  ok-injective, some_inj,
}
use pocket_titan.Package.Encode.{Codec}
use pocket_titan.Package.Journal.{BuildJournal, BuildPlan, WorkItem}
use pocket_titan.Package.Effects.{Region, synced, saved, write_effects, Run}
use pocket_titan.Package.Writer.{item_writes, mark_all, write_items, write_batch}
use pocket_titan.Package.Writer.Disk.{
  Disk, apply_effect, run, settle, Held, settle-append, puts, Held-puts,
}
use pocket_titan.Package.Writer.Batch.{
  same_region_refl, All-map, Always, run-append, Always-append, Kept, Journaled, Recoverable,
  Spares,
}
use pocket_titan.Package.Writer.Commit.{
  JournalIs, concat_writes, Committed, files-run, journal-run, unsynced-run, Written,
  Recoverable-Journaled, Journaled-synced, writes-Always, write_items-Written,
}
use pocket_titan.Package.Writer.Apart.{
  All-append_left, All-append_right, Known, Spread, Fresh, spare-All, concat_writes-Pairwise,
  mark_all-Journaled,
}

pub All-zip_map :
    {A : Type 0} {P Q R : A → Type 0} (xs : List A)
    → ((x : A) → P x → Q x → R x)
    → All P xs
    → All Q xs
    → All R xs
All-zip_map [] f h k = tt
All-zip_map (x ∷ xs) f h k = (f x h.0 k.0, All-zip_map xs f h.1 k.1)

module _ {Source Tensor : Type 0} (codec : Codec Source Tensor) (crc32c : List ℕ → ℕ)
    (plan : BuildPlan Source) (items : List (WorkItem Source)) where
  -- The committed items are kept once the region is flushed.
  Kept-batch :
      (region : Region) (batch : List (WorkItem Source))
      (committed : List (WorkItem Source × List ℕ)) (d : Disk)
      → Known codec crc32c plan items region batch
      → Committed codec crc32c plan items batch committed
      → All (Held (d.files region)) (concat_writes codec crc32c plan items committed)
      → d.unsynced region ≡ []
      → All (λ b. Kept codec crc32c plan items d b) batch
  Kept-batch region [] committed d known matches held clean = tt
  Kept-batch region (b ∷ batch) [] d known matches held clean = elim matches [ ]
  Kept-batch region (b ∷ batch) ((i, p) ∷ committed) d known (same, e, matches) held clean = (
    (
      p,
      e,
      rw (known.0.0, clean)
          (All-map (item_writes codec crc32c plan b p) (λ w h. (h, tt))
            (subst (λ i. All (Held (d.files region)) (item_writes codec crc32c plan i p)) same
              (All-append_left (Held (d.files region)) (item_writes codec crc32c plan i p)
                (concat_writes codec crc32c plan items committed) held))),
    ),
    Kept-batch region batch committed d known.1 matches
        (All-append_right (Held (d.files region)) (item_writes codec crc32c plan i p)
          (concat_writes codec crc32c plan items committed) held)
        clean,
  )

  -- One batch, from a journal and a disk that agree.
  pub record BatchResult (region : Region) (batch : List (WorkItem Source)) (j : BuildJournal)
      (r : Run (BuildJournal × ℕ)) (d : Disk) : Type 0 where
    pub always : Always (Recoverable codec crc32c plan items) r.trace d
    pub returned :
        (j' : BuildJournal) (n : ℕ)
        → r.outcome ≡ ok (j', n)
        → Journaled codec crc32c plan items j' (run r.trace d)
          × JournalIs j' (run r.trace d)
          × ((run r.trace d).unsynced region ≡ [])
          × (committed : List (WorkItem Source × List ℕ)) × Committed codec crc32c plan items batch
              committed
          × (j' ≡ mark_all codec crc32c committed j)

  module _ (region : Region) (j : BuildJournal) (batch : List (WorkItem Source)) (d : Disk) where
    commit :
        (committed : List (WorkItem Source × List ℕ))
        → Known codec crc32c plan items region batch
        → Spread codec crc32c plan items batch
        → Committed codec crc32c plan items batch committed
        → Journaled codec crc32c plan items j
            (run (write_effects region (concat_writes codec crc32c plan items committed)) d)
        → JournalIs j d
        → Always
            (Recoverable codec crc32c plan items)
            (synced region ∷ saved (mark_all codec crc32c committed j) ∷ [])
            (run (write_effects region (concat_writes codec crc32c plan items committed)) d)
          × Journaled codec crc32c plan items (mark_all codec crc32c committed j) (
              apply_effect
                (synced region)
                (run (write_effects region (concat_writes codec crc32c plan items committed)) d))
          × ((apply_effect (synced region) (
                  run
                    (write_effects region (concat_writes codec crc32c plan items committed))
                    d)).unsynced
                region
              ≡ [])
    commit committed known spread matches h is =
        let writes = concat_writes codec crc32c plan items committed in
        let d1 = run (write_effects region writes) d in
        let d2 = apply_effect (synced region) d1 in
        let j' = mark_all codec crc32c committed j in
        let is1 : JournalIs j d1 = λ k e. is k (sym (journal-run region writes d) ∙ e) in
        let h2 = Journaled-synced codec crc32c plan items j region d1 h in
        let settled : d2.files region
            ≡ settle (puts writes) (settle (d.unsynced region) (d.files region)) =
          ap (λ b. if b then settle (d1.unsynced region) (d1.files region) else d1.files region)
            (same_region_refl region)
          ∙ ap (λ u. settle u (d1.files region)) (unsynced-run region writes d)
          ∙ ap (λ f. settle (d.unsynced region ++ puts writes) (f region))
              (files-run region writes d)
          ∙ settle-append (d.unsynced region) (puts writes) (d.files region) in
        let held : All (Held (d2.files region)) writes =
          subst (λ f. All (Held f) writes) (sym settled)
            (Held-puts writes (settle (d.unsynced region) (d.files region)) (
              concat_writes-Pairwise codec crc32c plan items region batch committed spread known
                matches)) in
        let clean : d2.unsynced region ≡ [] =
          ap (λ b. if b then [] else d1.unsynced region) (same_region_refl region) in
        let h3 =
          mark_all-Journaled codec crc32c plan items region batch committed j d2 known matches h2
            (Kept-batch region batch committed d2 known matches held clean) in
        (
          (
            Recoverable-Journaled codec crc32c plan items j d1 h is1,
            (
              Recoverable-Journaled codec crc32c plan items j d2 h2 is1,
              Recoverable-Journaled codec crc32c plan items j' (apply_effect (saved j') d2) h3
                  (λ k e. sym (some_inj e)),
            ),
          ),
          h3,
          clean,
        )

    pub batch-Result :
        Known codec crc32c plan items region batch
        → Spread codec crc32c plan items batch
        → Fresh codec crc32c plan items j batch
        → Journaled codec crc32c plan items j d
        → JournalIs j d
        → BatchResult region batch j (write_batch codec crc32c plan region batch j) d
    unfolding write_batch
    batch-Result known spread fresh h is =
        by_outcome
          (write_items-Written codec crc32c plan items region batch
            (Spares codec crc32c plan items j region) (All-map batch (λ b k. k.0) known)
            (All-zip_map batch
              (λ b k f p e. spare-All codec crc32c plan items j region b p items k.0 f e k.2) known
              fresh))
          (write_items codec crc32c plan batch).outcome refl
      where
        by_outcome :
            Written codec crc32c plan items region batch
              (Spares codec crc32c plan items j region)
              (write_items codec crc32c plan batch)
            → (r : Result (List (WorkItem Source × List ℕ)))
            → (write_items codec crc32c plan batch).outcome ≡ r
            → BatchResult region batch j (write_batch codec crc32c plan region batch j) d
        by_outcome w (err error) e = rw e (record {
          always =
              subst (λ t. Always (Recoverable codec crc32c plan items) t d) (sym w.trace)
                (writes-Always codec crc32c plan items j region w.writes d w.all h is).0;
          returned = λ j' n r. cc;
        })
        by_outcome w (ok committed) e =
            let (same, matches) = w.returned committed e in
            let writes = concat_writes codec crc32c plan items committed in
            let spared : All (Spares codec crc32c plan items j region) writes =
              subst (All (Spares codec crc32c plan items j region)) same w.all in
            let (before, kept) =
              writes-Always codec crc32c plan items j region writes d spared h is in
            let (after, journaled, clean) = commit committed known spread matches kept is in
            let j2 = mark_all codec crc32c committed j in
            let end = synced region ∷ saved j2 ∷ [] in
            let ran : run (write_effects region writes ++ end) d
                ≡ apply_effect (saved j2)
                    (apply_effect (synced region) (run (write_effects region writes) d)) =
              run-append (write_effects region writes) end d in
            rw (e, w.trace ∙ ap (write_effects region) same)
              (record {
                always =
                    Always-append (Recoverable codec crc32c plan items)
                      (write_effects region writes) end d before after;
                returned = λ j' n r.
                    let marked : j2 ≡ j' = ap (λ x. x.0) (ok-injective r) in
                    subst
                      (λ x.
                        Journaled codec crc32c plan items j' x
                        × JournalIs j' x
                        × (x.unsynced region ≡ [])
                        × (committed : List (WorkItem Source × List ℕ)) × Committed codec crc32c
                            plan items batch committed
                        × (j' ≡ mark_all codec crc32c committed j))
                      (sym ran)
                      (
                        subst
                            (λ j'. Journaled codec crc32c plan items j' (
                              apply_effect (saved j2) (
                                apply_effect (synced region)
                                  (run (write_effects region writes) d))))
                            marked journaled,
                        λ k e. sym (some_inj e) ∙ marked,
                        clean,
                        committed,
                        matches,
                        sym marked,
                      );
              })
