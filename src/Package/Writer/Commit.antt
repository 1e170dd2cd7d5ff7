-- ===== src/Package/Writer/Commit.antt =====
-- One batch of a region: its writes, the flush, and the journal that lists it.
use pocket_titan.Prelude.{
  ℕ, ◌≡◌, refl, sym, ap, ◌∙◌, true, some, List, [], ◌∷◌, ◌++◌, All, subst, Result, ok, err,
  ok-injective, >>=-eq-ok,
}
use pocket_titan.Package.Encode.{Codec}
use pocket_titan.Package.Journal.{BuildJournal, BuildPlan, WorkItem, is_done}
use pocket_titan.Package.Effects.{Region, wrote, synced, write_effects, region_of, Run}
use pocket_titan.Package.Writer.{encode_item, item_writes, write_items}
use pocket_titan.Package.Writer.Disk.{
  Change, put, Disk, same_region, add_change, apply_effect, run, Clear, puts,
}
use mathlib.Core.List.{append_assoc, append-nil}
use pocket_titan.Package.Writer.Batch.{
  same_region_refl, unsynced-add_change, All-append, All-map, Always, Kept, Journaled, Recoverable,
  Spares, Kept-add_change, Kept-synced,
}

-- The journal on the disk, if there is one.
abbrev pub JournalIs : BuildJournal → Disk → Type 0
JournalIs j d = (k : BuildJournal) → d.journal ≡ some k → k ≡ j

module _ (region : Region) where
  pub files-run :
      (writes : List (ℕ × List ℕ)) (d : Disk)
      → (run (write_effects region writes) d).files ≡ d.files
  files-run [] d = refl
  files-run (w ∷ writes) d = files-run writes (apply_effect (wrote region w.0 w.1) d)

  pub journal-run :
      (writes : List (ℕ × List ℕ)) (d : Disk)
      → (run (write_effects region writes) d).journal ≡ d.journal
  journal-run [] d = refl
  journal-run (w ∷ writes) d = journal-run writes (apply_effect (wrote region w.0 w.1) d)

  pub unsynced-run :
      (writes : List (ℕ × List ℕ)) (d : Disk)
      → (run (write_effects region writes) d).unsynced region ≡ d.unsynced region ++ puts writes
  unsynced-run [] d = sym (append-nil (d.unsynced region))
  unsynced-run (w ∷ writes) d =
      unsynced-run writes (apply_effect (wrote region w.0 w.1) d)
      ∙ ap (λ u. u ++ puts writes)
          (unsynced-add_change region region (put w.0 w.1) d (same_region_refl region))
      ∙ append_assoc (d.unsynced region) (put w.0 w.1 ∷ []) (puts writes)

module _ {Source Tensor : Type 0} (codec : Codec Source Tensor) (crc32c : List ℕ → ℕ)
    (plan : BuildPlan Source) (items : List (WorkItem Source)) where
  pub Recoverable-Journaled :
      (j : BuildJournal) (d : Disk)
      → Journaled codec crc32c plan items j d
      → JournalIs j d
      → Recoverable codec crc32c plan items d
  Recoverable-Journaled j d h is k e =
      subst (λ k. Journaled codec crc32c plan items k d) (sym (is k e)) h

  Journaled-change :
      (j : BuildJournal) (region : Region) (c : Change) (d : Disk)
      (some_items : List (WorkItem Source))
      → All (λ i. is_done j i ≡ true → Kept codec crc32c plan items d i) some_items
      → All
          (λ i.
            is_done j i ≡ true
            → same_region region (region_of i) ≡ true
            → (payload : List ℕ) → encode_item codec crc32c plan i ≡ ok payload
            → All (Clear c) (item_writes codec crc32c plan i payload))
          some_items
      → All
          (λ i. is_done j i ≡ true → Kept codec crc32c plan items (add_change region c d) i)
          some_items
  Journaled-change j region c d [] h clear = tt
  Journaled-change j region c d (i ∷ some_items) h clear = (
    λ done. Kept-add_change codec crc32c plan items region c d i (clear.0 done) (h.0 done),
    Journaled-change j region c d some_items h.1 clear.1,
  )

  pub Journaled-synced :
      (j : BuildJournal) (region : Region) (d : Disk)
      → Journaled codec crc32c plan items j d
      → Journaled codec crc32c plan items j (apply_effect (synced region) d)
  Journaled-synced j region d h =
      All-map items (λ i kept done. Kept-synced codec crc32c plan items region d i (kept done)) h

  pub writes-Always :
      (j : BuildJournal) (region : Region) (writes : List (ℕ × List ℕ)) (d : Disk)
      → All (Spares codec crc32c plan items j region) writes
      → Journaled codec crc32c plan items j d
      → JournalIs j d
      → Always (Recoverable codec crc32c plan items) (write_effects region writes) d
        × Journaled codec crc32c plan items j (run (write_effects region writes) d)
  writes-Always j region [] d spares h is = (Recoverable-Journaled j d h is, h)
  writes-Always j region (w ∷ writes) d spares h is =
      let d' = apply_effect (wrote region w.0 w.1) d in
      let h' = Journaled-change j region (put w.0 w.1) d items h spares.0 in
      let (always, after) = writes-Always j region writes d' spares.1 h' is in
      ((Recoverable-Journaled j d h is, always), after)

  -- The writes of the items of a batch, in order.
  abbrev pub concat_writes : List (WorkItem Source × List ℕ) → List (ℕ × List ℕ)
  concat_writes [] = []
  concat_writes ((i, payload) ∷ committed) =
      item_writes codec crc32c plan i payload ++ concat_writes committed

  -- The items of a batch with their payloads.
  abbrev pub Committed : List (WorkItem Source) → List (WorkItem Source × List ℕ) → Type 0
  Committed [] [] = Unit
  Committed [] (c ∷ committed) = ⊥
  Committed (b ∷ batch) [] = ⊥
  Committed (b ∷ batch) ((c, payload) ∷ committed) =
      (c ≡ b) × (encode_item codec crc32c plan b ≡ ok payload) × Committed batch committed

  pub record Written (region : Region) (batch : List (WorkItem Source)) (Q : ℕ × List ℕ → Type 0)
      (r : Run (List (WorkItem Source × List ℕ))) : Type 0 where
    pub writes : List (ℕ × List ℕ)
    pub trace : r.trace ≡ write_effects region writes
    pub all : All Q writes
    pub returned :
        (committed : List (WorkItem Source × List ℕ))
        → r.outcome ≡ ok committed
        → (writes ≡ concat_writes committed) × Committed batch committed

  pub map-append-effects :
      (region : Region) (v w : List (ℕ × List ℕ))
      → write_effects region v ++ write_effects region w ≡ write_effects region (v ++ w)
  map-append-effects region [] w = refl
  map-append-effects region (x ∷ v) w =
      ap (λ l. wrote region x.0 x.1 ∷ l) (map-append-effects region v w)

  pub write_items-Written :
      (region : Region) (batch : List (WorkItem Source)) (Q : ℕ × List ℕ → Type 0)
      → All (λ b. region_of b ≡ region) batch
      → All
          (λ b.
            (payload : List ℕ)
            → encode_item codec crc32c plan b ≡ ok payload
            → All Q (item_writes codec crc32c plan b payload))
          batch
      → Written region batch Q (write_items codec crc32c plan batch)
  unfolding write_items
  write_items-Written region [] Q here good = record {
    writes = [];
    trace = refl;
    all = tt;
    returned = λ committed e.
        subst (λ c. ([] ≡ concat_writes c) × Committed [] c) (ok-injective e) (refl, tt);
  }
  write_items-Written region (b ∷ batch) Q here good =
      by_payload (write_items-Written region batch Q here.1 good.1)
        (encode_item codec crc32c plan b) refl
    where
      by_payload :
          Written region batch Q (write_items codec crc32c plan batch)
          → (r : Result (List ℕ)) → encode_item codec crc32c plan b ≡ r
          → Written region (b ∷ batch) Q (write_items codec crc32c plan (b ∷ batch))
      by_payload later (err error) e =
          rw (e, write_items)
            (record { writes = []; trace = refl; all = tt; returned = λ committed e. cc })
      by_payload later (ok payload) e =
          rw (e, write_items)
            (record {
              writes = item_writes codec crc32c plan b payload ++ later.writes;
              trace =
                  ap
                    (λ t.
                      write_effects (region_of b) (item_writes codec crc32c plan b payload) ++ t)
                    later.trace
                  ∙ ap
                      (λ r.
                        write_effects r (item_writes codec crc32c plan b payload)
                        ++ write_effects region later.writes)
                      here.0
                  ∙ map-append-effects region (item_writes codec crc32c plan b payload)
                      later.writes;
              all =
                  All-append Q (item_writes codec crc32c plan b payload) later.writes
                    (good.0 payload e) later.all;
              returned = λ committed r.
                  let (rest, returned, whole) =
                    >>=-eq-ok (write_items codec crc32c plan batch).outcome _ r in
                  let (same, matches) = later.returned rest returned in
                  subst
                    (λ c.
                      (item_writes codec crc32c plan b payload ++ later.writes ≡ concat_writes c)
                      × Committed (b ∷ batch) c)
                    (ok-injective whole)
                    (
                      ap (λ w. item_writes codec crc32c plan b payload ++ w) same,
                      (refl, e, matches),
                    );
            })
