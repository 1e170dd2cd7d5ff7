-- ===== src/Package/Writer/Regions.antt =====
-- The loop over the batches of a region, and the items that it skips.
use pocket_titan.Package.Writer.Apart.{
  All-append_right, AwayItems, mark_all_done, Spread, All-zip, All-always, mark_all_fresh,
  All-append_left, mark_all_batch, Fresh, Known,
}
use pocket_titan.Package.Effects.{Region, Run, return_run}
use pocket_titan.Package.Writer.{batches_from, mark_all, write_batch, write_batches}
use pocket_titan.Prelude.{
  ℕ, ◌+◌, ◌≤◌, ◌<◌, ◌≡◌, refl, sym, ap, true, false, List, [], ◌∷◌, ◌++◌, length, All, arith, subst,
  Result, ok, err, ok-injective, drop, take, take-append-drop, zero, suc, length-drop,
}
use pocket_titan.Package.Encode.{Codec}
use pocket_titan.Package.Journal.{BuildJournal, BuildPlan, WorkItem, is_done}
use pocket_titan.Package.Journal.Marks.{is_same}
use pocket_titan.Package.Writer.Disk.{Disk, run, Pairwise}
use pocket_titan.Package.Writer.Batch.{
  All-append, All-map, Always, run-append, Always-append, Journaled, Recoverable,
}
use pocket_titan.Package.Writer.Commit.{JournalIs, Committed, Recoverable-Journaled}
use pocket_titan.Package.Writer.Durable.{BatchResult, batch-Result}

All-swap :
    {A : Type 0} (R : A → A → Type 0) (xs ys : List A)
    → All (λ x. All (R x) ys) xs
    → All (λ y. All (λ x. R x y) xs) ys
All-swap R [] ys h = All-always ys (λ y. tt)
All-swap R (x ∷ xs) ys h = All-zip (R x) (λ y. All (λ x. R x y) xs) ys h.0 (All-swap R xs ys h.1)

-- What holds pairwise of a list holds of its parts, and across them.
record Parts {A : Type 0} (R : A → A → Type 0) (xs ys : List A) : Type 0 where
  left : Pairwise R xs
  right : Pairwise R ys
  across : All (λ x. All (R x) ys) xs

split_pairs :
    {A : Type 0} (R : A → A → Type 0) (xs ys : List A) → Pairwise R (xs ++ ys) → Parts R xs ys
split_pairs R [] ys h = record { left = tt; right = h; across = tt }
split_pairs R (x ∷ xs) ys h =
    let rest = split_pairs R xs ys h.1 in
    record {
      left = (All-append_left (R x) xs ys h.0, rest.left);
      right = rest.right;
      across = (All-append_right (R x) xs ys h.0, rest.across);
    }

module _ {Source Tensor : Type 0} (codec : Codec Source Tensor) (crc32c : List ℕ → ℕ)
    (plan : BuildPlan Source) (items : List (WorkItem Source)) where
  -- What a part of a region's writer leaves: safe at every step, and once it has returned, a journal
  -- that lists its items.
  pub record Progress (region : Region) (pending : List (WorkItem Source)) (j : BuildJournal)
      (r : Run (BuildJournal × ℕ)) (d : Disk) : Type 0 where
    pub always : Always (Recoverable codec crc32c plan items) r.trace d
    pub returned :
        (j' : BuildJournal) (n : ℕ)
        → r.outcome ≡ ok (j', n)
        → Journaled codec crc32c plan items j' (run r.trace d)
          × JournalIs j' (run r.trace d)
          × ((run r.trace d).unsynced region ≡ [])
          × All (λ b. is_done j' b ≡ true) pending
          × ((k : WorkItem Source) → is_done j k ≡ true → is_done j' k ≡ true)

  Fresh-rest :
      (batch rest : List (WorkItem Source)) (committed : List (WorkItem Source × List ℕ))
      (j : BuildJournal)
      → Committed codec crc32c plan items batch committed
      → All
          (λ k. All (λ b. (is_same b k ≡ false) × AwayItems codec crc32c plan items b k) batch)
          rest
      → Fresh codec crc32c plan items j rest
      → Fresh codec crc32c plan items (mark_all codec crc32c committed j) rest
  Fresh-rest batch [] committed j matches other fresh = tt
  Fresh-rest batch (k ∷ rest) committed j matches other fresh = (
    mark_all_fresh codec crc32c plan items batch committed j k matches
        (All-map batch (λ b h. h.0) other.0) fresh.0,
    Fresh-rest batch rest committed j matches other.1 fresh.1,
  )

  -- What a finished part of the writer has established at the disk `x`.
  abbrev pub Established :
      Region → List (WorkItem Source) → BuildJournal → BuildJournal → Disk → Type 0
  Established region pending j j' x =
      Journaled codec crc32c plan items j' x
      × JournalIs j' x
      × (x.unsynced region ≡ [])
      × All (λ b. is_done j' b ≡ true) pending
      × ((k : WorkItem Source) → is_done j k ≡ true → is_done j' k ≡ true)

  pub idle :
      (region : Region) (j : BuildJournal) (n : ℕ) (d : Disk)
      → d.unsynced region ≡ []
      → Journaled codec crc32c plan items j d
      → JournalIs j d
      → Progress region [] j (return_run (j, n)) d
  idle region j n d clean h is = record {
    always = Recoverable-Journaled codec crc32c plan items j d h is;
    returned = λ j' m e.
        subst (λ j'. Established region [] j j' d) (ap (λ x. x.0) (ok-injective e))
          (h, is, clean, tt, λ k done. done);
  }

  after_batch :
      (region : Region) (batch rest : List (WorkItem Source))
      (later : List (List (WorkItem Source))) (j : BuildJournal) (n : ℕ) (d : Disk)
      → BatchResult codec crc32c plan items region batch j
          (write_batch codec crc32c plan region batch j)
          d
      → All
          (λ k. All (λ b. (is_same b k ≡ false) × AwayItems codec crc32c plan items b k) batch)
          rest
      → Fresh codec crc32c plan items j rest
      → ((j' : BuildJournal) (m : ℕ) (d' : Disk)
          → d'.unsynced region ≡ []
          → Fresh codec crc32c plan items j' rest
          → Journaled codec crc32c plan items j' d'
          → JournalIs j' d'
          → Progress region rest j' (write_batches codec crc32c plan region later j' m) d')
      → Progress region
          (batch ++ rest)
          j
          (write_batches codec crc32c plan region (batch ∷ later) j n)
          d
  unfolding write_batches
  after_batch region batch rest later j n d first cross fresh ih =
      by_outcome (write_batch codec crc32c plan region batch j).outcome refl
    where
      by_outcome :
          (r : Result (BuildJournal × ℕ))
          → (write_batch codec crc32c plan region batch j).outcome ≡ r
          → Progress region
              (batch ++ rest)
              j
              (write_batches codec crc32c plan region (batch ∷ later) j n)
              d
      by_outcome (err error) e =
          rw (e, write_batches) (record { always = first.always; returned = λ j' m r. cc })
      by_outcome (ok (j', m)) e =
          let trace = (write_batch codec crc32c plan region batch j).trace in
          let (journaled, is', clean, committed, matches, marked) = first.returned j' m e in
          let fresh' : Fresh codec crc32c plan items j' rest =
            subst (λ x. Fresh codec crc32c plan items x rest) (sym marked)
              (Fresh-rest batch rest committed j matches cross fresh) in
          let next = ih j' (n + m) (run trace d) clean fresh' journaled is' in
          let after = (write_batches codec crc32c plan region later j' (n + m)).trace in
          let batch_done : All (λ b. is_done j' b ≡ true) batch =
            subst (λ x. All (λ b. is_done x b ≡ true) batch) (sym marked)
              (mark_all_batch codec crc32c plan items batch committed j matches) in
          rw (e, write_batches)
            (record {
              always =
                  Always-append (Recoverable codec crc32c plan items) trace after d first.always
                    next.always;
              returned = λ j2 m2 r.
                  let (h2, is2, clean2, done2, mono2) = next.returned j2 m2 r in
                  subst (Established region (batch ++ rest) j j2) (sym (run-append trace after d)) (
                    h2,
                    is2,
                    clean2,
                    All-append (λ b. is_done j2 b ≡ true) batch rest
                        (All-map batch (λ b done. mono2 b done) batch_done) done2,
                    λ k done. mono2 k (
                        subst (λ x. is_done x k ≡ true) (sym marked)
                          (mark_all_done codec crc32c plan items committed j k done)),
                  );
            })

  pub write_batches-Progress :
      (region : Region) (size steps : ℕ) (l : List (WorkItem Source)) (j : BuildJournal) (n : ℕ)
      (d : Disk)
      → 0 < size
      → length l ≤ steps
      → (l ≡ [] → d.unsynced region ≡ [])
      → Known codec crc32c plan items region l
      → Spread codec crc32c plan items l
      → Fresh codec crc32c plan items j l
      → Journaled codec crc32c plan items j d
      → JournalIs j d
      → Progress region l j
          (write_batches codec crc32c plan region (batches_from steps size l) j n)
          d
  unfolding write_batches batches_from
  write_batches-Progress region size zero [] j n d p steps clean known spread fresh h is =
      idle region j n d (clean refl) h is
  write_batches-Progress region size zero (b ∷ l) j n d p steps clean known spread fresh h is =
      absurd (omega arith)
  write_batches-Progress region size (suc k) [] j n d p steps clean known spread fresh h is =
      idle region j n d (clean refl) h is
  write_batches-Progress region size (suc k) (b ∷ l) j n d p steps clean known spread fresh h is =
      let all = b ∷ l in
      let batch = take size all in
      let rest = drop size all in
      let whole : all ≡ batch ++ rest = sym (take-append-drop size all) in
      let known' = subst (Known codec crc32c plan items region) whole known in
      let fresh' = subst (Fresh codec crc32c plan items j) whole fresh in
      let parts =
        split_pairs (λ b c. (is_same b c ≡ false) × AwayItems codec crc32c plan items b c) batch
          rest (subst (Spread codec crc32c plan items) whole spread) in
      let known_rest = All-append_right _ batch rest known' in
      let shorter : length rest ≤ k = omega (arith, length-drop size all) in
      subst
        (λ l.
          Progress region l j
            (write_batches codec crc32c plan region (batches_from (suc k) size all) j n) d)
        (sym whole)
        (after_batch region batch rest (batches_from k size rest) j n d
          (batch-Result codec crc32c plan items region j batch d
            (All-append_left _ batch rest known') parts.left (All-append_left _ batch rest fresh') h
            is)
          (All-swap (λ b c. (is_same b c ≡ false) × AwayItems codec crc32c plan items b c) batch
            rest parts.across)
          (All-append_right _ batch rest fresh')
          (λ j' m d' clean' fresh'' h' is'.
            write_batches-Progress region size k rest j' m d' p shorter (λ nothing. clean')
              known_rest parts.right fresh'' h' is'))
