-- ===== src/Package/Writer/Returns.antt =====
-- A build returns whenever nothing that it calls raises, and has then completed the package.
use pocket_titan.Package.Writer.Disk.{Disk, run}
use pocket_titan.Package.Writer.Batch.{Recoverable}
use pocket_titan.Package.Writer.Planned.{IsPlanned}
use pocket_titan.Package.Writer.Complete.{IsComplete, build-IsComplete}
use Prim.Native.String.{String}
use pocket_titan.Prelude.{
  ℕ, ◌+◌, ◌≡◌, refl, ap, ◌∙◌, Bool, true, not, Option, none, some, List, [], ◌∷◌, ◌++◌, length, All,
  ok, ◌>>=◌, ◌>>◌,
}
use pocket_titan.Format.Record.{ExpertRecordLayout}
use pocket_titan.Package.Encode.{Codec}
use pocket_titan.Package.Journal.{
  BuildJournal, BuildPlan, WorkItem, is_done, load_journal, dense_items, expert_items, ple_items,
}
use pocket_titan.Package.Effects.{Region, Run, return_run, continue_run, then_run, quiet}
use pocket_titan.Package.Writer.{
  finish_build, pending_items, batches_from, encode_item, write_items, write_batch, write_batches,
  region_run, write_region, write_dense, write_experts, experts_by_layout, write_ple, build,
  BuildResult, after_index, after_dense, after_experts, after_ple, summary,
}
use pocket_titan.Package.Writer.Filter.{All-filter_items, batches_from-All}
use pocket_titan.Package.Writer.Planned.{all_items}
use pocket_titan.Package.Writer.Apart.{All-append_left, All-append_right}

abbrev Returns : {A : Type 0} → Run A → Type 0
Returns {A} r = (a : A) × (r.outcome ≡ ok a)

then-Returns :
    {A B : Type 0} (first : Run A) (next : A → Run B)
    → Returns first
    → ((a : A) → Returns (next a))
    → Returns (then_run first next)
then-Returns first next (a, e) later =
    let (b, r) = later a in (b, ap (λ o. (continue_run first.trace o next).outcome) e ∙ r)

module _ {Source Tensor : Type 0} (codec : Codec Source Tensor) (crc32c : List ℕ → ℕ)
    (plan : BuildPlan Source) where
  -- The item can be read, quantized and serialized.
  abbrev pub Encodes : WorkItem Source → Type 0
  Encodes i = (payload : List ℕ) × (encode_item codec crc32c plan i ≡ ok payload)

  write_items-Returns :
      (batch : List (WorkItem Source))
      → All Encodes batch
      → Returns (write_items codec crc32c plan batch)
  unfolding write_items
  write_items-Returns [] h = ([], refl)
  write_items-Returns (b ∷ batch) h =
      let (payload, e) = h.0 in
      let (committed, r) = write_items-Returns batch h.1 in
      ((b, payload) ∷ committed, rw e (ap (λ o. o >>= λ items. ok ((b, payload) ∷ items)) r))

  write_batches-Returns :
      (region : Region) (l : List (List (WorkItem Source))) (j : BuildJournal) (n : ℕ)
      → All (All Encodes) l
      → Returns (write_batches codec crc32c plan region l j n)
  unfolding write_batches write_batch
  write_batches-Returns region [] j n h = ((j, n), refl)
  write_batches-Returns region (batch ∷ l) j n h =
      then-Returns (write_batch codec crc32c plan region batch j) _
        (then-Returns (write_items codec crc32c plan batch) _ (write_items-Returns batch h.0)
          (λ committed. (_, refl)))
        (λ (j', bytes). write_batches-Returns region l j' (n + bytes) h.1)

  region_run-Returns :
      (region : Region) (total size : ℕ) (l : List (WorkItem Source)) (j : BuildJournal)
      → All Encodes l
      → Returns (region_run codec crc32c plan region total size l j)
  unfolding region_run
  region_run-Returns region total size [] j h = ((j, 0), refl)
  region_run-Returns region total size (b ∷ l) j h =
      write_batches-Returns region (batches_from (length (b ∷ l)) size (b ∷ l)) j 0
        (batches_from-All Encodes (length (b ∷ l)) size (b ∷ l) h)

  write_region-Returns :
      (region : Region) (total size : ℕ) (l : List (WorkItem Source)) (j : BuildJournal)
      → All Encodes l
      → Returns (write_region codec crc32c plan region total size l j)
  unfolding write_region pending_items
  write_region-Returns region total size l j h =
      then-Returns (region_run codec crc32c plan region total size (pending_items j l) j) _
        (region_run-Returns region total size (pending_items j l) j
          (All-filter_items Encodes (λ i. not (is_done j i)) l h))
        (λ done. (_, refl))

  experts-Returns :
      (j : BuildJournal) (o : Option ExpertRecordLayout)
      → All Encodes (expert_items plan)
      → Returns (experts_by_layout codec crc32c plan j o)
  unfolding write_region
  experts-Returns j none h = (_, refl)
  experts-Returns j (some layout) h =
      write_region-Returns _ plan.expert_total 64 (expert_items plan) j h

build-ok :
    {Source Tensor : Type 0} (codec : Codec Source Tensor) (crc32c : List ℕ → ℕ)
    (plan : BuildPlan Source) (resume : Bool) (fingerprint : String)
    (existing : Option BuildJournal) (j : BuildJournal)
    → All (Encodes codec crc32c plan) (all_items plan)
    → load_journal resume fingerprint existing ≡ ok j
    → (result : BuildResult) × ((build codec crc32c plan resume fingerprint existing
          (ok tt)
          (ok tt)
          (ok tt)).outcome
        ≡ ok result)
unfolding build write_dense write_experts write_ple
build-ok codec crc32c plan resume fingerprint existing j encodes loaded =
    let dense_ok =
      All-append_left _ (dense_items plan) (expert_items plan ++ ple_items plan) encodes in
    let others =
      All-append_right _ (dense_items plan) (expert_items plan ++ ple_items plan) encodes in
    let experts_ok = All-append_left _ (expert_items plan) (ple_items plan) others in
    let ple_ok = All-append_right _ (expert_items plan) (ple_items plan) others in
    then-Returns (quiet (ok tt >> load_journal resume fingerprint existing)) _ (j, loaded)
      (λ journal.
        then-Returns (quiet (ok tt)) (λ _. after_index codec crc32c plan (ok tt) journal) (tt, refl)
          (λ _.
            then-Returns (write_dense codec crc32c plan journal)
              (after_dense codec crc32c plan (ok tt))
              (write_region-Returns codec crc32c plan _ _ 1 (dense_items plan) journal dense_ok)
              (λ a.
                then-Returns (write_experts codec crc32c plan a.journal)
                  (after_experts codec crc32c plan (ok tt) a)
                  (experts-Returns codec crc32c plan a.journal plan.expert_record experts_ok)
                  (λ b.
                    then-Returns (write_ple codec crc32c plan b.journal)
                      (after_ple codec crc32c plan (ok tt) a b)
                      (write_region-Returns codec crc32c plan _ _ 1 (ple_items plan) b.journal
                        ple_ok)
                      (λ c.
                        then-Returns (finish_build c.journal (ok tt))
                          (λ _. return_run (summary codec crc32c plan a b c))
                          (record c.journal { finished = true }, refl)
                          (λ done. (summary codec crc32c plan a b c, refl)))))))

-- A build is total: if its journal loads, every item of the plan can be encoded, the plan's items do
-- not overlap and every item that the journal lists is in the files, then a build that resumes
-- (`resume = true`) returns, and has then flushed the bytes of every item to their places and saved a
-- finished journal that lists them all. The check of the free space, the n-gram index, the metadata
-- and the writes to the disk are taken to raise nothing.
pub build_returns :
    {Source Tensor : Type 0} (codec : Codec Source Tensor) (crc32c : List ℕ → ℕ)
    (plan : BuildPlan Source) (fingerprint : String) (d : Disk) (j : BuildJournal)
    → IsPlanned codec crc32c plan
    → ((r : Region) → d.unsynced r ≡ [])
    → Recoverable codec crc32c plan (all_items plan) d
    → All (Encodes codec crc32c plan) (all_items plan)
    → load_journal true fingerprint d.journal ≡ ok j
    → (result : BuildResult) × ((build codec crc32c plan true fingerprint d.journal
          (ok tt)
          (ok tt)
          (ok tt)).outcome
        ≡ ok result)
      × IsComplete codec crc32c plan
          (run (build codec crc32c plan true fingerprint d.journal (ok tt) (ok tt) (ok tt)).trace d)
build_returns codec crc32c plan fingerprint d j planned clean safe encodes loaded =
    let (result, returned) =
      build-ok codec crc32c plan true fingerprint d.journal j encodes loaded in
    (
      result,
      returned,
      build-IsComplete codec crc32c plan fingerprint d (ok tt) (ok tt) (ok tt) result planned clean
          safe returned,
    )
