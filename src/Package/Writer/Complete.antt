-- ===== src/Package/Writer/Complete.antt =====
-- A build as a whole: it may be interrupted anywhere and resumed, and once it returns the package is
-- complete.
use pocket_titan.Package.Writer.Regions.{Established}
use pocket_titan.Package.Journal.{
  expert_items, dense_items, ple_items, BuildJournal, BuildPlan, WorkItem, expert_item, is_done,
  load_journal,
}
use pocket_titan.Prelude.{
  ℕ, ◌≡◌, refl, sym, ap, ◌∙◌, inl, inr, true, Bool, ◌⊎◌, Option, none, some, List, [], ◌++◌, map,
  All, arith, subst, Bool-cases, Result, ok, err, ok-injective, >>=-eq-ok, some_inj, ◌>>◌,
}
use pocket_titan.Package.Encode.{Codec}
use pocket_titan.Package.Effects.{
  Region, dense, experts, ple, Effect, saved, Run, return_run, quiet,
}
use pocket_titan.Package.Writer.{
  RegionResult, write_dense, write_experts, write_ple, experts_by_layout, finish_build, build,
  after_ple, after_experts, after_dense, after_index, BuildResult,
}
use pocket_titan.Package.Writer.Disk.{Disk, same_region, apply_effect, run, Crashed}
use pocket_titan.Package.Writer.Batch.{
  same_region-eq, All-append, All-map, Always, Kept, Journaled, Recoverable, Always-before,
  Crashed-Kept,
}
use pocket_titan.Package.Writer.Commit.{JournalIs, Recoverable-Journaled}
use pocket_titan.Package.Writer.Apart.{All-always}
use pocket_titan.Package.Writer.Durable.{All-zip_map}
use pocket_titan.Format.Record.{ExpertRecordLayout}
use Prim.Native.String.{String}
use pocket_titan.Package.Journal.Marks.{load_journal-existing}
use pocket_titan.Package.Writer.Filter.{only-run, RegionDone, write_region-Done}
use pocket_titan.Package.Writer.Chain.{chain, finished_done, new_done}
use pocket_titan.Package.Writer.Planned.{
  all_items, IsPlanned, dense-Known, experts-Known, ple-Known,
}

module _ {Source Tensor : Type 0} (codec : Codec Source Tensor) (crc32c : List ℕ → ℕ)
    (plan : BuildPlan Source) where
  abbrev planned_items : List (WorkItem Source)
  planned_items = all_items plan

  abbrev Safe : Disk → Type 0
  Safe = Recoverable codec crc32c plan planned_items

  -- Between two regions: the journal in memory agrees with the disk, and all is flushed.
  record Stage (j : BuildJournal) (d : Disk) : Type 0 where
    journaled : Journaled codec crc32c plan planned_items j d
    journal : JournalIs j d
    clean : (r : Region) → d.unsynced r ≡ []

  Stage-Safe : (j : BuildJournal) (d : Disk) → Stage j d → Safe d
  Stage-Safe j d s = Recoverable-Journaled codec crc32c plan planned_items j d s.journaled s.journal

  abbrev Grown : BuildJournal → BuildJournal → Type 0
  Grown j j' = (k : WorkItem Source) → is_done j k ≡ true → is_done j' k ≡ true

  abbrev AllDone : BuildJournal → List (WorkItem Source) → Type 0
  AllDone j l = All (λ b. is_done j b ≡ true) l

  region_stage :
      (region : Region) (l : List (WorkItem Source)) (j : BuildJournal) (r : Run RegionResult)
      (d : Disk)
      → Stage j d
      → RegionDone codec crc32c plan planned_items region l j r d
      → (res : RegionResult) → r.outcome ≡ ok res
      → Stage res.journal (run r.trace d) × AllDone res.journal l × Grown j res.journal
  region_stage region l j r d s done res e =
      let (h, is, clean, all_done, grown) = done.returned res e in
      (
        record {
          journaled = h;
          journal = is;
          clean = λ x. elim (Bool-cases (same_region region x)) [
            | inl same ↦
                subst (λ y. (run r.trace d).unsynced y ≡ []) (same_region-eq region x same) clean
            | inr other ↦ only-run region x r.trace d done.only other (s.clean x)
          ];
        },
        all_done,
        grown,
      )

  nothing-Done :
      (region : Region) (j : BuildJournal) (d : Disk)
      → Stage j d
      → RegionDone codec crc32c plan planned_items region [] j
          (return_run (record { journal = j; written = 0; skipped = 0 }))
          d
  nothing-Done region j d s = record {
    always = Stage-Safe j d s;
    only = tt;
    returned = λ res e.
        subst (λ j'. Established codec crc32c plan planned_items region [] j j' d)
          (ap (λ x. x.journal) (ok-injective e))
          (s.journaled, s.journal, s.clean region, tt, λ k done. done);
  }

  module _ (planned : IsPlanned codec crc32c plan) where
    dense-Done :
        (j : BuildJournal) (d : Disk)
        → Stage j d
        → RegionDone codec crc32c plan planned_items dense
            (dense_items plan)
            j
            (write_dense codec crc32c plan j)
            d
    unfolding write_dense
    dense-Done j d s =
        write_region-Done codec crc32c plan planned_items dense plan.dense_total 1
          (dense_items plan) j d (omega arith) (s.clean dense)
          (dense-Known codec crc32c plan planned) planned.dense_apart s.journaled s.journal

    experts-Done :
        (j : BuildJournal) (d : Disk)
        → Stage j d
        → RegionDone codec crc32c plan planned_items experts
            (expert_items plan)
            j
            (write_experts codec crc32c plan j)
            d
    unfolding write_experts
    experts-Done j d s = by_layout plan.expert_record refl
      where
        by_layout :
            (o : Option ExpertRecordLayout)
            → plan.expert_record ≡ o
            → RegionDone codec crc32c plan planned_items experts
                (expert_items plan)
                j
                (experts_by_layout codec crc32c plan j o)
                d
        by_layout none e =
            subst
              (λ l.
                RegionDone codec crc32c plan planned_items experts (map expert_item l) j
                  (experts_by_layout codec crc32c plan j none) d)
              (sym (planned.described e)) (nothing-Done experts j d s)
        by_layout (some layout) e =
            write_region-Done codec crc32c plan planned_items experts plan.expert_total 64
              (expert_items plan) j d (omega arith) (s.clean experts)
              (experts-Known codec crc32c plan planned) planned.experts_apart s.journaled s.journal

    ple-Done :
        (j : BuildJournal) (d : Disk)
        → Stage j d
        → RegionDone codec crc32c plan planned_items ple
            (ple_items plan)
            j
            (write_ple codec crc32c plan j)
            d
    unfolding write_ple
    ple-Done j d s =
        write_region-Done codec crc32c plan planned_items ple _ 1 (ple_items plan) j d (omega arith)
          (s.clean ple) (ple-Known codec crc32c plan planned) planned.ple_apart s.journaled
          s.journal

  -- The package holds every item of the plan, flushed, and the journal says so.
  pub record IsComplete (d : Disk) : Type 0 where
    pub clean : (r : Region) → d.unsynced r ≡ []
    pub kept : All (Kept codec crc32c plan planned_items d) planned_items
    pub journal : BuildJournal
    pub on_disk : d.journal ≡ some journal
    pub finished : journal.finished ≡ true
    pub listed : All (λ b. is_done journal b ≡ true) planned_items

  -- The journal that a build starts from agrees with the disk.
  start :
      (fingerprint : String) (d : Disk) (j : BuildJournal)
      → ((r : Region) → d.unsynced r ≡ [])
      → Safe d
      → load_journal true fingerprint d.journal ≡ ok j
      → Stage j d
  unfolding load_journal
  start fingerprint d j clean safe loaded = by_journal d.journal refl loaded
    where
      by_journal :
          (o : Option BuildJournal)
          → d.journal ≡ o
          → load_journal true fingerprint o ≡ ok j
          → Stage j d
      by_journal none e l =
          subst (λ j. Stage j d) (ok-injective l)
            (record {
              journaled = All-always planned_items (λ i done. cc (new_done fingerprint i, done));
              journal = λ k e'. cc (e, e');
              clean = clean;
            })
      by_journal (some existing) e l =
          subst (λ j. Stage j d) (load_journal-existing fingerprint existing j l)
            (record {
              journaled = safe existing e;
              journal = λ k e'. some_inj (sym e' ∙ e);
              clean = clean;
            })

  finish-Complete :
      (j : BuildJournal) (metadata : Result (Unit {0})) (d : Disk)
      → Stage j d
      → AllDone j planned_items
      → Always Safe (finish_build j metadata).trace d
        × ((done : BuildJournal)
            → (finish_build j metadata).outcome ≡ ok done
            → IsComplete (run (finish_build j metadata).trace d))
  finish-Complete j (err e) d s all_done = (Stage-Safe j d s, λ done r. cc)
  finish-Complete j (ok _) d s all_done =
      let j' : BuildJournal = record j { finished = true } in
      let listed : All (λ b. is_done j' b ≡ true) planned_items =
        All-map planned_items (λ i done. finished_done j i ∙ done) all_done in
      let journaled : Journaled codec crc32c plan planned_items j' d =
        All-map planned_items (λ i kept done. kept (sym (finished_done j i) ∙ done)) s.journaled in
      let kept : All (Kept codec crc32c plan planned_items d) planned_items =
        All-zip_map planned_items (λ i k done. k done) s.journaled all_done in
      (
        (
          Stage-Safe j d s,
          Recoverable-Journaled codec crc32c plan planned_items j' (apply_effect (saved j') d)
              journaled (λ k e. sym (some_inj e)),
        ),
        λ done r. record {
          clean = s.clean;
          kept = kept;
          journal = j';
          on_disk = refl;
          finished = refl;
          listed = listed;
        },
      )

  -- A part of the build that is safe at every step, and complete once it returns.
  abbrev Finishes : Run BuildResult → Disk → Type 0
  Finishes r d =
      Always Safe r.trace d
      × ((res : BuildResult) → r.outcome ≡ ok res → IsComplete (run r.trace d))

  abbrev CompleteAt : BuildResult → Disk → Type 0
  CompleteAt res x = IsComplete x

  module _ (planned : IsPlanned codec crc32c plan) (metadata : Result (Unit {0})) where
    after_ple-Finishes :
        (a b c : RegionResult) (d : Disk)
        → Stage c.journal d
        → AllDone c.journal planned_items
        → Finishes (after_ple codec crc32c plan metadata a b c) d
    after_ple-Finishes a b c d s all_done =
        let (safe, complete) = finish-Complete c.journal metadata d s all_done in
        chain Safe CompleteAt (finish_build c.journal metadata) _ d safe (λ j j_ok.
          let whole = complete j j_ok in
          (λ k e. All-map planned_items (λ i kept done. kept) whole.kept, λ res r. whole))

    after_experts-Finishes :
        (a b : RegionResult) (d : Disk)
        → Stage b.journal d
        → AllDone b.journal (dense_items plan)
        → AllDone b.journal (expert_items plan)
        → Finishes (after_experts codec crc32c plan metadata a b) d
    after_experts-Finishes a b d s done1 done2 =
        let c_done = ple-Done planned b.journal d s in
        chain Safe CompleteAt (write_ple codec crc32c plan b.journal)
          (after_ple codec crc32c plan metadata a b) d c_done.always
          (λ c c_ok.
            let (s', done3, grown) =
              region_stage ple (ple_items plan) b.journal _ d s c_done c c_ok in
            after_ple-Finishes a b c (run (write_ple codec crc32c plan b.journal).trace d) s' (
              All-append (λ i. is_done c.journal i ≡ true) (dense_items plan)
                (expert_items plan ++ ple_items plan) (All-map (dense_items plan) grown done1)
                (All-append (λ i. is_done c.journal i ≡ true) (expert_items plan) (ple_items plan)
                  (All-map (expert_items plan) grown done2) done3)))

    after_dense-Finishes :
        (a : RegionResult) (d : Disk)
        → Stage a.journal d
        → AllDone a.journal (dense_items plan)
        → Finishes (after_dense codec crc32c plan metadata a) d
    after_dense-Finishes a d s done1 =
        let b_done = experts-Done planned a.journal d s in
        chain Safe CompleteAt (write_experts codec crc32c plan a.journal)
          (after_experts codec crc32c plan metadata a) d b_done.always
          (λ b b_ok.
            let (s', done2, grown) =
              region_stage experts (expert_items plan) a.journal _ d s b_done b b_ok in
            after_experts-Finishes a b (run (write_experts codec crc32c plan a.journal).trace d) s'
              (All-map (dense_items plan) grown done1) done2)

    after_index-Finishes :
        (j : BuildJournal) (d : Disk)
        → Stage j d
        → Finishes (after_index codec crc32c plan metadata j) d
    after_index-Finishes j d s =
        let a_done = dense-Done planned j d s in
        chain Safe CompleteAt (write_dense codec crc32c plan j)
          (after_dense codec crc32c plan metadata) d a_done.always
          (λ a a_ok.
            let (s', done1, grown) = region_stage dense (dense_items plan) j _ d s a_done a a_ok in
            after_dense-Finishes a (run (write_dense codec crc32c plan j).trace d) s' done1)

    build-Finishes :
        (fingerprint : String) (d : Disk) (preflight ple_index : Result (Unit {0}))
        → ((r : Region) → d.unsynced r ≡ [])
        → Safe d
        → Finishes
            (build codec crc32c plan true fingerprint d.journal preflight ple_index metadata)
            d
    unfolding build
    build-Finishes fingerprint d preflight ple_index clean safe =
        chain Safe CompleteAt (quiet (preflight >> load_journal true fingerprint d.journal)) _ d
          safe
          (λ journal loaded.
            let (_, passed, l) =
              >>=-eq-ok preflight (λ _. load_journal true fingerprint d.journal) loaded in
            chain Safe CompleteAt (quiet ple_index)
              (λ _. after_index codec crc32c plan metadata journal) d safe
              (λ _ indexed.
                after_index-Finishes journal d (start fingerprint d journal clean safe l)))

-- Where there is no journal to resume from, `resume` does not matter.
build-resume :
    {Source Tensor : Type 0} (codec : Codec Source Tensor) (crc32c : List ℕ → ℕ)
    (plan : BuildPlan Source) (resume : Bool) (fingerprint : String)
    (existing : Option BuildJournal) (preflight ple_index metadata : Result (Unit {0}))
    → (resume ≡ true) ⊎ (existing ≡ none)
    → build codec crc32c plan resume fingerprint existing preflight ple_index metadata
      ≡ build codec crc32c plan true fingerprint existing preflight ple_index metadata
unfolding build load_journal
build-resume codec crc32c plan resume fingerprint existing preflight ple_index metadata (inl e) =
    ap (λ r. build codec crc32c plan r fingerprint existing preflight ple_index metadata) e
build-resume codec crc32c plan resume fingerprint existing preflight ple_index metadata (inr e) =
    rw e refl

-- A build that resumes (`resume = true`), or that finds no journal, may stop at any effect, by an
-- exception (of the disk too) or a crash that loses or garbles whatever was not flushed: if the plan's
-- items do not overlap (`IsPlanned`), and the disk was such that every item of its journal is in the
-- files, then after the crash it is so again, so that the next build can resume.
pub build_durable :
    {Source Tensor : Type 0} (codec : Codec Source Tensor) (crc32c : List ℕ → ℕ)
    (plan : BuildPlan Source) (resume : Bool) (fingerprint : String) (d after : Disk)
    (preflight ple_index metadata : Result (Unit {0})) (done rest : List Effect)
    → IsPlanned codec crc32c plan
    → (resume ≡ true) ⊎ (d.journal ≡ none)
    → ((r : Region) → d.unsynced r ≡ [])
    → Recoverable codec crc32c plan (all_items plan) d
    → (build codec crc32c plan resume fingerprint d.journal preflight ple_index metadata).trace
      ≡ done ++ rest
    → Crashed (run done d) after
    → ((r : Region) → after.unsynced r ≡ []) × Recoverable codec crc32c plan (all_items plan) after
build_durable codec crc32c plan resume fingerprint d after preflight ple_index metadata done rest
      planned resumes clean safe split crashed =
    let Safe = Recoverable codec crc32c plan (all_items plan) in
    let (always, _) =
      build-Finishes codec crc32c plan planned metadata fingerprint d preflight ple_index clean
        safe in
    let resumed =
      build-resume codec crc32c plan resume fingerprint d.journal preflight ple_index metadata
        resumes in
    let same = sym (ap (λ r. r.trace) resumed) ∙ split in
    let here = Always-before Safe done rest d (subst (λ t. Always Safe t d) same always) in
    (
      crashed.unsynced,
      λ j e.
          All-map (all_items plan)
            (λ i kept listed.
              Crashed-Kept codec crc32c plan (all_items plan) (run done d) after crashed i
                (kept listed))
            (here j (sym crashed.journal ∙ e)),
    )

-- A build with `resume = true` that returns, whether it found no journal or resumed after any number of
-- interruptions, has flushed the bytes of every item of the plan to their places, and has saved a
-- finished journal that lists them all: if the plan's items do not overlap (`IsPlanned`), and every
-- item of the journal that it found was in the files.
pub build-IsComplete :
    {Source Tensor : Type 0} (codec : Codec Source Tensor) (crc32c : List ℕ → ℕ)
    (plan : BuildPlan Source) (fingerprint : String) (d : Disk)
    (preflight ple_index metadata : Result (Unit {0})) (result : BuildResult)
    → IsPlanned codec crc32c plan
    → ((r : Region) → d.unsynced r ≡ [])
    → Recoverable codec crc32c plan (all_items plan) d
    → (build codec crc32c plan true fingerprint d.journal preflight ple_index metadata).outcome
      ≡ ok result
    → IsComplete codec crc32c plan (
        run
          (build codec crc32c plan true fingerprint d.journal preflight ple_index metadata).trace
          d)
build-IsComplete codec crc32c plan fingerprint d preflight ple_index metadata result planned clean
      safe returned =
    let (_, complete) =
      build-Finishes codec crc32c plan planned metadata fingerprint d preflight ple_index clean
        safe in
    complete result returned
