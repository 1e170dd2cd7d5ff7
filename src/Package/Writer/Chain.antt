-- ===== src/Package/Writer/Chain.antt =====
-- Statements in sequence, and the items that the first and the last journal of a build list.
use Prim.Native.String.{String}
use pocket_titan.Prelude.{◌≡◌, refl, sym, false, true, Result, ok, err, subst}
use pocket_titan.Package.Journal.{
  BuildJournal, WorkItem, dense_item, expert_item, ple_item, is_done, new_journal, member,
}
use pocket_titan.Package.Effects.{Run, continue_run, then_run}
use pocket_titan.Package.Writer.Disk.{Disk, run}
use pocket_titan.Package.Writer.Batch.{Always, run-append, Always-append}

-- A chain of statements: every prefix of its effects is safe if those of its parts are.
pub chain :
    {A B : Type 0} (P : Disk → Type 0) (Q : B → Disk → Type 0) (first : Run A) (next : A → Run B)
    (d : Disk)
    → Always P first.trace d
    → ((a : A)
        → first.outcome ≡ ok a
        → Always P (next a).trace (run first.trace d)
          × ((b : B) → (next a).outcome ≡ ok b → Q b (run (next a).trace (run first.trace d))))
    → Always P (then_run first next).trace d
      × ((b : B) → (then_run first next).outcome ≡ ok b → Q b (run (then_run first next).trace d))
chain {A} {B} P Q first next d safe later = by_outcome first.outcome refl
  where
    by_outcome :
        (r : Result A)
        → first.outcome ≡ r
        → Always P (continue_run first.trace r next).trace d
          × ((b : B)
              → (continue_run first.trace r next).outcome ≡ ok b
              → Q b (run (continue_run first.trace r next).trace d))
    by_outcome (err e) same = (safe, λ b r. cc)
    by_outcome (ok a) same =
        let (safe', good) = later a same in
        (
          Always-append P first.trace (next a).trace d safe safe',
          λ b r. subst (Q b) (sym (run-append first.trace (next a).trace d)) (good b r),
        )

pub finished_done :
    {Source : Type 0} (j : BuildJournal) (i : WorkItem Source)
    → is_done (record j { finished = true }) i ≡ is_done j i
unfolding is_done
finished_done j (dense_item i) = refl
finished_done j (expert_item i) = refl
finished_done j (ple_item i) = refl

pub new_done :
    {Source : Type 0} (fingerprint : String) (i : WorkItem Source)
    → is_done (new_journal fingerprint) i ≡ false
unfolding is_done member
new_done fingerprint (dense_item i) = refl
new_done fingerprint (expert_item i) = refl
new_done fingerprint (ple_item i) = refl
