-- ===== src/Package/Effects.antt =====
-- What the code of pockettitan/package/writer.py does to the disk: a run of a statement is the list of
-- its effects in order, beside what it returns or raises.
use pocket_titan.Prelude.{ℕ, List, [], ◌++◌, map, Result, ok, err}
use pocket_titan.Package.Journal.{BuildJournal, WorkItem, dense_item, expert_item, ple_item}

-- The region files: dense/blob.bin, experts/bank.bin and ple/table.bin.
pub data Region : Type 0 where
  dense experts ple : Region

-- `_preallocate`, `seek` and `write`, `flush` and `fsync`, and `_save_journal`.
pub data Effect : Type 0 where
  allocated : Region → ℕ → Effect
  wrote : Region → ℕ → List ℕ → Effect
  synced : Region → Effect
  saved : BuildJournal → Effect

-- What a part of the build did, and what it returned or raised.
pub record Run (A : Type 0) : Type 0 where
  pub trace : List Effect
  pub outcome : Result A

abbrev pub return_run : {A : Type 0} → A → Run A
return_run a = record { trace = []; outcome = ok a }

-- The next statement adds its effects, unless this one has raised.
abbrev pub continue_run : {A B : Type 0} → List Effect → Result A → (A → Run B) → Run B
continue_run trace (err error) next = record { trace = trace; outcome = err error }
continue_run trace (ok a) next = record {
  trace = trace ++ (next a).trace;
  outcome = (next a).outcome;
}

abbrev pub then_run : {A B : Type 0} → Run A → (A → Run B) → Run B
then_run first next = continue_run first.trace first.outcome next

abbrev pub region_of : {Source : Type 0} → WorkItem Source → Region
region_of (dense_item i) = dense
region_of (expert_item i) = experts
region_of (ple_item i) = ple

abbrev pub write_effects : Region → List (ℕ × List ℕ) → List Effect
write_effects region writes = map (λ w. wrote region w.0 w.1) writes

-- A statement that does not touch the disk.
abbrev pub quiet : {A : Type 0} → Result A → Run A
quiet outcome = record { trace = []; outcome = outcome }
