-- ===== src/Package/Journal.antt =====
-- pockettitan/package/writer.py: `BuildJournal`, the work items of a plan, `_load_journal` and
-- `resume_status`. The fingerprint of a plan, a hash of its JSON, is an argument. The dicts of
-- checksums are keyed by the name or the index of the item; the source prints an index.
pub mod Marks
use Prim.Native.String.{String}
use native.Mathlib.Decide.{ℕ_discrete}
use text.Mathlib.Text.{◌==◌ as str_eq}
use text.Mathlib.TextEquality.{eq_iff}
use mathlib.Core.Logic.{ite}
use pocket_titan.Prelude.{
  ℕ, ◌+◌, ◌≡◌, ◌≢◌, refl, Bool, true, false, not, ◌&&◌, Option, none, some, List, [], ◌∷◌, ◌++◌,
  if◌then◌else◌, length, map, sum, Result, ok, runtime_error, guard, ◌>>◌, ◌>>=◌,
}
use pocket_titan.Prelude.Dict.{Dict, is_some}
use pocket_titan.Prelude.Dict as Dict
use pocket_titan.Format.Spans.{SectionSpan}
use pocket_titan.Format.Record.{ExpertRecordLayout}
use pocket_titan.Format.PleRow.{PleRowLayout}
use pocket_titan.Package.Encode.{DenseWorkItem, ExpertWorkItem, PleShardWorkItem, SourceSlice}

pub str_other : (s t : String) → str_eq s t ≡ false → s ≢ t
str_other s t other same = cc (other, (eq_iff s t).1 same)

-- Names are compared as the source compares them.
abbrev pub decide_string : (s t : String) (same : Bool) → str_eq s t ≡ same → Dec (s ≡ t)
decide_string s t true e = yes ((eq_iff s t).0 e)
decide_string s t false e = no (str_other s t e)

abbrev pub string_discrete : Discrete String
string_discrete s t = decide_string s t (str_eq s t) refl

-- `x in xs`
unfoldable pub member : {A : Type 0} → Discrete A → A → List A → Bool
member dec x [] = false
member dec x (y ∷ ys) = let rest = member dec x ys in ite (dec y x) true rest

pub record ItemChecksum : Type 0 where
  pub value : ℕ
  pub offset : Option ℕ
  pub byte_length : ℕ
  pub first_row : Option ℕ
  pub num_rows : Option ℕ

-- The checksums of experts and shards are stored under the decimal numeral of the key, which is the key
-- itself here.
pub record BuildJournal : Type 0 where
  pub plan_fingerprint : String
  pub dense_done : List String
  pub expert_done : List ℕ
  pub ple_done : List ℕ
  pub dense_checksums : Dict String ItemChecksum
  pub expert_checksums : Dict ℕ ItemChecksum
  pub ple_checksums : Dict ℕ ItemChecksum
  pub finished : Bool

abbrev pub new_journal : String → BuildJournal
new_journal fingerprint = record {
  plan_fingerprint = fingerprint;
  dense_done = [];
  expert_done = [];
  ple_done = [];
  dense_checksums = [];
  expert_checksums = [];
  ple_checksums = [];
  finished = false;
}

-- `set(done) - set(checksums)` is empty.
unfoldable pub all_checked : {A : Type 0} → Discrete A → List A → Dict A ItemChecksum → Bool
all_checked dec [] checksums = true
all_checked dec (x ∷ done) checksums =
    is_some (Dict.get dec x checksums) && all_checked dec done checksums

-- No checksum is missing.
unfoldable pub has_checksums : BuildJournal → Bool
unfolding all_checked
has_checksums j =
    all_checked string_discrete j.dense_done j.dense_checksums
    && all_checked ℕ_discrete j.expert_done j.expert_checksums
    && all_checked ℕ_discrete j.ple_done j.ple_checksums

-- `existing` is the journal on disk: none if there is no file, or one that does not parse.
unfoldable pub load_journal : Bool → String → Option BuildJournal → Result BuildJournal
unfolding has_checksums
load_journal resume fingerprint none = ok (new_journal fingerprint)
load_journal resume fingerprint (some existing) =
    if not resume
    then ok (new_journal fingerprint)
    else (guard (str_eq existing.plan_fingerprint fingerprint) runtime_error
        >> guard (has_checksums existing) runtime_error
        >> ok existing)

pub data WorkItem (Source : Type 0) : Type 0 where
  dense_item : DenseWorkItem Source → WorkItem Source
  expert_item : ExpertWorkItem Source → WorkItem Source
  ple_item : PleShardWorkItem Source → WorkItem Source

-- The n-gram table of a plan, with the spans of one row.
pub record PlePlan (Source : Type 0) : Type 0 where
  pub row : PleRowLayout
  pub row_spans : List SectionSpan
  pub total_bytes : ℕ
  pub shards : List (PleShardWorkItem Source)
  pub index_tensors : List Source

pub record BuildPlan (Source : Type 0) : Type 0 where
  pub dense_total : ℕ
  pub dense : List (DenseWorkItem Source)
  pub expert_total : ℕ
  pub expert_record : Option ExpertRecordLayout
  pub experts : List (ExpertWorkItem Source)
  pub ple : Option (PlePlan Source)

pub record ResumeStatus : Type 0 where
  pub items_completed : ℕ
  pub total_items : ℕ
  pub source_bytes_completed : ℕ
  pub total_source_bytes : ℕ
  pub finished : Bool

module _ {Source : Type 0} where
  abbrev pub shards_of : Option (PlePlan Source) → List (PleShardWorkItem Source)
  shards_of none = []
  shards_of (some ple) = ple.shards

  abbrev pub num_work_items : BuildPlan Source → ℕ
  num_work_items plan = length plan.dense + (length plan.experts + length (shards_of plan.ple))

  -- The test of a region's `pending` list: whether the item is in the journal's `done` set.
  unfoldable pub is_done : BuildJournal → WorkItem Source → Bool
  unfolding member
  is_done journal (dense_item i) = member string_discrete i.name journal.dense_done
  is_done journal (expert_item i) = member ℕ_discrete i.record_index journal.expert_done
  is_done journal (ple_item i) = member ℕ_discrete i.shard_index journal.ple_done

  -- The items of a list that are in the journal, or that are not.
  unfoldable pub filter_items :
      (WorkItem Source → Bool) → List (WorkItem Source) → List (WorkItem Source)
  filter_items keep [] = []
  filter_items keep (i ∷ items) =
      let rest = filter_items keep items in if keep i then i ∷ rest else rest

  abbrev pub dense_items : BuildPlan Source → List (WorkItem Source)
  dense_items plan = map dense_item plan.dense

  abbrev pub expert_items : BuildPlan Source → List (WorkItem Source)
  expert_items plan = map expert_item plan.experts

  abbrev pub ple_items : BuildPlan Source → List (WorkItem Source)
  ple_items plan = map ple_item (shards_of plan.ple)

  -- Source bytes of an item, as its address gives them.
  module _ (source_bytes : Source → ℕ) where
    abbrev pub item_bytes : WorkItem Source → ℕ
    item_bytes (dense_item i) = source_bytes i.source
    item_bytes (expert_item i) = sum (map (λ s. source_bytes s.source) i.projections)
    item_bytes (ple_item i) = source_bytes i.source

    abbrev index_bytes : Option (PlePlan Source) → ℕ
    index_bytes none = 0
    index_bytes (some ple) = sum (map source_bytes ple.index_tensors)

    -- `BuildPlan.source_read_bytes`
    abbrev pub source_read_bytes : BuildPlan Source → ℕ
    source_read_bytes plan =
        sum (map item_bytes (dense_items plan))
        + (sum (map item_bytes (expert_items plan)) + sum (map item_bytes (ple_items plan)))
        + index_bytes plan.ple

    unfoldable pub resume_status :
        Bool → String → Option BuildJournal → BuildPlan Source → Result ResumeStatus
    unfolding load_journal filter_items
    resume_status resume fingerprint existing plan = do
      journal ← load_journal resume fingerprint existing
      let dense_completed = filter_items (is_done journal) (dense_items plan)
      let expert_completed = filter_items (is_done journal) (expert_items plan)
      let ple_completed = filter_items (is_done journal) (ple_items plan)
      ok (record {
        items_completed = length dense_completed + (length expert_completed + length ple_completed);
        total_items = num_work_items plan;
        source_bytes_completed =
            sum (map item_bytes dense_completed)
            + (sum (map item_bytes expert_completed) + sum (map item_bytes ple_completed));
        total_source_bytes = source_read_bytes plan;
        finished = journal.finished;
      })
