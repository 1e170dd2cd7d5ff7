-- ===== src/Package/Writer.antt =====
-- pockettitan/package/writer.py: `PackageWriter.build` and the three region writers. What a build does
-- to the disk is the list of its effects in order, up to the exception that ends it; progress callbacks
-- and timing are left out. `durable_replace` makes the journal's replacement one effect. An OSError of a
-- write, a flush or a preallocation ends the list early: what is proved of every beginning of the list
-- holds of such a run too.
pub mod Bytes
pub mod Disk
pub mod Batch
mod Commit
mod Apart
pub mod Durable
mod Regions
mod Filter
pub mod Planned
mod Chain
pub mod Complete
pub mod Returns
use Prim.Native.String.{String}
use native.Mathlib.Decide.{ℕ_discrete}
use pocket_titan.Prelude.{
  ℕ, zero, suc, ◌+◌, ◌-◌, ◌*◌, Bool, true, false, not, Option, none, some, List, [], ◌∷◌, ◌++◌,
  if◌then◌else◌, length, take, drop, map, Result, ok, err, attribute_error, ◌>>=◌, ◌>>◌,
}
use pocket_titan.Prelude.Dict as Dict
use pocket_titan.Format.PleRow.{PleRowLayout, row_offset}
use pocket_titan.Format.Record.{ExpertRecordLayout}
use pocket_titan.Package.Encode.{
  DenseWorkItem, ExpertWorkItem, PleShardWorkItem, Codec, encode_dense, encode_expert,
  encode_ple_shard,
}
use pocket_titan.Package.Journal.{
  ItemChecksum, BuildJournal, BuildPlan, PlePlan, WorkItem, dense_item, expert_item, ple_item,
  string_discrete, is_done, filter_items, dense_items, expert_items, ple_items, num_work_items,
  load_journal,
}
use pocket_titan.Package.Effects.{
  Region, dense, experts, ple, Effect, allocated, wrote, synced, saved, Run, return_run,
  continue_run, then_run, quiet, write_effects, region_of,
}

-- `_batches`: slices of `size` items; a range has at most as many steps as there are items.
unfoldable pub batches_from : {A : Type 0} → ℕ → ℕ → List A → List (List A)
batches_from zero size items = []
batches_from (suc steps) size [] = []
batches_from (suc steps) size (i ∷ items) =
    take size (i ∷ items) ∷ batches_from steps size (drop size (i ∷ items))

abbrev pub batches : {A : Type 0} → ℕ → List A → List (List A)
batches size items = batches_from (length items) size items

abbrev pub expert_batch_items : ℕ
expert_batch_items = 64

unfoldable pub pending_items :
    {Source : Type 0} → BuildJournal → List (WorkItem Source) → List (WorkItem Source)
unfolding filter_items is_done
pending_items journal items = filter_items (λ i. not (is_done journal i)) items

-- The end of `build`: the metadata, and the journal that says the build is finished.
abbrev pub finish_build : BuildJournal → Result (Unit {0}) → Run BuildJournal
finish_build journal metadata =
    let done = record journal { finished = true } in
    then_run (record { trace = []; outcome = metadata })
      (λ _. record { trace = saved done ∷ []; outcome = ok done })

pub record RegionResult : Type 0 where
  pub journal : BuildJournal
  pub written : ℕ
  pub skipped : ℕ

pub record BuildResult : Type 0 where
  pub items_written : ℕ
  pub items_skipped : ℕ
  pub bytes_written : ℕ

module _ {Source Tensor : Type 0} (codec : Codec Source Tensor) (crc32c : List ℕ → ℕ) where
  abbrev encode_expert_of : Option ExpertRecordLayout → ExpertWorkItem Source → Result (List ℕ)
  encode_expert_of none i = err attribute_error
  encode_expert_of (some layout) i = encode_expert codec layout i

  abbrev encode_ple_of : Option (PlePlan Source) → PleShardWorkItem Source → Result (List ℕ)
  encode_ple_of none i = err attribute_error
  encode_ple_of (some plan) i = encode_ple_shard codec plan.row plan.row_spans i

  -- The payload of an item: read, quantized and serialized.
  unfoldable pub encode_item : BuildPlan Source → WorkItem Source → Result (List ℕ)
  encode_item plan (dense_item i) = codec.read i.source >>= λ tensor. encode_dense codec i tensor
  encode_item plan (expert_item i) = encode_expert_of plan.expert_record i
  encode_item plan (ple_item i) = encode_ple_of plan.ple i

  -- The rows of a shard from `row_id` on, each at its place in the table.
  unfoldable pub row_writes : PleRowLayout → ℕ → ℕ → List ℕ → List (ℕ × List ℕ)
  row_writes row row_id zero block = []
  row_writes row row_id (suc count) block =
      (row_offset row row_id, take row.payload_bytes block)
      ∷ row_writes row (suc row_id) count (drop row.payload_bytes block)

  abbrev row_writes_of :
      Option (PlePlan Source) → PleShardWorkItem Source → List ℕ → List (ℕ × List ℕ)
  row_writes_of none i block = []
  row_writes_of (some plan) i block = row_writes plan.row i.first_row i.num_rows block

  -- `seek` and `write` of an item's payload.
  unfoldable pub item_writes : BuildPlan Source → WorkItem Source → List ℕ → List (ℕ × List ℕ)
  unfolding row_writes
  item_writes plan (dense_item i) payload = (i.byte_offset, payload) ∷ []
  item_writes plan (expert_item i) payload = (i.bank_offset, payload) ∷ []
  item_writes plan (ple_item i) payload = row_writes_of plan.ple i payload

  -- The journal with one more completed item.
  unfoldable pub mark : WorkItem Source → List ℕ → BuildJournal → BuildJournal
  mark (dense_item i) payload j = record j {
    dense_done = j.dense_done ++ i.name ∷ [];
    dense_checksums =
        Dict.set string_discrete i.name
          (record {
            value = crc32c payload;
            offset = some i.byte_offset;
            byte_length = length payload;
            first_row = none;
            num_rows = none;
          })
          j.dense_checksums;
  }
  mark (expert_item i) payload j = record j {
    expert_done = j.expert_done ++ i.record_index ∷ [];
    expert_checksums =
        Dict.set ℕ_discrete i.record_index
          (record {
            value = crc32c payload;
            offset = some i.bank_offset;
            byte_length = length payload;
            first_row = none;
            num_rows = none;
          })
          j.expert_checksums;
  }
  mark (ple_item i) payload j = record j {
    ple_done = j.ple_done ++ i.shard_index ∷ [];
    ple_checksums =
        Dict.set ℕ_discrete i.shard_index
          (record {
            value = crc32c payload;
            offset = none;
            byte_length = length payload;
            first_row = some i.first_row;
            num_rows = some i.num_rows;
          })
          j.ple_checksums;
  }

  -- The items of a batch are encoded and written one after the other, before the batch is committed.
  unfoldable pub write_items :
      BuildPlan Source → List (WorkItem Source) → Run (List (WorkItem Source × List ℕ))
  unfolding encode_item item_writes
  write_items plan [] = return_run []
  write_items plan (i ∷ items) =
      let later = write_items plan items in written later (encode_item plan i)
    where
      committed :
          List ℕ → Run (List (WorkItem Source × List ℕ)) → Run (List (WorkItem Source × List ℕ))
      committed payload later = record {
        trace = write_effects (region_of i) (item_writes plan i payload) ++ later.trace;
        outcome = later.outcome >>= λ items. ok ((i, payload) ∷ items);
      }

      written :
          Run (List (WorkItem Source × List ℕ))
          → Result (List ℕ)
          → Run (List (WorkItem Source × List ℕ))
      written later (err error) = record { trace = []; outcome = err error }
      written later (ok payload) = committed payload later

  unfoldable pub mark_all : List (WorkItem Source × List ℕ) → BuildJournal → BuildJournal
  unfolding mark
  mark_all [] j = j
  mark_all ((i, payload) ∷ committed) j = mark_all committed (mark i payload j)

  abbrev pub payload_total : List (WorkItem Source × List ℕ) → ℕ
  payload_total [] = 0
  payload_total ((_, payload) ∷ committed) = length payload + payload_total committed

  -- One batch: its items, the flush of the region, and the journal that names them.
  unfoldable pub write_batch :
      BuildPlan Source → Region → List (WorkItem Source) → BuildJournal → Run (BuildJournal × ℕ)
  unfolding write_items mark_all
  write_batch plan region batch journal = then_run (write_items plan batch) (λ committed. record {
    trace = synced region ∷ saved (mark_all committed journal) ∷ [];
    outcome = ok (mark_all committed journal, payload_total committed);
  })

  -- The journal, and the bytes written so far.
  unfoldable pub write_batches :
      BuildPlan Source
      → Region
      → List (List (WorkItem Source))
      → BuildJournal
      → ℕ
      → Run (BuildJournal × ℕ)
  unfolding write_batch
  write_batches plan region [] journal written = return_run (journal, written)
  write_batches plan region (batch ∷ later) journal written =
      then_run (write_batch plan region batch journal)
        (λ (journal', bytes). write_batches plan region later journal' (written + bytes))

  -- Where nothing is pending, the region is not touched.
  unfoldable pub region_run :
      BuildPlan Source
      → Region
      → ℕ
      → ℕ
      → List (WorkItem Source)
      → BuildJournal
      → Run (BuildJournal × ℕ)
  unfolding write_batches batches_from
  region_run plan region total size [] journal = return_run (journal, 0)
  region_run plan region total size (i ∷ pending) journal =
      then_run (record { trace = allocated region total ∷ []; outcome = ok tt })
        (λ _. write_batches plan region (batches size (i ∷ pending)) journal 0)

  -- The common shape of the region writers, which also return the number of items skipped.
  unfoldable pub write_region :
      BuildPlan Source → Region → ℕ → ℕ → List (WorkItem Source) → BuildJournal → Run RegionResult
  unfolding region_run pending_items
  write_region plan region total size items journal =
      let pending = pending_items journal items in
      then_run (region_run plan region total size pending journal) (λ (journal', written).
        return_run (record {
          journal = journal';
          written = written;
          skipped = length items - length pending;
        }))

  unfoldable pub write_dense : BuildPlan Source → BuildJournal → Run RegionResult
  unfolding write_region
  write_dense plan journal = write_region plan dense plan.dense_total 1 (dense_items plan) journal

  abbrev experts_by_layout :
      BuildPlan Source → BuildJournal → Option ExpertRecordLayout → Run RegionResult
  experts_by_layout plan journal none =
      return_run (record { journal = journal; written = 0; skipped = 0 })
  experts_by_layout plan journal (some layout) =
      write_region plan experts plan.expert_total expert_batch_items (expert_items plan) journal

  unfoldable pub write_experts : BuildPlan Source → BuildJournal → Run RegionResult
  unfolding write_region
  write_experts plan journal = experts_by_layout plan journal plan.expert_record

  abbrev ple_bytes : Option (PlePlan Source) → ℕ
  ple_bytes none = 0
  ple_bytes (some plan) = plan.total_bytes

  unfoldable pub write_ple : BuildPlan Source → BuildJournal → Run RegionResult
  unfolding write_region
  write_ple plan journal = write_region plan ple (ple_bytes plan.ple) 1 (ple_items plan) journal

  abbrev pub summary : BuildPlan Source → RegionResult → RegionResult → RegionResult → BuildResult
  summary plan a b c = record {
    items_written = num_work_items plan - (a.skipped + (b.skipped + c.skipped));
    items_skipped = a.skipped + (b.skipped + c.skipped);
    bytes_written = a.written + (b.written + c.written);
  }

  -- `build` in parts, each up to the next statement that may raise.
  abbrev pub after_ple :
      BuildPlan Source
      → Result (Unit {0})
      → RegionResult
      → RegionResult
      → RegionResult
      → Run BuildResult
  after_ple plan metadata a b c =
      then_run (finish_build c.journal metadata) (λ _. return_run (summary plan a b c))

  abbrev pub after_experts :
      BuildPlan Source → Result (Unit {0}) → RegionResult → RegionResult → Run BuildResult
  after_experts plan metadata a b =
      then_run (write_ple plan b.journal) (after_ple plan metadata a b)

  abbrev pub after_dense : BuildPlan Source → Result (Unit {0}) → RegionResult → Run BuildResult
  after_dense plan metadata a =
      then_run (write_experts plan a.journal) (after_experts plan metadata a)

  abbrev pub after_index : BuildPlan Source → Result (Unit {0}) → BuildJournal → Run BuildResult
  after_index plan metadata journal =
      then_run (write_dense plan journal) (after_dense plan metadata)

  -- `build`: the check of the free space, the PLE index and the metadata files are results here.
  unfoldable pub build :
      BuildPlan Source
      → Bool
      → String
      → Option BuildJournal
      → Result (Unit {0})
      → Result (Unit {0})
      → Result (Unit {0})
      → Run BuildResult
  unfolding load_journal write_dense write_experts write_ple
  build plan resume fingerprint existing preflight ple_index metadata =
      then_run (quiet (preflight >> load_journal resume fingerprint existing))
        (λ journal. then_run (quiet ple_index) (λ _. after_index plan metadata journal))
