-- ===== src/Package/PlePlan.antt =====
-- pockettitan/package/plan.py: `_plan_ple`, from the source tensors of the n-gram table to the row
-- ranges that they fill. What the scan of the checkpoint and the precision map give, the row layout
-- and the tensors with their shard numbers and rows, is an argument.
pub mod Resolve
use pocket_titan.Prelude.{
  ℕ, suc, ◌+◌, ◌-◌, Bool, ◌||◌, List, [], ◌∷◌, leb, ltb, ◌==◌, if◌then◌else◌, length, map,
}
use pocket_titan.Format.PleRow.{PleRowLayout, row_offset}
use pocket_titan.Format.PleIndex.{PleShardMapping, PlePlan}

pub record PleTable : Type 0 where
  pub index : ℕ
  pub rows : ℕ

pub record PleShardWorkItem : Type 0 where
  pub shard_index : ℕ
  pub first_row : ℕ
  pub logical_first_row : ℕ
  pub num_rows : ℕ
  pub byte_offset : ℕ

-- `table_tensors.sort(key=...)`, which is stable.
unfoldable pub insert_table : PleTable → List PleTable → List PleTable
insert_table t [] = t ∷ []
insert_table t (u ∷ tables) =
    let rest = insert_table t tables in if leb t.index u.index then t ∷ u ∷ tables else u ∷ rest

unfoldable pub sort_tables : List PleTable → List PleTable
unfolding insert_table
sort_tables [] = []
sort_tables (t ∷ tables) = insert_table t (sort_tables tables)

unfoldable pub logical_rows : ℕ → List PleTable → List (PleTable × ℕ)
logical_rows logical_cursor [] = []
logical_rows logical_cursor (t ∷ tables) =
    (t, logical_cursor) ∷ logical_rows (logical_cursor + t.rows) tables

unfoldable pub logical_total : ℕ → List PleTable → ℕ
logical_total logical_cursor [] = logical_cursor
logical_total logical_cursor (t ∷ tables) = logical_total (logical_cursor + t.rows) tables

-- A canary build keeps the first and the last of `count` tensors.
unfoldable pub select_canary : ℕ → ℕ → List (PleTable × ℕ) → List (PleTable × ℕ)
select_canary count index [] = []
select_canary count index (item ∷ items) =
    let rest = select_canary count (suc index) items in
    if index == 0 || index == count - 1 then item ∷ rest else rest

-- The loop over the selected tensors, from a physical row on.
unfoldable pub place_shards : PleRowLayout → ℕ → List (PleTable × ℕ) → List PleShardWorkItem
place_shards row physical_cursor [] = []
place_shards row physical_cursor ((t, logical_first_row) ∷ items) =
    record {
      shard_index = t.index;
      first_row = physical_cursor;
      logical_first_row = logical_first_row;
      num_rows = t.rows;
      byte_offset = row_offset row physical_cursor;
    }
    ∷ place_shards row (physical_cursor + t.rows) items

unfoldable pub physical_total : ℕ → List (PleTable × ℕ) → ℕ
physical_total physical_cursor [] = physical_cursor
physical_total physical_cursor ((t, _) ∷ items) = physical_total (physical_cursor + t.rows) items

-- The mapping of a shard that `build_ple_index` writes.
abbrev pub mapping : PleShardWorkItem → PleShardMapping
mapping item = record {
  shard_index = item.shard_index;
  logical_first_row = item.logical_first_row;
  physical_first_row = item.first_row;
  num_rows = item.num_rows;
}

abbrev pub selected : Bool → List PleTable → List (PleTable × ℕ)
selected canary tables =
    if canary
    then select_canary (length tables) 0 (logical_rows 0 tables)
    else logical_rows 0 tables

unfoldable pub plan_ple : PleRowLayout → ℕ → Bool → List PleTable → PlePlan
unfolding sort_tables logical_rows logical_total select_canary place_shards physical_total
plan_ple row source_layer canary table_tensors =
    let tables = sort_tables table_tensors in
    record {
      logical_total_rows = logical_total 0 tables;
      total_rows = physical_total 0 (selected canary tables);
      shards = map mapping (place_shards row 0 (selected canary tables));
      row = row;
      source_layer = source_layer;
    }
