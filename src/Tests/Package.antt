-- ===== src/Tests/Package.antt =====
-- Three tensors of the n-gram table, found out of order.
use pocket_titan.Prelude.{◌<◌, ◌≡◌, refl, true, false, some, none, List, [], ◌∷◌, map, arith}
use pocket_titan.Format.PleRow.{PleRowLayout, row_offset}
use pocket_titan.Format.PleIndex.{find_row}
use pocket_titan.Package.PlePlan.{PleTable, plan_ple}
use pocket_titan.Package.PlePlan.Resolve.{plan_ple_within, plan_ple_full, table_of, InOrder}
use mathlib.Core.List.{Perm}

program : Unit {0}
unfolding plan_ple find_row row_offset
program = tt

abbrev row : PleRowLayout
row = record {
  row_width = 1;
  bits = 8;
  group_size = 1;
  symmetric = true;
  codec_id = "pt.ple.rtn.v1";
  payload_bytes = 1;
  rows_per_page = 4;
  page_bytes = 4;
}

abbrev tables : List PleTable
tables =
    record { index = 2; rows = 4 }
    ∷ record { index = 0; rows = 3 }
    ∷ record { index = 1; rows = 5 }
    ∷ []

full : find_row (plan_ple row 1 false tables).shards 9 ≡ some 9
unfolding program
full = refl

-- The canary build leaves the middle tensor out: row 9 moves to 4, and row 5 is not there.
canary :
    (find_row (plan_ple row 1 true tables).shards 9 ≡ some 4)
    × (find_row (plan_ple row 1 true tables).shards 5 ≡ none)
    × ((plan_ple row 1 true tables).total_rows ≡ 7)
unfolding program
canary = (refl, refl, refl)

plan_ple_within_example : 4 < (plan_ple row 1 true tables).total_rows
plan_ple_within_example = plan_ple_within row 1 true tables 9 4 canary.0

total_lem : (plan_ple row 1 false tables).logical_total_rows ≡ 12
unfolding program
total_lem = refl

plan_ple_full_example :
    Perm (map table_of (plan_ple row 1 false tables).shards) tables
    × InOrder (map (λ s. s.shard_index) (plan_ple row 1 false tables).shards)
    × ((plan_ple row 1 false tables).total_rows ≡ (plan_ple row 1 false tables).logical_total_rows)
    × (find_row (plan_ple row 1 false tables).shards 9 ≡ some 9)
plan_ple_full_example = plan_ple_full row 1 tables 9 (omega (arith, total_lem))
