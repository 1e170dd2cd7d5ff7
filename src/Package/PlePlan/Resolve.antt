-- ===== src/Package/PlePlan/Resolve.antt =====
-- The order of the shards of a planned table, and what its index resolves to.
use pocket_titan.Prelude.{
  ℕ, ◌+◌, ◌-◌, ◌≤◌, ◌<◌, ◌≡◌, refl, Bool, false, ◌&&◌, some, List, [], ◌∷◌, leb, ltb, map, arith,
  inl, inr, Bool-cases, some_inj, All, subst, sym, ap, leb→le, leb→lt,
}
use mathlib.Core.List.{Perm}
use mathlib.Core.List.Perm
use pocket_titan.Format.PleRow.{PleRowLayout}
use pocket_titan.Format.PleIndex.{PleShardMapping, find_row}
use pocket_titan.Package.PlePlan.{
  PleTable, mapping, insert_table, sort_tables, logical_rows, logical_total, place_shards,
  physical_total, selected, plan_ple,
}

physical_total-le : (c : ℕ) (items : List (PleTable × ℕ)) → c ≤ physical_total c items
unfolding physical_total
physical_total-le c [] = omega arith
physical_total-le c ((t, _) ∷ items) = omega (arith, physical_total-le (c + t.rows) items)

find_row-physical_total :
    (row : PleRowLayout) (c : ℕ) (items : List (PleTable × ℕ)) (r p : ℕ)
    → find_row (map mapping (place_shards row c items)) r ≡ some p
    → (c ≤ p) × (p < physical_total c items)
unfolding find_row place_shards physical_total
find_row-physical_total row c [] r p e = cc
find_row-physical_total row c ((t, l) ∷ items) r p e =
    elim (Bool-cases (leb l r && ltb r (l + t.rows))) [
      | inl inside ↦
          let found : c + (r - l) ≡ p = some_inj (rw inside at e) in
          ground (arith, inside, physical_total-le (c + t.rows) items)
      | inr outside ↦
          let later = find_row-physical_total row (c + t.rows) items r p (rw outside at e) in
          omega (arith, later)
    ]

-- Whatever is built, full or canary, a row that resolves lies inside the rows of the table.
pub plan_ple_within :
    (row : PleRowLayout) (source_layer : ℕ) (canary : Bool) (tables : List PleTable) (r p : ℕ)
    → find_row (plan_ple row source_layer canary tables).shards r ≡ some p
    → p < (plan_ple row source_layer canary tables).total_rows
unfolding plan_ple
plan_ple_within row source_layer canary tables r p e =
    (find_row-physical_total row 0 (selected canary (sort_tables tables)) r p e).1

find_row_full :
    (row : PleRowLayout) (c : ℕ) (tables : List PleTable) (r : ℕ)
    → c ≤ r
    → r < logical_total c tables
    → find_row (map mapping (place_shards row c (logical_rows c tables))) r ≡ some r
unfolding find_row place_shards logical_rows logical_total
find_row_full row c [] r le lt = absurd (omega arith)
find_row_full row c (t ∷ tables) r le lt = elim (Bool-cases (ltb r (c + t.rows))) [
  | inl inside ↦ ground arith
  | inr outside ↦ ground (arith, find_row_full row (c + t.rows) tables r)
]

physical_total-logical :
    (c : ℕ) (tables : List PleTable)
    → physical_total c (logical_rows c tables) ≡ logical_total c tables
unfolding physical_total logical_rows logical_total
physical_total-logical c [] = refl
physical_total-logical c (t ∷ tables) = physical_total-logical (c + t.rows) tables

-- Each index is at most those of the shards behind it.
abbrev pub InOrder : List ℕ → Type 0
InOrder [] = Unit
InOrder (index ∷ indices) = All (λ later. index ≤ later) indices × InOrder indices

-- The tensor that a shard holds.
abbrev pub table_of : PleShardMapping → PleTable
table_of s = record { index = s.shard_index; rows = s.num_rows }

insert_table-Perm :
    (t : PleTable) (tables : List PleTable) → Perm (insert_table t tables) (t ∷ tables)
unfolding insert_table
insert_table-Perm t [] = Perm.refl _
insert_table-Perm t (u ∷ tables) = elim (Bool-cases (leb t.index u.index)) [
  | inl before ↦ rw before (Perm.refl _)
  | inr behind ↦ rw behind (Perm.trans (Perm.cons u (insert_table-Perm t tables)) (Perm.swap _ _ _))
]

sort_tables-Perm : (tables : List PleTable) → Perm (sort_tables tables) tables
unfolding sort_tables
sort_tables-Perm [] = Perm.refl _
sort_tables-Perm (t ∷ tables) =
    Perm.trans (insert_table-Perm t (sort_tables tables)) (Perm.cons t (sort_tables-Perm tables))

abbrev indices : List PleTable → List ℕ
indices tables = map (λ t. t.index) tables

insert_table-All :
    (least : ℕ) (t : PleTable) (tables : List PleTable)
    → least ≤ t.index
    → All (λ later. least ≤ later) (indices tables)
    → All (λ later. least ≤ later) (indices (insert_table t tables))
unfolding insert_table
insert_table-All least t [] h k = (h, tt)
insert_table-All least t (u ∷ tables) h k = elim (Bool-cases (leb t.index u.index)) [
  | inl before ↦ rw before (h, k)
  | inr behind ↦ rw behind (k.0, insert_table-All least t tables h k.1)
]

All-trans : (a b : ℕ) (l : List ℕ) → a ≤ b → All (λ later. b ≤ later) l → All (λ later. a ≤ later) l
All-trans a b [] h k = tt
All-trans a b (x ∷ l) h k = (omega (arith, k.0), All-trans a b l h k.1)

insert_table-InOrder :
    (t : PleTable) (tables : List PleTable)
    → InOrder (indices tables)
    → InOrder (indices (insert_table t tables))
unfolding insert_table
insert_table-InOrder t [] h = (tt, tt)
insert_table-InOrder t (u ∷ tables) h = elim (Bool-cases (leb t.index u.index)) [
  | inl before ↦
      let le : t.index ≤ u.index = leb→le _ _ before in
      rw before ((le, All-trans t.index u.index (indices tables) le h.0), h)
  | inr behind ↦ rw behind (
    insert_table-All u.index t tables (omega (arith, leb→lt _ _ behind)) h.0,
    insert_table-InOrder t tables h.1,
  )
]

sort_tables-InOrder : (tables : List PleTable) → InOrder (indices (sort_tables tables))
unfolding sort_tables
sort_tables-InOrder [] = tt
sort_tables-InOrder (t ∷ tables) =
    insert_table-InOrder t (sort_tables tables) (sort_tables-InOrder tables)

-- The shards hold the tensors that were placed.
shards_placed :
    (row : PleRowLayout) (c l : ℕ) (tables : List PleTable)
    → map table_of (map mapping (place_shards row c (logical_rows l tables))) ≡ tables
unfolding place_shards logical_rows
shards_placed row c l [] = refl
shards_placed row c l (t ∷ tables) = ap (◌∷◌ t) (shards_placed row (c + t.rows) (l + t.rows) tables)

indices_placed :
    (row : PleRowLayout) (c l : ℕ) (tables : List PleTable)
    → map (λ s. s.shard_index) (map mapping (place_shards row c (logical_rows l tables)))
      ≡ indices tables
unfolding place_shards logical_rows
indices_placed row c l [] = refl
indices_placed row c l (t ∷ tables) =
    ap (◌∷◌ t.index) (indices_placed row (c + t.rows) (l + t.rows) tables)

-- In a full build every tensor of the table has its shard, the shards are in the order of their
-- indices, the table holds exactly the logical rows, and each of them is stored at its own number: the
-- shards tile the table from row 0 without a gap, whatever order the tensors were found in.
pub plan_ple_full :
    (row : PleRowLayout) (source_layer : ℕ) (tables : List PleTable) (r : ℕ)
    → r < (plan_ple row source_layer false tables).logical_total_rows
    → Perm (map table_of (plan_ple row source_layer false tables).shards) tables
      × InOrder (map (λ s. s.shard_index) (plan_ple row source_layer false tables).shards)
      × ((plan_ple row source_layer false tables).total_rows
          ≡ (plan_ple row source_layer false tables).logical_total_rows)
      × (find_row (plan_ple row source_layer false tables).shards r ≡ some r)
unfolding plan_ple
plan_ple_full row source_layer tables r lt =
    let sorted = sort_tables tables in
    (
      subst (λ l. Perm l tables) (sym (shards_placed row 0 0 sorted)) (sort_tables-Perm tables),
      subst InOrder (sym (indices_placed row 0 0 sorted)) (sort_tables-InOrder tables),
      physical_total-logical 0 sorted,
      find_row_full row 0 sorted r (omega arith) lt,
    )
