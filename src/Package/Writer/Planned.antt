-- ===== src/Package/Writer/Planned.antt =====
-- A plan whose items do not overlap, as the planner lays them out.
use pocket_titan.Package.Writer.Apart.{
  AwayItems, Spread, Foreign, Known, All-zip, All-always, OwnAway,
}
use pocket_titan.Prelude.{
  ℕ, ◌≡◌, refl, ap, ◌∙◌, inl, inr, false, none, List, [], ◌∷◌, ◌++◌, map, All, arith,
}
use pocket_titan.Package.Encode.{Codec, DenseWorkItem, ExpertWorkItem, PleShardWorkItem}
use pocket_titan.Package.Journal.{
  BuildPlan, WorkItem, dense_item, expert_item, ple_item, dense_items, expert_items, ple_items,
  shards_of,
}
use pocket_titan.Package.Journal.Marks.{is_same}
use pocket_titan.Package.Effects.{Region, dense, experts, ple, region_of}
use pocket_titan.Package.Writer.{item_writes}
use pocket_titan.Package.Writer.Disk.{same_region, Away, Away-sym}
use pocket_titan.Package.Writer.Batch.{All-append, All-map}
use pocket_titan.Package.Writer.Durable.{All-zip_map}

abbrev pub all_items : {Source : Type 0} → BuildPlan Source → List (WorkItem Source)
all_items plan = dense_items plan ++ (expert_items plan ++ ple_items plan)

is_same-sym : {Source : Type 0} (a b : WorkItem Source) → is_same a b ≡ false → is_same b a ≡ false
is_same-sym (dense_item a) (dense_item b) h = ground arith
is_same-sym (expert_item a) (expert_item b) h = ground arith
is_same-sym (ple_item a) (ple_item b) h = ground arith
is_same-sym (dense_item a) (expert_item b) h = refl
is_same-sym (dense_item a) (ple_item b) h = refl
is_same-sym (expert_item a) (dense_item b) h = refl
is_same-sym (expert_item a) (ple_item b) h = refl
is_same-sym (ple_item a) (dense_item b) h = refl
is_same-sym (ple_item a) (expert_item b) h = refl

-- The regions of the items of a plan's lists.
module _ {Source : Type 0} where
  dense_here : (l : List (DenseWorkItem Source)) → All (λ b. region_of b ≡ dense) (map dense_item l)
  dense_here [] = tt
  dense_here (x ∷ l) = (refl, dense_here l)

  experts_here :
      (l : List (ExpertWorkItem Source)) → All (λ b. region_of b ≡ experts) (map expert_item l)
  experts_here [] = tt
  experts_here (x ∷ l) = (refl, experts_here l)

  ple_here : (l : List (PleShardWorkItem Source)) → All (λ b. region_of b ≡ ple) (map ple_item l)
  ple_here [] = tt
  ple_here (x ∷ l) = (refl, ple_here l)

  different_same :
      (a b : WorkItem Source)
      → same_region (region_of a) (region_of b) ≡ false
      → is_same a b ≡ false
  different_same (dense_item a) (dense_item b) h = cc
  different_same (expert_item a) (expert_item b) h = cc
  different_same (ple_item a) (ple_item b) h = cc
  different_same (dense_item a) (expert_item b) h = refl
  different_same (dense_item a) (ple_item b) h = refl
  different_same (expert_item a) (dense_item b) h = refl
  different_same (expert_item a) (ple_item b) h = refl
  different_same (ple_item a) (dense_item b) h = refl
  different_same (ple_item a) (expert_item b) h = refl

module _ {Source Tensor : Type 0} (codec : Codec Source Tensor) (crc32c : List ℕ → ℕ)
    (plan : BuildPlan Source) where
  abbrev planned_items : List (WorkItem Source)
  planned_items = all_items plan

  -- No two items of a region have the same key or overlap, nor do the rows of a shard.
  pub record IsPlanned : Type 0 where
    pub dense_apart : Spread codec crc32c plan planned_items (dense_items plan)
    pub experts_apart : Spread codec crc32c plan planned_items (expert_items plan)
    pub ple_apart : Spread codec crc32c plan planned_items (ple_items plan)
    pub rows_apart : All (OwnAway codec crc32c plan planned_items) (ple_items plan)
    pub described : plan.expert_record ≡ none → plan.experts ≡ []

  AwayItems-sym :
      (b c : WorkItem Source)
      → AwayItems codec crc32c plan planned_items b c
      → AwayItems codec crc32c plan planned_items c b
  AwayItems-sym b c h q p e f =
      All-map (item_writes codec crc32c plan c q)
        (λ v k. All-map (item_writes codec crc32c plan b p) (λ w a. Away-sym w v a) k)
        (All-swap_writes (item_writes codec crc32c plan b p) (item_writes codec crc32c plan c q)
          (h p q f e))
    where
      All-swap_writes :
          (xs ys : List (ℕ × List ℕ))
          → All (λ x. All (Away x) ys) xs
          → All (λ y. All (λ x. Away x y) xs) ys
      All-swap_writes [] ys h = All-always ys (λ y. tt)
      All-swap_writes (x ∷ xs) ys h =
          All-zip (Away x) (λ y. All (λ x. Away x y) xs) ys h.0 (All-swap_writes xs ys h.1)

  Foreign-within :
      (l : List (WorkItem Source))
      → Spread codec crc32c plan planned_items l
      → All (λ b. All (Foreign codec crc32c plan planned_items b) l) l
  Foreign-within [] h = tt
  Foreign-within (x ∷ l) h = (
    (inl refl, All-map l (λ i k. inr (k.0, λ same. k.1)) h.0),
    All-zip_map l (λ b k rest. (inr (is_same-sym x b k.0, λ same. AwayItems-sym x b k.1), rest)) h.0
        (Foreign-within l h.1),
  )

  Foreign-across :
      (r s : Region) (l m : List (WorkItem Source))
      → same_region r s ≡ false
      → All (λ b. region_of b ≡ r) l
      → All (λ b. region_of b ≡ s) m
      → All (λ b. All (Foreign codec crc32c plan planned_items b) m) l
  Foreign-across r s l m other here there =
      All-map l
        (λ b at_r.
          All-map m
            (λ i at_s.
              let apart : same_region (region_of b) (region_of i) ≡ false =
                ap (λ x. same_region x (region_of i)) at_r ∙ ap (same_region r) at_s ∙ other in
              inr (different_same b i apart, λ same. cc (apart, same)))
            there)
        here

  Known-of :
      (region : Region) (l : List (WorkItem Source))
      → All (λ b. region_of b ≡ region) l
      → All (OwnAway codec crc32c plan planned_items) l
      → All (λ b. All (Foreign codec crc32c plan planned_items b) (dense_items plan)) l
      → All (λ b. All (Foreign codec crc32c plan planned_items b) (expert_items plan)) l
      → All (λ b. All (Foreign codec crc32c plan planned_items b) (ple_items plan)) l
      → Known codec crc32c plan planned_items region l
  Known-of region [] here own d e p = tt
  Known-of region (b ∷ l) here own d e p = (
    (
      here.0,
      own.0,
      All-append (Foreign codec crc32c plan planned_items b) (dense_items plan)
          (expert_items plan ++ ple_items plan) d.0
          (All-append (Foreign codec crc32c plan planned_items b) (expert_items plan)
            (ple_items plan) e.0 p.0),
    ),
    Known-of region l here.1 own.1 d.1 e.1 p.1,
  )

  dense_own :
      (l : List (DenseWorkItem Source))
      → All (OwnAway codec crc32c plan planned_items) (map dense_item l)
  unfolding item_writes
  dense_own [] = tt
  dense_own (x ∷ l) = (λ p e. (tt, tt), dense_own l)

  expert_own :
      (l : List (ExpertWorkItem Source))
      → All (OwnAway codec crc32c plan planned_items) (map expert_item l)
  unfolding item_writes
  expert_own [] = tt
  expert_own (x ∷ l) = (λ p e. (tt, tt), expert_own l)

  pub dense-Known : IsPlanned → Known codec crc32c plan planned_items dense (dense_items plan)
  dense-Known planned =
      let here = dense_here plan.dense in
      Known-of dense (dense_items plan) here (dense_own plan.dense)
        (Foreign-within (dense_items plan) planned.dense_apart)
        (Foreign-across dense experts (dense_items plan) (expert_items plan) refl here
          (experts_here plan.experts))
        (Foreign-across dense ple (dense_items plan) (ple_items plan) refl here
          (ple_here (shards_of plan.ple)))

  pub experts-Known : IsPlanned → Known codec crc32c plan planned_items experts (expert_items plan)
  experts-Known planned =
      let here = experts_here plan.experts in
      Known-of experts (expert_items plan) here (expert_own plan.experts)
        (Foreign-across experts dense (expert_items plan) (dense_items plan) refl here
          (dense_here plan.dense))
        (Foreign-within (expert_items plan) planned.experts_apart)
        (Foreign-across experts ple (expert_items plan) (ple_items plan) refl here
          (ple_here (shards_of plan.ple)))

  pub ple-Known : IsPlanned → Known codec crc32c plan planned_items ple (ple_items plan)
  ple-Known planned =
      let here = ple_here (shards_of plan.ple) in
      Known-of ple (ple_items plan) here planned.rows_apart
        (Foreign-across ple dense (ple_items plan) (dense_items plan) refl here
          (dense_here plan.dense))
        (Foreign-across ple experts (ple_items plan) (expert_items plan) refl here
          (experts_here plan.experts))
        (Foreign-within (ple_items plan) planned.ple_apart)
