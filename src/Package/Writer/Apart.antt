-- ===== src/Package/Writer/Apart.antt =====
-- The items of a plan do not overlap: what that means for the writes of a batch and its marks.
use pocket_titan.Prelude.{
  ℕ, ◌≡◌, sym, ap, ◌∙◌, ◌⊎◌, inl, inr, true, false, List, [], ◌∷◌, ◌++◌, All, arith, subst, ok,
}
use pocket_titan.Package.Encode.{Codec}
use pocket_titan.Package.Journal.{BuildJournal, BuildPlan, WorkItem, is_done}
use pocket_titan.Package.Journal.Marks.{is_same, is_same_refl}
use pocket_titan.Package.Effects.{Region, region_of}
use pocket_titan.Package.Writer.{encode_item, item_writes, mark, mark_all}
use pocket_titan.Package.Writer.Disk.{Disk, same_region, Away, Pairwise}
use pocket_titan.Package.Writer.Batch.{All-append, All-map, Kept, Journaled, is_done-mark}
use pocket_titan.Package.Writer.Commit.{concat_writes, Committed}

pub All-always : {A : Type 0} {P : A → Type 0} (xs : List A) → ((x : A) → P x) → All P xs
All-always [] f = tt
All-always (x ∷ xs) f = (f x, All-always xs f)

pub All-zip :
    {A : Type 0} (P Q : A → Type 0) (xs : List A) → All P xs → All Q xs → All (λ x. P x × Q x) xs
All-zip P Q [] h k = tt
All-zip P Q (x ∷ xs) h k = ((h.0, k.0), All-zip P Q xs h.1 k.1)

pub All-append_left : {A : Type 0} (P : A → Type 0) (xs ys : List A) → All P (xs ++ ys) → All P xs
All-append_left P [] ys h = tt
All-append_left P (x ∷ xs) ys h = (h.0, All-append_left P xs ys h.1)

pub All-append_right : {A : Type 0} (P : A → Type 0) (xs ys : List A) → All P (xs ++ ys) → All P ys
All-append_right P [] ys h = h
All-append_right P (x ∷ xs) ys h = All-append_right P xs ys h.1

pub Pairwise-append :
    {A : Type 0} (R : A → A → Type 0) (xs ys : List A)
    → Pairwise R xs
    → Pairwise R ys
    → All (λ x. All (R x) ys) xs
    → Pairwise R (xs ++ ys)
Pairwise-append R [] ys h k c = k
Pairwise-append R (x ∷ xs) ys h k c =
    (All-append (R x) xs ys h.0 c.0, Pairwise-append R xs ys h.1 k c.1)

module _ {Source Tensor : Type 0} (codec : Codec Source Tensor) (crc32c : List ℕ → ℕ)
    (plan : BuildPlan Source) (items : List (WorkItem Source)) where
  abbrev pub AwayItems : WorkItem Source → WorkItem Source → Type 0
  AwayItems b c =
      (p q : List ℕ)
      → encode_item codec crc32c plan b ≡ ok p
      → encode_item codec crc32c plan c ≡ ok q
      → All (λ v. All (Away v) (item_writes codec crc32c plan c q))
          (item_writes codec crc32c plan b p)

  abbrev pub OwnAway : WorkItem Source → Type 0
  OwnAway b =
      (p : List ℕ)
      → encode_item codec crc32c plan b ≡ ok p
      → Pairwise Away (item_writes codec crc32c plan b p)

  -- Two items of a plan are the same, or they have different keys and different bytes.
  abbrev pub Foreign : WorkItem Source → WorkItem Source → Type 0
  Foreign b i =
      (b ≡ i)
      ⊎ ((is_same b i ≡ false) × (same_region (region_of b) (region_of i) ≡ true → AwayItems b i))

  abbrev pub Fresh : BuildJournal → List (WorkItem Source) → Type 0
  Fresh j batch = All (λ b. is_done j b ≡ false) batch

  abbrev pub Spread : List (WorkItem Source) → Type 0
  Spread batch = Pairwise (λ b c. (is_same b c ≡ false) × AwayItems b c) batch

  abbrev pub Known : Region → List (WorkItem Source) → Type 0
  Known region batch = All (λ b. (region_of b ≡ region) × OwnAway b × All (Foreign b) items) batch

  module _ (j : BuildJournal) (region : Region) where
    spare_one :
        (i : WorkItem Source) (writes : List (ℕ × List ℕ))
        → (is_done j i ≡ true
            → same_region region (region_of i) ≡ true
            → (payload : List ℕ) → encode_item codec crc32c plan i ≡ ok payload
            → All (λ v. All (Away v) (item_writes codec crc32c plan i payload)) writes)
        → All
            (λ v.
              is_done j i ≡ true
              → same_region region (region_of i) ≡ true
              → (payload : List ℕ) → encode_item codec crc32c plan i ≡ ok payload
              → All (Away v) (item_writes codec crc32c plan i payload))
            writes
    spare_one i [] f = tt
    spare_one i (v ∷ writes) f = (
      λ done same q e. (f done same q e).0,
      spare_one i writes (λ done same q e. (f done same q e).1),
    )

    -- The writes of a pending item spare every item of the journal.
    pub spare-All :
        (b : WorkItem Source) (p : List ℕ) (some_items : List (WorkItem Source))
        → region_of b ≡ region
        → is_done j b ≡ false
        → encode_item codec crc32c plan b ≡ ok p
        → All (Foreign b) some_items
        → All
            (λ v.
              All
                (λ i.
                  is_done j i ≡ true
                  → same_region region (region_of i) ≡ true
                  → (payload : List ℕ) → encode_item codec crc32c plan i ≡ ok payload
                  → All (Away v) (item_writes codec crc32c plan i payload))
                some_items)
            (item_writes codec crc32c plan b p)
    spare-All b p [] here fresh e foreign = All-always (item_writes codec crc32c plan b p) (λ v. tt)
    spare-All b p (i ∷ some_items) here fresh e foreign =
        All-zip _ _ (item_writes codec crc32c plan b p)
          (spare_one i (item_writes codec crc32c plan b p) (away foreign.0))
          (spare-All b p some_items here fresh e foreign.1)
      where
        away :
            Foreign b i
            → is_done j i ≡ true
            → same_region region (region_of i) ≡ true
            → (payload : List ℕ) → encode_item codec crc32c plan i ≡ ok payload
            → All
                (λ v. All (Away v) (item_writes codec crc32c plan i payload))
                (item_writes codec crc32c plan b p)
        away (inl same) done inside q encoded = cc (ap (is_done j) same, done, fresh)
        away (inr (different, apart)) done inside q encoded =
            apart (ap (λ r. same_region r (region_of i)) here ∙ inside) p q e encoded

  -- The writes of a batch do not overlap.
  Away-All :
      (b : WorkItem Source) (p : List ℕ) (batch : List (WorkItem Source))
      (committed : List (WorkItem Source × List ℕ))
      → encode_item codec crc32c plan b ≡ ok p
      → All (λ c. (is_same b c ≡ false) × AwayItems b c) batch
      → Committed codec crc32c plan items batch committed
      → All
          (λ v. All (Away v) (concat_writes codec crc32c plan items committed))
          (item_writes codec crc32c plan b p)
  Away-All b p [] [] e spread matches = All-always (item_writes codec crc32c plan b p) (λ v. tt)
  Away-All b p [] (_ ∷ committed) e spread matches = elim matches [ ]
  Away-All b p (c ∷ batch) [] e spread matches = elim matches [ ]
  Away-All b p (c ∷ batch) ((i, q) ∷ committed) e spread (same, encoded, matches) =
      All-map (item_writes codec crc32c plan b p)
        (λ v h.
          All-append (Away v) (item_writes codec crc32c plan i q)
            (concat_writes codec crc32c plan items committed) h.0 h.1)
        (All-zip _ _ (item_writes codec crc32c plan b p)
          (subst
            (λ i.
              All (λ v. All (Away v) (item_writes codec crc32c plan i q))
                (item_writes codec crc32c plan b p))
            (sym same) (spread.0.1 p q e encoded))
          (Away-All b p batch committed e spread.1 matches))

  pub concat_writes-Pairwise :
      (region : Region) (batch : List (WorkItem Source))
      (committed : List (WorkItem Source × List ℕ))
      → Spread batch
      → Known region batch
      → Committed codec crc32c plan items batch committed
      → Pairwise Away (concat_writes codec crc32c plan items committed)
  concat_writes-Pairwise region [] [] spread known matches = tt
  concat_writes-Pairwise region [] (_ ∷ committed) spread known matches = elim matches [ ]
  concat_writes-Pairwise region (b ∷ batch) [] spread known matches = elim matches [ ]
  concat_writes-Pairwise region (b ∷ batch) ((i, p) ∷ committed) spread known (same, e, matches) =
      Pairwise-append Away (item_writes codec crc32c plan i p)
        (concat_writes codec crc32c plan items committed)
        (subst (λ i. Pairwise Away (item_writes codec crc32c plan i p)) (sym same) (known.0.1 p e))
        (concat_writes-Pairwise region batch committed spread.1 known.1 matches)
        (subst
          (λ i.
            All (λ v. All (Away v) (concat_writes codec crc32c plan items committed))
              (item_writes codec crc32c plan i p))
          (sym same) (Away-All b p batch committed e spread.0 matches))

  -- Marking an item that is kept.
  mark-Journaled :
      (j : BuildJournal) (d : Disk) (b : WorkItem Source) (p : List ℕ)
      (some_items : List (WorkItem Source))
      → All (λ i. is_done j i ≡ true → Kept codec crc32c plan items d i) some_items
      → Kept codec crc32c plan items d b
      → All (Foreign b) some_items
      → All
          (λ i. is_done (mark codec crc32c b p j) i ≡ true → Kept codec crc32c plan items d i)
          some_items
  mark-Journaled j d b p [] h kept foreign = tt
  mark-Journaled j d b p (i ∷ some_items) h kept foreign =
      (by_key foreign.0, mark-Journaled j d b p some_items h.1 kept foreign.1)
    where
      by_key :
          Foreign b i
          → is_done (mark codec crc32c b p j) i ≡ true
          → Kept codec crc32c plan items d i
      by_key (inl same) done = subst (Kept codec crc32c plan items d) same kept
      by_key (inr (different, apart)) done =
          h.0 (ground (arith, is_done-mark codec crc32c plan items b i p j, different, done))

  pub mark_all-Journaled :
      (region : Region) (batch : List (WorkItem Source))
      (committed : List (WorkItem Source × List ℕ)) (j : BuildJournal) (d : Disk)
      → Known region batch
      → Committed codec crc32c plan items batch committed
      → Journaled codec crc32c plan items j d
      → All (λ b. Kept codec crc32c plan items d b) batch
      → Journaled codec crc32c plan items (mark_all codec crc32c committed j) d
  unfolding mark_all
  mark_all-Journaled region [] [] j d known matches h kept = h
  mark_all-Journaled region [] (_ ∷ committed) j d known matches h kept = elim matches [ ]
  mark_all-Journaled region (b ∷ batch) [] j d known matches h kept = elim matches [ ]
  mark_all-Journaled region (b ∷ batch) ((i, p) ∷ committed) j d known (same, e, matches) h kept =
      mark_all-Journaled region batch committed (mark codec crc32c i p j) d known.1 matches
        (subst (λ i. Journaled codec crc32c plan items (mark codec crc32c i p j) d) (sym same)
          (mark-Journaled j d b p items h kept.0 known.0.2))
        kept.1

  -- Marking a batch adds its keys, and keeps those of the journal.
  pub mark_all_done :
      (committed : List (WorkItem Source × List ℕ)) (j : BuildJournal) (k : WorkItem Source)
      → is_done j k ≡ true
      → is_done (mark_all codec crc32c committed j) k ≡ true
  unfolding mark_all
  mark_all_done [] j k done = done
  mark_all_done ((i, p) ∷ committed) j k done =
      mark_all_done committed (mark codec crc32c i p j) k
        (ground (arith, is_done-mark codec crc32c plan items i k p j, done))

  pub mark_all_fresh :
      (batch : List (WorkItem Source)) (committed : List (WorkItem Source × List ℕ))
      (j : BuildJournal) (k : WorkItem Source)
      → Committed codec crc32c plan items batch committed
      → All (λ b. is_same b k ≡ false) batch
      → is_done j k ≡ false
      → is_done (mark_all codec crc32c committed j) k ≡ false
  unfolding mark_all
  mark_all_fresh [] [] j k matches other fresh = fresh
  mark_all_fresh [] (_ ∷ committed) j k matches other fresh = elim matches [ ]
  mark_all_fresh (b ∷ batch) [] j k matches other fresh = elim matches [ ]
  mark_all_fresh (b ∷ batch) ((i, p) ∷ committed) j k (same, e, matches) other fresh =
      mark_all_fresh batch committed (mark codec crc32c i p j) k matches other.1 (
        is_done-mark codec crc32c plan items i k p j
        ∙ ground (arith, ap (λ i. is_same i k) same, other.0, fresh))

  pub mark_all_batch :
      (batch : List (WorkItem Source)) (committed : List (WorkItem Source × List ℕ))
      (j : BuildJournal)
      → Committed codec crc32c plan items batch committed
      → All (λ b. is_done (mark_all codec crc32c committed j) b ≡ true) batch
  unfolding mark_all
  mark_all_batch [] committed j matches = tt
  mark_all_batch (b ∷ batch) [] j matches = elim matches [ ]
  mark_all_batch (b ∷ batch) ((i, p) ∷ committed) j (same, e, matches) = (
    mark_all_done committed (mark codec crc32c i p j) b (
        is_done-mark codec crc32c plan items i b p j
        ∙ ground (arith, ap (λ i. is_same i b) same, is_same_refl b)),
    mark_all_batch batch committed (mark codec crc32c i p j) matches,
  )
