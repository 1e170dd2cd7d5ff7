-- ===== src/Package/Writer/Batch.antt =====
-- The invariant of a build: every item that a journal lists has its bytes in the flushed file, and no
-- unflushed change touches them. What single effects and the marks of a batch do to it.
use native.Mathlib.Decide.{ℕ_discrete}
use pocket_titan.Prelude.{
  ℕ, ◌≡◌, refl, sym, ◌⊎◌, inl, inr, Bool, true, false, ◌||◌, some, List, [], ◌∷◌, ◌++◌, All,
  Bool-cases, ok,
}
use pocket_titan.Package.Encode.{Codec}
use pocket_titan.Package.Journal.{
  BuildJournal, BuildPlan, WorkItem, dense_item, expert_item, ple_item, is_done, string_discrete,
}
use pocket_titan.Package.Journal.Marks.{member-append, is_same}
use pocket_titan.Package.Effects.{Region, dense, experts, ple, Effect, synced, region_of}
use pocket_titan.Package.Writer.{encode_item, item_writes, mark}
use pocket_titan.Package.Writer.Disk.{
  Change, Disk, same_region, add_change, apply_effect, run, Held, Away, Clear, Held-settle, Crashed,
  Held-Survives,
}

pub same_region_refl : (r : Region) → same_region r r ≡ true
same_region_refl dense = refl
same_region_refl experts = refl
same_region_refl ple = refl

or_false : (b : Bool) → (b || false) ≡ b
or_false true = refl
or_false false = refl

pub All-map :
    {A : Type 0} {P Q : A → Type 0} (xs : List A) → ((x : A) → P x → Q x) → All P xs → All Q xs
All-map [] f h = tt
All-map (x ∷ xs) f h = (f x h.0, All-map xs f h.1)

-- A predicate of every prefix of some effects.
abbrev pub Always : (Disk → Type 0) → List Effect → Disk → Type 0
Always P [] d = P d
Always P (e ∷ effects) d = P d × Always P effects (apply_effect e d)

pub run-append :
    (first second : List Effect) (d : Disk) → run (first ++ second) d ≡ run second (run first d)
run-append [] second d = refl
run-append (e ∷ first) second d = run-append first second (apply_effect e d)

pub Always-append :
    (P : Disk → Type 0) (first second : List Effect) (d : Disk)
    → Always P first d
    → Always P second (run first d)
    → Always P (first ++ second) d
Always-append P [] second d h k = k
Always-append P (e ∷ first) second d h k =
    (h.0, Always-append P first second (apply_effect e d) h.1 k)

pub Always-before :
    (P : Disk → Type 0) (first second : List Effect) (d : Disk)
    → Always P (first ++ second) d
    → P (run first d)
Always-before P [] [] d h = h
Always-before P [] (e ∷ second) d h = h.0
Always-before P (e ∷ first) second d h = Always-before P first second (apply_effect e d) h.1

pub same_region-eq : (r s : Region) → same_region r s ≡ true → r ≡ s
same_region-eq dense dense h = refl
same_region-eq experts experts h = refl
same_region-eq ple ple h = refl
same_region-eq dense experts h = cc
same_region-eq dense ple h = cc
same_region-eq experts dense h = cc
same_region-eq experts ple h = cc
same_region-eq ple dense h = cc
same_region-eq ple experts h = cc

pub unsynced-add_change :
    (r s : Region) (c : Change) (d : Disk)
    → same_region r s ≡ true
    → (add_change r c d).unsynced s ≡ d.unsynced s ++ c ∷ []
unsynced-add_change r s c d same = rw (same_region-eq r s same, same_region_refl s) refl

pub All-append :
    {A : Type 0} (P : A → Type 0) (xs ys : List A) → All P xs → All P ys → All P (xs ++ ys)
All-append P [] ys h k = k
All-append P (x ∷ xs) ys h k = (h.0, All-append P xs ys h.1 k)

with-Clear :
    (P : ℕ × List ℕ → Type 0) (c : Change) (changes : List Change) (writes : List (ℕ × List ℕ))
    → All (λ w. P w × All (λ d. Clear d w) changes) writes
    → All (Clear c) writes
    → All (λ w. P w × All (λ d. Clear d w) (changes ++ c ∷ [])) writes
with-Clear P c changes [] h clear = tt
with-Clear P c changes (w ∷ writes) h clear = (
  (h.0.0, All-append (λ d. Clear d w) changes (c ∷ []) h.0.1 (clear.0, tt)),
  with-Clear P c changes writes h.1 clear.1,
)

module _ {Source Tensor : Type 0} (codec : Codec Source Tensor) (crc32c : List ℕ → ℕ)
    (plan : BuildPlan Source) (items : List (WorkItem Source)) where
  -- The bytes of an item are in the file, and nothing that is not flushed touches them.
  abbrev pub Kept : Disk → WorkItem Source → Type 0
  Kept d i =
      (payload : List ℕ) × (encode_item codec crc32c plan i ≡ ok payload)
      × All (λ w. Held (d.files (region_of i)) w × All (λ c. Clear c w) (d.unsynced (region_of i)))
          (item_writes codec crc32c plan i payload)

  abbrev pub Journaled : BuildJournal → Disk → Type 0
  Journaled j d = All (λ i. is_done j i ≡ true → Kept d i) items

  -- Whatever journal is on the disk, the items that it lists are kept.
  abbrev pub Recoverable : Disk → Type 0
  Recoverable d = (j : BuildJournal) → d.journal ≡ some j → Journaled j d

  -- A write that touches no item of the journal.
  abbrev pub Spares : BuildJournal → Region → ℕ × List ℕ → Type 0
  Spares j region v =
      All
        (λ i.
          is_done j i ≡ true
          → same_region region (region_of i) ≡ true
          → (payload : List ℕ) → encode_item codec crc32c plan i ≡ ok payload
          → All (Away v) (item_writes codec crc32c plan i payload))
        items

  pub is_done-mark :
      (i k : WorkItem Source) (payload : List ℕ) (j : BuildJournal)
      → is_done (mark codec crc32c i payload j) k ≡ (is_done j k || is_same i k)
  unfolding is_done mark
  is_done-mark (dense_item a) (dense_item b) payload j =
      member-append string_discrete b.name a.name j.dense_done
  is_done-mark (dense_item a) (expert_item b) payload j = sym (or_false _)
  is_done-mark (dense_item a) (ple_item b) payload j = sym (or_false _)
  is_done-mark (expert_item a) (dense_item b) payload j = sym (or_false _)
  is_done-mark (expert_item a) (expert_item b) payload j =
      member-append ℕ_discrete b.record_index a.record_index j.expert_done
  is_done-mark (expert_item a) (ple_item b) payload j = sym (or_false _)
  is_done-mark (ple_item a) (dense_item b) payload j = sym (or_false _)
  is_done-mark (ple_item a) (expert_item b) payload j = sym (or_false _)
  is_done-mark (ple_item a) (ple_item b) payload j =
      member-append ℕ_discrete b.shard_index a.shard_index j.ple_done

  -- Adding a change to a region keeps the items that it is clear of.
  pub Kept-add_change :
      (r : Region) (c : Change) (d : Disk) (i : WorkItem Source)
      → (same_region r (region_of i) ≡ true
          → (payload : List ℕ) → encode_item codec crc32c plan i ≡ ok payload
          → All (Clear c) (item_writes codec crc32c plan i payload))
      → Kept d i
      → Kept (add_change r c d) i
  Kept-add_change r c d i clear (payload, encoded, held) =
      (payload, encoded, by_region (Bool-cases (same_region r (region_of i))))
    where
      by_region :
          (same_region r (region_of i) ≡ true) ⊎ (same_region r (region_of i) ≡ false)
          → All
              (λ w.
                Held (d.files (region_of i)) w
                × All (λ c. Clear c w) ((add_change r c d).unsynced (region_of i)))
              (item_writes codec crc32c plan i payload)
      by_region (inl same) = rw (unsynced-add_change r (region_of i) c d same) (
          with-Clear (Held (d.files (region_of i))) c (d.unsynced (region_of i))
            (item_writes codec crc32c plan i payload) held (clear same payload encoded))
      by_region (inr other) = rw other held

  pub Kept-synced :
      (r : Region) (d : Disk) (i : WorkItem Source) → Kept d i → Kept (apply_effect (synced r) d) i
  Kept-synced r d i (payload, encoded, held) =
      (payload, encoded, by_region (Bool-cases (same_region r (region_of i))))
    where
      by_region :
          (same_region r (region_of i) ≡ true) ⊎ (same_region r (region_of i) ≡ false)
          → All
              (λ w.
                Held ((apply_effect (synced r) d).files (region_of i)) w
                × All (λ c. Clear c w) ((apply_effect (synced r) d).unsynced (region_of i)))
              (item_writes codec crc32c plan i payload)
      by_region (inl same) =
          rw (same_region-eq r (region_of i) same, same_region_refl (region_of i))
            (All-map (item_writes codec crc32c plan i payload)
              (λ w h.
                (Held-settle (d.unsynced (region_of i)) (d.files (region_of i)) w h.0 h.1, tt))
              held)
      by_region (inr other) = rw other held

  -- A crash keeps what no unflushed change touches.
  pub Crashed-Kept :
      (d after : Disk) → Crashed d after → (i : WorkItem Source) → Kept d i → Kept after i
  Crashed-Kept d after crashed i (payload, encoded, held) = (
    payload,
    encoded,
    rw (crashed.unsynced (region_of i)) (
        All-map (item_writes codec crc32c plan i payload)
          (λ w h. (
            Held-Survives (d.unsynced (region_of i)) (d.files (region_of i))
                (after.files (region_of i)) w h.0 h.1 (crashed.files (region_of i)),
            tt,
          ))
          held),
  )
