-- ===== src/Package/Journal/Marks.antt =====
-- What marking an item does to the journal's answers, and the journals that `_load_journal` accepts.
use Prim.Native.String.{String}
use text.Mathlib.Text.{◌==◌ as str_eq}
use native.Mathlib.Decide.{ℕ_discrete}
use mathlib.Core.Logic.{ite, if_pos}
use pocket_titan.Prelude.{
  ◌≡◌, refl, Bool, true, false, ◌||◌, List, [], ◌∷◌, ◌++◌, arith, ok, some, runtime_error,
  >>=-eq-ok, ok-injective, guard, ◌>>◌,
}
use pocket_titan.Package.Journal.{
  member, WorkItem, dense_item, expert_item, ple_item, string_discrete, BuildJournal, load_journal,
  has_checksums,
}

pub member-append :
    {A : Type 0} (dec : Discrete A) (x y : A) (xs : List A)
    → member dec x (xs ++ y ∷ []) ≡ (member dec x xs || ite (dec y x) true false)
unfolding member
member-append dec x y [] = refl
member-append dec x y (z ∷ xs) = ground (arith, member-append dec x y xs)

module _ {Source : Type 0} where
  -- Whether two items have the same key in the same region.
  abbrev pub is_same : WorkItem Source → WorkItem Source → Bool
  is_same (dense_item a) (dense_item b) = ite (string_discrete a.name b.name) true false
  is_same (expert_item a) (expert_item b) =
      ite (ℕ_discrete a.record_index b.record_index) true false
  is_same (ple_item a) (ple_item b) = ite (ℕ_discrete a.shard_index b.shard_index) true false
  is_same _ _ = false

  pub is_same_refl : (i : WorkItem Source) → is_same i i ≡ true
  is_same_refl (dense_item a) = if_pos (string_discrete a.name a.name) refl _ _
  is_same_refl (expert_item a) = if_pos (ℕ_discrete a.record_index a.record_index) refl _ _
  is_same_refl (ple_item a) = if_pos (ℕ_discrete a.shard_index a.shard_index) refl _ _

-- A journal that is resumed is the one on the disk.
pub load_journal-existing :
    (fingerprint : String) (existing j : BuildJournal)
    → load_journal true fingerprint (some existing) ≡ ok j
    → existing ≡ j
unfolding load_journal has_checksums
load_journal-existing fingerprint existing j l =
    let (_, _, returned) =
      >>=-eq-ok
        (guard (str_eq existing.plan_fingerprint fingerprint) runtime_error
          >> guard (has_checksums existing) runtime_error)
        (λ _. ok existing) l in
    ok-injective returned
