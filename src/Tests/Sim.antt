-- ===== src/Tests/Sim.antt =====
-- The simulator's policies on short traces of numbered experts.
use native.Mathlib.Decide.{ℕ_discrete as dec}
use pocket_titan.Prelude.{
  ℕ, ◌*◌, ◌≤◌, ◌<◌, ◌≡◌, ◌⊎◌, ◌++◌, refl, true, false, List, [], ◌∷◌, length, ok, max, arith,
}
use pocket_titan.Prelude.Dict
use pocket_titan.Prelude.Dict.{Dict, is_some}
use pocket_titan.Sim.Lru
use pocket_titan.Sim.Lru.{LruCache, access_all, total_accesses}
use pocket_titan.Sim.Lru.Stack.{last_uses, access_all_recent}
use pocket_titan.Sim.Lru.Inclusion.{access_all_monotone}
use pocket_titan.Sim.Slru
use pocket_titan.Sim.Slru.{SlruCache, resident}
use pocket_titan.Sim.Slru.Bounds
use pocket_titan.Sim.TinyLfu
use pocket_titan.Sim.TinyLfu.{TinyLfuCache}
use pocket_titan.Sim.TinyLfu.Admission
use pocket_titan.Sim.TinyLfu.Admission.{total_freq}
use pocket_titan.Sim.Oracle
use pocket_titan.Sim.Oracle.{OracleCache}
use pocket_titan.Sim.Oracle.Belady
use pocket_titan.Sim.Oracle.Belady.{positions, IsCurrent}

program : Unit {0}
unfolding Dict.get Dict.set Dict.remove dec Lru.init Lru.access access_all last_uses Slru.init
    Slru.access TinyLfu.init TinyLfu.access total_freq Oracle.init Oracle.access positions
    Oracle.future
program = tt

abbrev trace : List ℕ
trace = 1 ∷ 2 ∷ 1 ∷ 3 ∷ 2 ∷ []

-- Two slots: 2 is evicted for 3, and 1 for 2.
lru_run :
    access_all dec (Lru.init 2) trace
    ≡ ok (record {
      capacity = 2;
      hits = 1;
      misses = 4;
      evictions = 2;
      cache = (3, tt) ∷ (2, tt) ∷ [];
    })
unfolding program
lru_run = refl

access_all_recent_example :
    (c' : LruCache ℕ) × (older : Dict ℕ (Unit {0})) × (access_all dec (Lru.init 2) trace ≡ ok c')
    × (last_uses dec trace ≡ older ++ c'.cache)
    × ((older ≡ []) ⊎ (length c'.cache ≡ max 1 2))
    × (length c'.cache ≤ max 1 2)
    × (total_accesses c' ≡ length trace)
access_all_recent_example = access_all_recent dec 2 trace

access_all_monotone_example :
    (small large : LruCache ℕ) × (access_all dec (Lru.init 2) trace ≡ ok small)
    × (access_all dec (Lru.init 3) trace ≡ ok large)
    × (small.hits ≤ large.hits)
access_all_monotone_example = access_all_monotone dec 2 3 trace (omega arith)

-- One slot still makes two tiers of one slot each, which hold two experts.
abbrev overcommitted : SlruCache ℕ
overcommitted = record {
  capacity = 1;
  protected_cap = 1;
  probationary_cap = 1;
  probationary = (2, tt) ∷ [];
  protected = (1, tt) ∷ [];
  hits = 1;
  misses = 2;
  evictions = 0;
}

access-overcommitted :
    (Slru.access dec (record overcommitted { probationary = []; misses = 1 }) 2
      ≡ ok (false, overcommitted))
    × (Slru.access dec (record (Slru.init 1 0) { probationary = (1, tt) ∷ []; misses = 1 }) 1
        ≡ ok (true, record overcommitted { probationary = []; misses = 1 }))
unfolding program
access-overcommitted = (refl, refl)

overcommitted-IsBounded : Bounds.IsBounded dec overcommitted
overcommitted-IsBounded = record {
  probationary_fits = omega arith;
  protected_fits = omega arith;
  some_probationary = omega arith;
  some_protected = omega arith;
}

access_bounded_example :
    (c' : SlruCache ℕ) × (Slru.access dec overcommitted 2 ≡ ok (resident dec overcommitted 2, c'))
    × Bounds.Accessed dec overcommitted 2 c'
access_bounded_example = Bounds.access_bounded dec overcommitted 2 overcommitted-IsBounded

abbrev filtered : TinyLfuCache ℕ
filtered = record {
  capacity = 1;
  hits = 1;
  misses = 1;
  evictions = 0;
  cache = (1, tt) ∷ [];
  freqs = (1, 2) ∷ [];
  sample_window = 10;
  total_count = 2;
}

-- A first access to 2 does not displace 1, which was asked for twice.
rejected :
    TinyLfu.access dec filtered 2
    ≡ ok (
      false,
      record filtered { misses = 2; evictions = 1; freqs = (1, 2) ∷ (2, 1) ∷ []; total_count = 3 },
    )
unfolding program
rejected = refl

filtered-IsBounded : Admission.IsBounded dec filtered
unfolding program
filtered-IsBounded = record {
  fits = omega arith;
  some_capacity = omega arith;
  some_window = omega arith;
  recent = omega arith;
  counts = omega arith;
}

access_filtered_example :
    (c' : TinyLfuCache ℕ) × (TinyLfu.access dec filtered 2
      ≡ ok (is_some (Dict.get dec 2 filtered.cache), c'))
    × Admission.Accessed dec filtered c'
    × (total_freq c'.freqs < c'.sample_window * 2)
access_filtered_example = Admission.access_filtered dec filtered 2 filtered-IsBounded

-- Step 3 of the trace: 1 is not used again, and 2 is.
abbrev clairvoyant : OracleCache ℕ
clairvoyant = record {
  capacity = 2;
  hits = 1;
  misses = 2;
  evictions = 0;
  cache = (2, tt) ∷ (1, tt) ∷ [];
  future_indices = (1, []) ∷ (2, 4 ∷ []) ∷ (3, 3 ∷ []) ∷ [];
  full_trace = trace;
}

exchanged :
    Oracle.access dec clairvoyant 3 3
    ≡ ok (
      false,
      record clairvoyant {
        misses = 3;
        evictions = 1;
        cache = (2, tt) ∷ (3, tt) ∷ [];
        future_indices = (1, []) ∷ (2, 4 ∷ []) ∷ (3, []) ∷ [];
      },
    )
unfolding program
exchanged = refl

clairvoyant-IsCurrent : IsCurrent dec clairvoyant.future_indices 3 (3 ∷ 2 ∷ [])
unfolding Oracle.future positions
clairvoyant-IsCurrent k = ground arith

access_belady_example :
    (c' : OracleCache ℕ) × (Oracle.access dec clairvoyant 3 3
      ≡ ok (is_some (Dict.get dec 3 clairvoyant.cache), c'))
    × Belady.Accessed dec clairvoyant c' 3 3 (2 ∷ [])
access_belady_example =
    Belady.access_belady dec clairvoyant 3 3 (2 ∷ []) (omega arith) (omega arith)
      clairvoyant-IsCurrent
