-- ===== src/Runtime/ExpertCache/Put.antt =====
-- `put`: a new expert lands in the probationary tier and can push out only what is there.
use mathlib.Core.Logic.{ite}
use pocket_titan.Prelude.{
  ℕ, ◌+◌, ◌≤◌, ◌<◌, ◌≡◌, refl, inl, inr, true, false, Option, none, some, [], ◌∷◌, lt→leb, length,
  leb, if◌then◌else◌, ok, arith, Bool-cases, leb→le, leb→lt, le→leb, ap,
}
use pocket_titan.Prelude.Dict
use pocket_titan.Prelude.Dict.{Dict, or_else, is_some}
use pocket_titan.Runtime.ExpertCache.{Cache, put, contains, evict, total_resident}
use pocket_titan.Runtime.ExpertCache.Promotion.{AreDisjoint, IsValid, lookup}

-- What `put` of a new key leaves: `kept` is the probationary tier behind the eviction.
abbrev inserted {ℓ} : {K V : Type ℓ} → Discrete K → Cache K V → K → V → Dict K V → ℕ → Cache K V
inserted dec c key value kept evictions = record c {
  probationary = Dict.set dec key value kept;
  evictions = evictions;
}

-- The entry that `put` of a new key evicts, and the probationary tier without it.
unfoldable pub victim {ℓ} : {K V : Type ℓ} → Cache K V → Option (K × V)
victim c =
    if leb c.probationary_capacity (length c.probationary)
    then elim c.probationary [ [] ↦ none | entry ∷ rest ↦ some entry ]
    else none

module _ {ℓ} {K V : Type ℓ} (dec : Discrete K) (c : Cache K V) (key : K) (value : V)
    (h : IsValid dec c) (absent : lookup dec c key ≡ none) where
  absent_protected : Dict.get dec key c.protected ≡ none
  absent_protected = ground (arith, absent)

  absent_probationary : Dict.get dec key c.probationary ≡ none
  absent_probationary = ground (arith, absent)

  module _ (kept : Dict K V) (evictions : ℕ) (unique : Dict.IsUnique dec kept)
      (apart : AreDisjoint dec kept c.protected) (absent_kept : Dict.get dec key kept ≡ none)
      (room : length kept < c.probationary_capacity) where
    inserted-IsValid : IsValid dec (inserted dec c key value kept evictions)
    inserted-IsValid = record {
      unique_probationary = Dict.set-IsUnique dec key value kept unique;
      unique_protected = h.unique_protected;
      disjoint = λ j. ground (arith, apart j, absent_protected, Dict.get-set dec key j value kept);
      probationary_fits = omega (arith, Dict.length-set_absent dec key value kept absent_kept);
      protected_fits = h.protected_fits;
      some_probationary = h.some_probationary;
      some_protected = h.some_protected;
      capacities = h.capacities;
    }

    -- The assertion on the residency bound holds.
    asserted :
        leb (total_resident (inserted dec c key value kept evictions)) c.capacity_slots ≡ true
    asserted = le→leb _ _ (
        omega (
          arith,
          Dict.length-set_absent dec key value kept absent_kept,
          h.protected_fits,
          h.capacities,
        ))

-- What a client finds after a new key came in: the value under the key, nothing under the evicted
-- one, and what was there before under every other.
abbrev pub found_after {ℓ} : {K V : Type ℓ} → Discrete K → Cache K V → K → V → K → Option V
found_after dec c key value j =
    ite (dec key j) (some value) (elim (victim c) [
      | none ↦ lookup dec c j
      | some (k, v) ↦ ite (dec k j) none (lookup dec c j)
    ])

-- `c'` is `c` after `put` of a new key.
pub record Inserted {ℓ} {K V : Type ℓ} (dec : Discrete K) (c c' : Cache K V) (key : K) (value : V)
    : Type ℓ where
  pub valid : IsValid dec c'
  pub protected : c'.protected ≡ c.protected
  pub slots : c'.capacity_slots ≡ c.capacity_slots
  pub after : (j : K) → lookup dec c' j ≡ found_after dec c key value j

module _ {ℓ} {K V : Type ℓ} (dec : Discrete K) (c : Cache K V) (key : K) (value : V)
    (h : IsValid dec c) (absent : lookup dec c key ≡ none) where
  not_contained : contains dec c key ≡ false
  unfolding contains
  not_contained = ground (arith, absent)

  put_room :
      length c.probationary < c.probationary_capacity
      → (c' : Cache K V) × (put dec c key value ≡ (ok (victim c), c')) × Inserted dec c c' key value
  unfolding put victim
  put_room room = (
    inserted dec c key value c.probationary c.evictions,
    rw (
      not_contained,
      lt→leb _ _ room,
      asserted dec c key value h absent c.probationary c.evictions h.unique_probationary h.disjoint
          (absent_probationary dec c key value h absent) room,
    ),
    record {
      valid =
          inserted-IsValid dec c key value h absent c.probationary c.evictions h.unique_probationary
            h.disjoint (absent_probationary dec c key value h absent) room;
      protected = refl;
      slots = refl;
      after = λ j.
          rw (lt→leb _ _ room)
            (ground (arith, absent, Dict.get-set dec key j value c.probationary));
    },
  )

  module _ (k : K) (v : V) (rest : Dict K V) (e : c.probationary ≡ (k, v) ∷ rest)
      (full : c.probationary_capacity ≤ length c.probationary) where
    victim_full : victim c ≡ some (k, v)
    unfolding victim
    victim_full = rw (le→leb _ _ full) (rw e)

    evict_full :
        evict c ≡ (ok (k, v), record c { probationary = rest; evictions = c.evictions + 1 })
    unfolding evict
    evict_full = rw (e, evict)

    rest-IsUnique : Dict.IsUnique dec ((k, v) ∷ rest)
    rest-IsUnique = rw e at h.unique_probationary

    rest_apart : AreDisjoint dec rest c.protected
    unfolding Dict.get
    rest_apart j = ground (arith, rw e at (h.disjoint j), rest-IsUnique.0)

    absent_rest : Dict.get dec key rest ≡ none
    unfolding Dict.get
    absent_rest = ground (arith, rw e at (absent_probationary dec c key value h absent))

    rest_room : length rest < c.probationary_capacity
    rest_room = omega (arith, ap length e, h.probationary_fits)

    after_full :
        (j : K)
        → lookup dec (inserted dec c key value rest (c.evictions + 1)) j
          ≡ found_after dec c key value j
    unfolding Dict.get
    after_full j = rw victim_full (
        rw e (
          ground (
            arith,
            absent,
            rest-IsUnique.0,
            rw e at (h.disjoint j),
            Dict.get-set dec key j value rest,
          )))

    put_full :
        (c' : Cache K V) × (put dec c key value ≡ (ok (victim c), c')) × Inserted dec c c' key value
    unfolding put
    put_full = (
      inserted dec c key value rest (c.evictions + 1),
      rw (
        not_contained,
        le→leb _ _ full,
        evict_full,
        asserted dec c key value h absent rest (c.evictions + 1) rest-IsUnique.1 rest_apart
            absent_rest rest_room,
        victim_full,
      ),
      record {
        valid =
            inserted-IsValid dec c key value h absent rest (c.evictions + 1) rest-IsUnique.1
              rest_apart absent_rest rest_room;
        protected = refl;
        slots = refl;
        after = after_full;
      },
    )

  -- `put` of a key that is in neither tier never raises, the assertion on the residency bound
  -- included. It returns the entry it evicts: the oldest probationary one if that tier is full,
  -- else none. It leaves a valid cache of the same capacity whose protected tier is untouched, the
  -- new value is found under the key, the evicted key is gone, and all others are found as before.
  pub put-Inserted :
      (c' : Cache K V) × (put dec c key value ≡ (ok (victim c), c')) × Inserted dec c c' key value
  put-Inserted = elim (Bool-cases (leb c.probationary_capacity (length c.probationary))) [
    | inr room ↦ put_room (leb→lt _ _ room)
    | inl full ↦ on_full c.probationary refl (leb→le _ _ full)
  ]
    where
      on_full :
          (d : Dict K V)
          → c.probationary ≡ d
          → c.probationary_capacity ≤ length c.probationary
          → (c' : Cache K V) × (put dec c key value ≡ (ok (victim c), c'))
            × Inserted dec c c' key value
      on_full [] e full = absurd (omega (arith, ap length e, h.some_probationary))
      on_full ((k, v) ∷ rest) e full = put_full k v rest e full
