-- ===== src/Runtime/ExpertCache/Get.antt =====
-- `get`: a lookup changes recency and tiers, and nothing that a client can find.
use pocket_titan.Prelude.{◌+◌, ◌≡◌, refl, inl, inr, none, some, ok, arith, Option-cases}
use pocket_titan.Prelude.Dict
use pocket_titan.Prelude.Dict.{Dict, or_else}
use pocket_titan.Runtime.ExpertCache.{Cache, get}
use pocket_titan.Runtime.ExpertCache.Promotion.{IsValid, Refreshed, lookup, promote-Refreshed}

module _ {ℓ} {K V : Type ℓ} (dec : Discrete K) (c : Cache K V) (key : K) (h : IsValid dec c) where
  get_protected :
      (value : V)
      → Dict.get dec key c.protected ≡ some value
      → (c' : Cache K V) × (get dec c key ≡ (ok (some value), c')) × Refreshed dec c c'
  unfolding get
  get_protected value hit = (
    record c { protected = Dict.move_to_end dec key value c.protected; hits = c.hits + 1 },
    rw (hit, get),
    record {
      valid = record {
        unique_probationary = h.unique_probationary;
        unique_protected = Dict.move_to_end-IsUnique dec key value c.protected h.unique_protected;
        disjoint =
            λ j. ground (arith, h.disjoint j, Dict.get-move_to_end dec key j value c.protected);
        probationary_fits = h.probationary_fits;
        protected_fits =
            omega (
              arith,
              Dict.length-move_to_end dec key value value c.protected h.unique_protected hit,
            );
        some_probationary = h.some_probationary;
        some_protected = h.some_protected;
        capacities = h.capacities;
      };
      same = λ j. ground (arith, hit, Dict.get-move_to_end dec key j value c.protected);
      slots = refl;
    },
  )

  get_missing :
      Dict.get dec key c.protected ≡ none
      → Dict.get dec key c.probationary ≡ none
      → (c' : Cache K V) × (get dec c key ≡ (ok none, c')) × Refreshed dec c c'
  unfolding get
  get_missing miss miss' = (
    record c { misses = c.misses + 1 },
    rw (miss, miss', get),
    record {
      valid = record {
        unique_probationary = h.unique_probationary;
        unique_protected = h.unique_protected;
        disjoint = h.disjoint;
        probationary_fits = h.probationary_fits;
        protected_fits = h.protected_fits;
        some_probationary = h.some_probationary;
        some_protected = h.some_protected;
        capacities = h.capacities;
      };
      same = λ j. refl;
      slots = refl;
    },
  )

  -- On a valid cache `get` never raises: it returns the value that the key has in either tier, or
  -- None, and leaves a valid cache of the same capacity in which every key has the value it had.
  pub get-Refreshed :
      (c' : Cache K V) × (get dec c key ≡ (ok (lookup dec c key), c')) × Refreshed dec c c'
  unfolding get
  get-Refreshed = elim (Option-cases (Dict.get dec key c.protected)) [
    | inr (value, hit) ↦ rw hit (get_protected value hit)
    | inl miss ↦ elim (Option-cases (Dict.get dec key c.probationary)) [
      | inr (value, hit) ↦ rw (miss, hit, get) (promote-Refreshed dec c key value h hit miss)
      | inl miss' ↦ rw (miss, miss') (get_missing miss miss')
    ]
  ]
