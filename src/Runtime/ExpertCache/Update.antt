-- ===== src/Runtime/ExpertCache/Update.antt =====
-- `put` of a key that is resident: a lookup, then the new value in the tier where the key is.
use mathlib.Core.Logic.{ite}
use pocket_titan.Prelude.{◌≡◌, refl, inl, inr, true, none, some, ok, arith, Option-cases, ◌∙◌}
use pocket_titan.Prelude.Dict
use pocket_titan.Prelude.Dict.{Dict, or_else, is_some}
use pocket_titan.Runtime.ExpertCache.{Cache, get, put, contains, refresh}
use pocket_titan.Runtime.ExpertCache.Promotion.{IsValid, Refreshed, lookup}
use pocket_titan.Runtime.ExpertCache.Get.{get-Refreshed}

-- `c'` is `c` with the key's value replaced.
pub record Updated {ℓ} {K V : Type ℓ} (dec : Discrete K) (c c' : Cache K V) (key : K) (value : V)
    : Type ℓ where
  pub valid : IsValid dec c'
  pub slots : c'.capacity_slots ≡ c.capacity_slots
  pub after : (j : K) → lookup dec c' j ≡ ite (dec key j) (some value) (lookup dec c j)

module _ {ℓ} {K V : Type ℓ} (dec : Discrete K) (c : Cache K V) (key : K) (value w : V)
    (h : IsValid dec c) (resident : lookup dec c key ≡ some w) where
  set_protected :
      (x : V)
      → Dict.get dec key c.protected ≡ some x
      → Updated dec c (record c { protected = Dict.set dec key value c.protected }) key value
  set_protected x hit = record {
    valid = record {
      unique_probationary = h.unique_probationary;
      unique_protected = Dict.set-IsUnique dec key value c.protected h.unique_protected;
      disjoint = λ j. ground (arith, h.disjoint j, Dict.get-set dec key j value c.protected);
      probationary_fits = h.probationary_fits;
      protected_fits = omega (arith, Dict.length-set_present dec key value x c.protected hit);
      some_probationary = h.some_probationary;
      some_protected = h.some_protected;
      capacities = h.capacities;
    };
    slots = refl;
    after = λ j. ground (arith, Dict.get-set dec key j value c.protected);
  }

  set_probationary :
      (x : V)
      → Dict.get dec key c.protected ≡ none
      → Dict.get dec key c.probationary ≡ some x
      → Updated dec c (record c { probationary = Dict.set dec key value c.probationary }) key value
  set_probationary x miss hit = record {
    valid = record {
      unique_probationary = Dict.set-IsUnique dec key value c.probationary h.unique_probationary;
      unique_protected = h.unique_protected;
      disjoint =
          λ j. ground (arith, h.disjoint j, miss, Dict.get-set dec key j value c.probationary);
      probationary_fits = omega (arith, Dict.length-set_present dec key value x c.probationary hit);
      protected_fits = h.protected_fits;
      some_probationary = h.some_probationary;
      some_protected = h.some_protected;
      capacities = h.capacities;
    };
    slots = refl;
    after = λ j. ground (arith, miss, Dict.get-set dec key j value c.probationary);
  }

  refresh-Updated :
      (c' : Cache K V) × (refresh dec key value (ok (some w), c) ≡ (ok none, c'))
      × Updated dec c c' key value
  unfolding refresh
  refresh-Updated = elim (Option-cases (Dict.get dec key c.protected)) [
    | inr (x, hit) ↦
        (record c { protected = Dict.set dec key value c.protected }, rw hit, set_protected x hit)
    | inl miss ↦ (
      record c { probationary = Dict.set dec key value c.probationary },
      rw miss,
      set_probationary w miss (ground (arith, resident)),
    )
  ]

module _ {ℓ} {K V : Type ℓ} (dec : Discrete K) (c : Cache K V) (key : K) (value w : V)
    (h : IsValid dec c) (resident : lookup dec c key ≡ some w) where
  contained : contains dec c key ≡ true
  unfolding contains
  contained = ground (arith, resident)

  -- `put` of a resident key never raises and evicts nothing: it leaves a valid cache of the same
  -- capacity in which the key has the new value and every other key the value it had.
  pub put-Updated :
      (c' : Cache K V) × (put dec c key value ≡ (ok none, c')) × Updated dec c c' key value
  unfolding put
  put-Updated =
      let (c1, got, fresh) = get-Refreshed dec c key h in after_lookup c1 (rw resident at got) fresh
    where
      after_lookup :
          (c1 : Cache K V)
          → get dec c key ≡ (ok (some w), c1)
          → Refreshed dec c c1
          → (c' : Cache K V) × (put dec c key value ≡ (ok none, c')) × Updated dec c c' key value
      after_lookup c1 got fresh =
          let (c2, done, up) =
            refresh-Updated dec c1 key value w fresh.valid (fresh.same key ∙ resident) in
          (
            c2,
            rw (contained, got) done,
            record {
              valid = up.valid;
              slots = up.slots ∙ fresh.slots;
              after = λ j. ground (arith, up.after j, fresh.same j);
            },
          )
