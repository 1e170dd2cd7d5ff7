-- ===== src/Sim/Slru/Bounds.antt =====
-- Both tiers stay within their capacities, and every access is counted.
use pocket_titan.Sim.Slru.{init, resident, demote, promote, access, SlruCache, enter}
use pocket_titan.Prelude.{
  false, ℕ, Option-cases, ◌||◌, suc, Bool, suc, ◌+◌, ◌≤◌, ◌<◌, ◌≡◌, inl, inr, refl, ap, true, some,
  [], ◌∷◌, length, leb, leb→le, leb→lt, le→leb, ok, Bool-cases, arith,
}
use pocket_titan.Prelude.Dict
use pocket_titan.Prelude.Dict.{Dict, is_some}
use pocket_titan.Sim.Lru.{pop_oldest}

module _ {ℓ} {K : Type ℓ} (dec : Discrete K) where
  pub record IsBounded (c : SlruCache K) : Type ℓ where
    pub probationary_fits : length c.probationary ≤ c.probationary_cap
    pub protected_fits : length c.protected ≤ c.protected_cap
    pub some_probationary : 0 < c.probationary_cap
    pub some_protected : 0 < c.protected_cap

  -- A key has been put into the probationary tier.
  pub record Entered (c : SlruCache K) (key : K) (c' : SlruCache K) : Type ℓ where
    pub fits : length c'.probationary ≤ c.probationary_cap
    pub protected : c'.protected ≡ c.protected
    pub there : Dict.get dec key c'.probationary ≡ some tt
    pub counted : c'.hits + c'.misses ≡ c.hits + c.misses
    pub probationary_cap : c'.probationary_cap ≡ c.probationary_cap
    pub protected_cap : c'.protected_cap ≡ c.protected_cap

  enter-Entered :
      (c : SlruCache K) (key : K)
      → 0 < c.probationary_cap
      → length c.probationary ≤ c.probationary_cap
      → (c' : SlruCache K) × (enter dec c key ≡ ok c') × Entered c key c'
  unfolding enter pop_oldest
  enter-Entered c key p fits = elim (Bool-cases (leb c.probationary_cap (length c.probationary))) [
    | inr room ↦
        let below = leb→lt _ _ room in
        rw room (
          record c { probationary = Dict.set dec key tt c.probationary },
          refl,
          record {
            fits = omega (arith, Dict.length-set_le dec key tt c.probationary);
            protected = refl;
            there = Dict.get-set_self dec key tt c.probationary;
            counted = refl;
            probationary_cap = refl;
            protected_cap = refl;
          },
        )
    | inl filled ↦ when_full c.probationary refl (leb→le _ _ filled)
  ]
    where
      when_full :
          (d : Dict K (Unit {ℓ}))
          → c.probationary ≡ d
          → c.probationary_cap ≤ length c.probationary
          → (c' : SlruCache K) × (enter dec c key ≡ ok c') × Entered c key c'
      when_full [] e full = absurd (omega (arith, ap length e))
      when_full (x ∷ rest) e full =
          let shut : leb c.probationary_cap (length c.probationary) ≡ true = le→leb _ _ full in
          (
            record c { probationary = Dict.set dec key tt rest; evictions = c.evictions + 1 },
            rw (shut, e, enter),
            record {
              fits = omega (arith, ap length e, Dict.length-set_le dec key tt rest);
              protected = refl;
              there = Dict.get-set_self dec key tt rest;
              counted = refl;
              probationary_cap = refl;
              protected_cap = refl;
            },
          )

  -- What an access to a key leaves.
  pub record Accessed (c : SlruCache K) (key : K) (c' : SlruCache K) : Type ℓ where
    pub bounded : IsBounded c'
    pub there : resident dec c' key ≡ true
    pub counted : c'.hits + c'.misses ≡ suc (c.hits + c.misses)
    pub probationary_cap : c'.probationary_cap ≡ c.probationary_cap
    pub protected_cap : c'.protected_cap ≡ c.protected_cap

  abbrev hit_protected : SlruCache K → K → SlruCache K
  hit_protected c key = record c {
    protected = Dict.move_to_end dec key tt c.protected;
    hits = c.hits + 1;
  }

  touch-Accessed :
      (c : SlruCache K) (key : K) (u : Unit {ℓ})
      → IsBounded c
      → Dict.get dec key c.protected ≡ some u
      → Accessed c key (hit_protected c key)
  touch-Accessed c key u b hit = record {
    bounded = record {
      probationary_fits = b.probationary_fits;
      protected_fits =
          omega (arith, b.protected_fits, Dict.length-move_to_end_le dec key tt u c.protected hit);
      some_probationary = b.some_probationary;
      some_protected = b.some_protected;
    };
    there = rw (Dict.get-move_to_end_self dec key tt c.protected) refl;
    counted = omega arith;
    probationary_cap = refl;
    protected_cap = refl;
  }

  -- A promotion into a protected tier that has room now.
  promote-Accessed :
      (c c' : SlruCache K) (key : K)
      → IsBounded c
      → length c'.probationary ≤ c.probationary_cap
      → length c'.protected < c.protected_cap
      → c'.hits + c'.misses ≡ c.hits + c.misses
      → c'.probationary_cap ≡ c.probationary_cap
      → c'.protected_cap ≡ c.protected_cap
      → Accessed c key
          (record c' { protected = Dict.set dec key tt c'.protected; hits = c'.hits + 1 })
  promote-Accessed c c' key b fits room counted cap cap' = record {
    bounded = record {
      probationary_fits = omega arith;
      protected_fits = omega (arith, Dict.length-set_le dec key tt c'.protected);
      some_probationary = omega (arith, b.some_probationary);
      some_protected = omega (arith, b.some_protected);
    };
    there = rw (Dict.get-set_self dec key tt c'.protected) refl;
    counted = omega arith;
    probationary_cap = cap;
    protected_cap = cap';
  }

  promote_access :
      (c : SlruCache K) (key : K) (u : Unit {ℓ})
      → IsBounded c
      → Dict.get dec key c.probationary ≡ some u
      → (c' : SlruCache K) × (promote dec c key ≡ ok (true, c')) × Accessed c key c'
  unfolding promote demote
  promote_access c key u b hit = elim (Bool-cases (leb c.protected_cap (length c.protected))) [
    | inr room ↦ rw room (
      record taken { protected = Dict.set dec key tt c.protected; hits = c.hits + 1 },
      refl,
      promote-Accessed c taken key b fits (leb→lt _ _ room) refl refl refl,
    )
    | inl filled ↦ when_full c.protected refl (leb→le _ _ filled)
  ]
    where
      taken : SlruCache K
      taken = record c { probationary = Dict.remove dec key c.probationary }

      fits : length taken.probationary ≤ c.probationary_cap
      fits = omega (arith, b.probationary_fits, Dict.length-remove_le dec key c.probationary)

      when_full :
          (d : Dict K (Unit {ℓ}))
          → c.protected ≡ d
          → c.protected_cap ≤ length c.protected
          → (c' : SlruCache K) × (promote dec c key ≡ ok (true, c')) × Accessed c key c'
      when_full [] e full = absurd (omega (arith, ap length e, b.some_protected))
      when_full (x ∷ rest) e full =
          let shut : leb c.protected_cap (length c.protected) ≡ true = le→leb _ _ full in
          let (c1, done, entered) =
            enter-Entered (record taken { protected = rest }) x.0 b.some_probationary fits in
          (
            record c1 { protected = Dict.set dec key tt c1.protected; hits = c1.hits + 1 },
            rw (shut, e, promote) (rw done refl),
            promote-Accessed c c1 key b entered.fits
                (omega (arith, ap length e, ap length entered.protected, b.protected_fits))
                entered.counted entered.probationary_cap entered.protected_cap,
          )

  -- Whatever its split, a bounded segmented LRU never raises: an access answers whether the key was
  -- resident in either tier, counts it once, makes the key resident, and leaves both tiers within
  -- their capacities.
  pub access_bounded :
      (c : SlruCache K) (key : K)
      → IsBounded c
      → (c' : SlruCache K) × (access dec c key ≡ ok (resident dec c key, c')) × Accessed c key c'
  unfolding access
  access_bounded c key b = elim (Option-cases (Dict.get dec key c.protected)) [
    | inr (u, hit) ↦ rw (hit, access) (hit_protected c key, refl, touch-Accessed c key u b hit)
    | inl absent ↦ elim (Option-cases (Dict.get dec key c.probationary)) [
      | inr (u, hit) ↦ rw (absent, hit, access) (promote_access c key u b hit)
      | inl absent' ↦
          let (c1, done, entered) =
            enter-Entered (record c { misses = c.misses + 1 }) key b.some_probationary
              b.probationary_fits in
          rw (absent, absent', access)
            (
              c1,
              rw done refl,
              record {
                bounded = record {
                  probationary_fits = omega (arith, entered.fits, entered.probationary_cap);
                  protected_fits =
                      omega (
                        arith,
                        ap length entered.protected,
                        b.protected_fits,
                        entered.protected_cap,
                      );
                  some_probationary = omega (arith, b.some_probationary, entered.probationary_cap);
                  some_protected = omega (arith, b.some_protected, entered.protected_cap);
                };
                there = or_there (is_some (Dict.get dec key c1.protected)) (rw entered.there refl);
                counted = omega (arith, entered.counted);
                probationary_cap = entered.probationary_cap;
                protected_cap = entered.protected_cap;
              },
            )
    ]
  ]
    where
      or_there : (b : Bool) {b' : Bool} → b' ≡ true → (b || b') ≡ true
      or_there true e = refl
      or_there false e = e

  init-IsBounded : (slots portion : ℕ) → IsBounded (init slots portion)
  unfolding init
  init-IsBounded slots portion = record {
    probationary_fits = omega arith;
    protected_fits = omega arith;
    some_probationary = omega arith;
    some_protected = omega arith;
  }
