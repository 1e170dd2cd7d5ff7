-- ===== src/Runtime/ExpertCache/Promotion.antt =====
-- What `promote`, `get` and `put` compute on each branch, and the invariant that they keep.
use pocket_titan.Prelude.{
  Option, ◌+◌, ◌≤◌, ◌<◌, ◌≡◌, ◌⊎◌, inl, inr, refl, none, some, [], ◌∷◌, length, leb, ok, arith,
  Bool-cases, le→leb, lt→leb, leb→le, leb→lt, ap,
}
use pocket_titan.Prelude.Dict
use pocket_titan.Prelude.Dict.{or_else, Dict, is_some, IsUnique}
use pocket_titan.Runtime.ExpertCache.{Cache, demote, promote}

-- No key stands in both tiers.
abbrev pub AreDisjoint {ℓ} : {K V : Type ℓ} → Discrete K → Dict K V → Dict K V → Type ℓ
AreDisjoint {K} dec a b = (k : K) → (Dict.get dec k a ≡ none) ⊎ (Dict.get dec k b ≡ none)

pub record IsValid {ℓ} {K V : Type ℓ} (dec : Discrete K) (c : Cache K V) : Type ℓ where
  pub unique_probationary : IsUnique dec c.probationary
  pub unique_protected : IsUnique dec c.protected
  pub disjoint : AreDisjoint dec c.probationary c.protected
  pub probationary_fits : length c.probationary ≤ c.probationary_capacity
  pub protected_fits : length c.protected ≤ c.protected_capacity
  pub some_probationary : 0 < c.probationary_capacity
  pub some_protected : 0 < c.protected_capacity
  pub capacities : c.probationary_capacity + c.protected_capacity ≡ c.capacity_slots

-- The value that a client can find, in either tier.
abbrev pub lookup {ℓ} : {K V : Type ℓ} → Discrete K → Cache K V → K → Option V
lookup dec c k = or_else (Dict.get dec k c.protected) (Dict.get dec k c.probationary)

-- `c'` is valid and holds what `c` holds.
pub record Refreshed {ℓ} {K V : Type ℓ} (dec : Discrete K) (c c' : Cache K V) : Type ℓ where
  pub valid : IsValid dec c'
  pub same : (j : K) → lookup dec c' j ≡ lookup dec c j
  pub slots : c'.capacity_slots ≡ c.capacity_slots

module _ {ℓ} {K V : Type ℓ} (dec : Discrete K) where
  -- What a promotion leaves, with the protected tier full and with room in it.
  abbrev pub swapped : Cache K V → K → V → K → V → Dict K V → Cache K V
  swapped c key value old_key old rest = record c {
    probationary = Dict.set dec old_key old (Dict.remove dec key c.probationary);
    protected = Dict.set dec key value rest;
    hits = c.hits + 1;
    promotions = c.promotions + 1;
    demotions = c.demotions + 1;
  }

  abbrev pub moved : Cache K V → K → V → Cache K V
  moved c key value = record c {
    probationary = Dict.remove dec key c.probationary;
    protected = Dict.set dec key value c.protected;
    hits = c.hits + 1;
    promotions = c.promotions + 1;
  }

  pub promote_full :
      (c : Cache K V) (key : K) (value : V) (old_key : K) (old : V) (rest : Dict K V)
      → c.protected_capacity ≤ length c.protected
      → c.protected ≡ (old_key, old) ∷ rest
      → promote dec c key value ≡ (ok (some value), swapped c key value old_key old rest)
  unfolding promote
  promote_full c key value old_key old rest full e = rw (le→leb _ _ full) (rw (e, demote))

  pub promote_room :
      (c : Cache K V) (key : K) (value : V)
      → length c.protected < c.protected_capacity
      → promote dec c key value ≡ (ok (some value), moved c key value)
  unfolding promote
  promote_room c key value room = rw (lt→leb _ _ room)

  -- The tiers after a swap are disjoint, and so are those after a move.
  swapped-AreDisjoint :
      (a : Dict K V) (key : K) (value : V) (old_key : K) (old : V) (rest : Dict K V)
      → AreDisjoint dec a ((old_key, old) ∷ rest)
      → IsUnique dec ((old_key, old) ∷ rest)
      → Dict.get dec key ((old_key, old) ∷ rest) ≡ none
      → AreDisjoint dec
          (Dict.set dec old_key old (Dict.remove dec key a))
          (Dict.set dec key value rest)
  unfolding Dict.get
  swapped-AreDisjoint a key value old_key old rest apart unique absent j = ground (
    arith,
    apart j,
    Dict.get-set dec old_key j old (Dict.remove dec key a),
    Dict.get-remove dec key j a,
    Dict.get-set dec key j value rest,
  )

  moved-AreDisjoint :
      (a b : Dict K V) (key : K) (value : V)
      → AreDisjoint dec a b
      → AreDisjoint dec (Dict.remove dec key a) (Dict.set dec key value b)
  moved-AreDisjoint a b key value apart j =
      ground (arith, apart j, Dict.get-remove dec key j a, Dict.get-set dec key j value b)

  module _ (c : Cache K V) (key : K) (value : V) (h : IsValid dec c)
      (hit : Dict.get dec key c.probationary ≡ some value)
      (absent : Dict.get dec key c.protected ≡ none) where
    moved-IsValid : length c.protected < c.protected_capacity → IsValid dec (moved c key value)
    moved-IsValid room = record {
      unique_probationary = Dict.remove-IsUnique dec key c.probationary h.unique_probationary;
      unique_protected = Dict.set-IsUnique dec key value c.protected h.unique_protected;
      disjoint = moved-AreDisjoint c.probationary c.protected key value h.disjoint;
      probationary_fits =
          omega (arith, Dict.length-remove dec key value c.probationary h.unique_probationary hit);
      protected_fits = omega (arith, Dict.length-set_absent dec key value c.protected absent);
      some_probationary = h.some_probationary;
      some_protected = h.some_protected;
      capacities = h.capacities;
    }

    module _ (old_key : K) (old : V) (rest : Dict K V)
        (e : c.protected ≡ (old_key, old) ∷ rest) where
      IsUnique-old : IsUnique dec ((old_key, old) ∷ rest)
      IsUnique-old = rw e at h.unique_protected

      absent_old : Dict.get dec key ((old_key, old) ∷ rest) ≡ none
      absent_old = rw e at absent

      absent_rest : Dict.get dec key rest ≡ none
      unfolding Dict.get
      absent_rest = ground (arith, absent_old)

      old_not_probationary : Dict.get dec old_key (Dict.remove dec key c.probationary) ≡ none
      unfolding Dict.get
      old_not_probationary =
          ground
            (arith, rw e at (h.disjoint old_key), Dict.get-remove dec key old_key c.probationary)

      swapped-IsValid : IsValid dec (swapped c key value old_key old rest)
      swapped-IsValid = record {
        unique_probationary =
            Dict.set-IsUnique dec old_key old (Dict.remove dec key c.probationary)
              (Dict.remove-IsUnique dec key c.probationary h.unique_probationary);
        unique_protected = Dict.set-IsUnique dec key value rest IsUnique-old.1;
        disjoint =
            swapped-AreDisjoint c.probationary key value old_key old rest (rw e at h.disjoint)
              IsUnique-old absent_old;
        probationary_fits = omega (
          arith,
          Dict.length-set_absent dec old_key old (Dict.remove dec key c.probationary)
              old_not_probationary,
          Dict.length-remove dec key value c.probationary h.unique_probationary hit,
        );
        protected_fits =
            omega (arith, Dict.length-set_absent dec key value rest absent_rest, ap length e);
        some_probationary = h.some_probationary;
        some_protected = h.some_protected;
        capacities = h.capacities;
      }

      swapped-lookup :
          (j : K) → lookup dec (swapped c key value old_key old rest) j ≡ lookup dec c j
      unfolding Dict.get
      swapped-lookup j = rw e (
          ground (
            arith,
            absent_old,
            hit,
            IsUnique-old.0,
            Dict.get-set dec key j value rest,
            Dict.get-set dec old_key j old (Dict.remove dec key c.probationary),
            Dict.get-remove dec key j c.probationary,
          ))

    moved-lookup : (j : K) → lookup dec (moved c key value) j ≡ lookup dec c j
    moved-lookup j = ground (
      arith,
      hit,
      absent,
      Dict.get-set dec key j value c.protected,
      Dict.get-remove dec key j c.probationary,
    )

    -- A promotion of a valid cache succeeds, returns the value, and leaves a valid cache with the
    -- same residents.
    pub promote-Refreshed :
        (c' : Cache K V) × (promote dec c key value ≡ (ok (some value), c')) × Refreshed dec c c'
    promote-Refreshed = elim (Bool-cases (leb c.protected_capacity (length c.protected))) [
      | inl full ↦ on_full c.protected refl (leb→le _ _ full)
      | inr room ↦ (
        moved c key value,
        promote_room c key value (leb→lt _ _ room),
        record { valid = moved-IsValid (leb→lt _ _ room); same = moved-lookup; slots = refl },
      )
    ]
      where
        on_full :
            (d : Dict K V)
            → c.protected ≡ d
            → c.protected_capacity ≤ length c.protected
            → (c' : Cache K V) × (promote dec c key value ≡ (ok (some value), c'))
              × Refreshed dec c c'
        on_full [] e full = absurd (omega (arith, ap length e, h.some_protected))
        on_full ((old_key, old) ∷ rest) e full = (
          swapped c key value old_key old rest,
          promote_full c key value old_key old rest full e,
          record {
            valid = swapped-IsValid old_key old rest e;
            same = swapped-lookup old_key old rest e;
            slots = refl;
          },
        )
