-- ===== src/Runtime/ExpertCache/Degenerate.antt =====
-- A cache whose probationary tier takes all slots: the first repeated lookup raises.
use mathlib.Core.Logic.{if_pos}
use pocket_titan.Prelude.{
  ok, ℕ, ◌-◌, ◌<◌, ◌≤◌, max, false, le→leb, lt→leb, ◌∷◌, ◌+◌, ◌≡◌, refl, none, some, [], length,
  err, key_error, arith, leb, true,
}
use pocket_titan.Prelude.Dict
use pocket_titan.Prelude.Dict.{Dict, or_else, is_some}
use pocket_titan.Runtime.ExpertCache.{Cache, init, put, get, promote, demote}
use pocket_titan.Runtime.ExpertCache.Promotion.{lookup}

module _ {ℓ} {K V : Type ℓ} (dec : Discrete K) where
  -- What is left when the demotion of a promotion raises.
  abbrev dropped : Cache K V → K → Cache K V
  dropped c key = record c {
    probationary = Dict.remove dec key c.probationary;
    hits = c.hits + 1;
    promotions = c.promotions + 1;
  }

  demote_empty : (c : Cache K V) → c.protected ≡ [] → demote dec c ≡ (err key_error, c)
  unfolding demote
  demote_empty c e = ground arith

  absent_empty : (key : K) (d : Dict K V) → d ≡ [] → Dict.get dec key d ≡ none
  unfolding Dict.get
  absent_empty key d e = rw e

  no_room :
      (c : Cache K V)
      → c.protected_capacity ≡ 0
      → leb c.protected_capacity (length c.protected) ≡ true
  no_room c e = ground arith

  get-dropped :
      (c : Cache K V) (key : K) (value : V)
      → c.protected_capacity ≡ 0
      → c.protected ≡ []
      → Dict.get dec key c.probationary ≡ some value
      → get dec c key ≡ (err key_error, dropped c key)
  unfolding get promote
  get-dropped c key value none_free empty hit =
      rw (absent_empty key c.protected empty, hit, get)
        (rw (no_room c none_free, demote_empty (dropped c key) empty))

  -- With no protected slot, `get` of a probationary key raises KeyError (the source pops from an
  -- empty OrderedDict) and the key is lost from the cache.
  pub get_starved :
      (c : Cache K V) (key : K) (value : V)
      → c.protected_capacity ≡ 0
      → c.protected ≡ []
      → Dict.get dec key c.probationary ≡ some value
      → ((get dec c key).0 ≡ err key_error) × (lookup dec (get dec c key).1 key ≡ none)
  get_starved c key value none_free empty hit =
      rw (get-dropped c key value none_free empty hit) (refl, both_absent)
    where
      both_absent : lookup dec (dropped c key) key ≡ none
      both_absent =
          ground
            (arith, absent_empty key c.protected empty, Dict.get-remove_self dec key c.probationary)

  abbrev fresh : ℕ → ℕ → Dict K V → Cache K V
  fresh slots portion entries = record {
    capacity_slots = slots;
    probationary_capacity = max 1 portion;
    protected_capacity = slots - max 1 portion;
    probationary = entries;
    protected = [];
    hits = 0;
    misses = 0;
    evictions = 0;
    promotions = 0;
    demotions = 0;
  }

  init-fresh :
      (slots portion : ℕ) (c : Cache K V)
      → init slots portion ≡ ok c
      → (0 < slots) × (c ≡ fresh slots portion [])
  unfolding init
  init-fresh slots portion c h = ground arith

  put-fresh :
      (slots portion : ℕ) (key : K) (value : V)
      → 0 < slots
      → put dec (fresh slots portion []) key value
        ≡ (ok none, fresh slots portion ((key, value) ∷ []))
  unfolding put Dict.get Dict.set
  put-fresh slots portion key value pos =
      let room : leb (max 1 portion) 0 ≡ false = lt→leb _ _ (omega arith) in
      let bound : leb (1 + 0) slots ≡ true = le→leb _ _ (omega arith) in rw (room, bound)

  -- A cache whose probationary share takes every slot, as the default share does for one slot,
  -- raises KeyError on the lookup of the first expert put into it, and loses that expert.
  pub get-put_starved :
      (slots portion : ℕ) (c : Cache K V) (key : K) (value : V)
      → slots ≤ max 1 portion
      → init slots portion ≡ ok c
      → ((get dec (put dec c key value).1 key).0 ≡ err key_error)
        × (lookup dec (get dec (put dec c key value).1 key).1 key ≡ none)
  unfolding Dict.get
  get-put_starved slots portion c key value small started =
      let (pos, e) = init-fresh slots portion c started in
      rw (e, put-fresh slots portion key value pos)
        (get_starved (fresh slots portion ((key, value) ∷ [])) key value (omega arith) refl
          (if_pos (dec key key) refl _ _))
