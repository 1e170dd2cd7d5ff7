-- ===== src/Sim/Lru/Stack.antt =====
-- The cache is the end of the list of all keys in the order of their last use.
use mathlib.Core.List.{append_assoc, append-nil}
use pocket_titan.Prelude.{
  if◌then◌else◌, ℕ, suc, ◌+◌, ◌≤◌, ◌<◌, ◌≡◌, ◌⊎◌, inl, inr, refl, sym, ap, ◌∙◌, ◌++◌, Bool, true,
  false, none, some, List, [], ◌∷◌, length, leb, leb→le, leb→lt, le→leb, ok, Option-cases,
  Bool-cases, arith, max,
}
use pocket_titan.Prelude.Dict
use pocket_titan.Prelude.Dict.{Dict, or_else, is_some}
use pocket_titan.Sim.Lru.{LruCache, init, miss, access, access_all, total_accesses, pop_oldest}

module _ {ℓ} {K : Type ℓ} (dec : Discrete K) where
  -- The distinct keys of a trace, by last use, the oldest first.
  unfoldable pub last_uses : List K → Dict K (Unit {ℓ})
  last_uses [] = []
  last_uses (k ∷ ks) =
      let rest = last_uses ks in if is_some (Dict.get dec k rest) then rest else (k, tt) ∷ rest

  pub last_uses-snoc :
      (ks : List K) (k : K) → last_uses (ks ++ k ∷ []) ≡ Dict.move_to_end dec k tt (last_uses ks)
  unfolding last_uses Dict.get Dict.remove
  last_uses-snoc [] k = refl
  last_uses-snoc (j ∷ ks) k =
      ground (arith, last_uses-snoc ks k, Dict.get-move_to_end dec k j tt (last_uses ks))

  pub last_uses-IsUnique : (ks : List K) → Dict.IsUnique dec (last_uses ks)
  unfolding last_uses
  last_uses-IsUnique [] = tt
  last_uses-IsUnique (k ∷ ks) = elim (Option-cases (Dict.get dec k (last_uses ks))) [
    | inl absent ↦ rw (absent, last_uses, Dict.IsUnique) (absent, last_uses-IsUnique ks)
    | inr (u, hit) ↦ rw (hit, last_uses, Dict.IsUnique) (last_uses-IsUnique ks)
  ]

  -- The cache is the end of `uses`; unless it is full, it is all of it.
  pub record IsTop (uses : Dict K (Unit {ℓ})) (c : LruCache K) : Type ℓ where
    pub older : Dict K (Unit {ℓ})
    pub split : uses ≡ older ++ c.cache
    pub full : (older ≡ []) ⊎ (length c.cache ≡ c.capacity)
    pub fits : length c.cache ≤ c.capacity
    pub some_capacity : 0 < c.capacity

  remove-append :
      (k : K) (p m : Dict K (Unit {ℓ}))
      → Dict.remove dec k (p ++ m) ≡ Dict.remove dec k p ++ Dict.remove dec k m
  unfolding Dict.remove
  remove-append k [] m = refl
  remove-append k ((j, u) ∷ p) m = ground (arith, remove-append k p m)

  IsUnique-right : (p m : Dict K (Unit {ℓ})) → Dict.IsUnique dec (p ++ m) → Dict.IsUnique dec m
  IsUnique-right [] m u = u
  IsUnique-right ((j, v) ∷ p) m u = IsUnique-right p m u.1

  absent_left :
      (k : K) (v : Unit {ℓ}) (p m : Dict K (Unit {ℓ}))
      → Dict.IsUnique dec (p ++ m)
      → Dict.get dec k m ≡ some v
      → Dict.get dec k p ≡ none
  unfolding Dict.get
  absent_left k v [] m u h = refl
  absent_left k v ((j, w) ∷ p) m u h =
      ground (arith, absent_left k v p m u.1, Dict.get-append dec j p m, u.0)

  -- A result of an access on a top of `uses`.
  pub record Accessed (uses : Dict K (Unit {ℓ})) (c : LruCache K) (key : K) (hit : Bool)
      (c' : LruCache K) : Type ℓ where
    pub top : IsTop (Dict.move_to_end dec key tt uses) c'
    pub counted : total_accesses c' ≡ suc (total_accesses c)
    pub hits : c'.hits ≡ (elim hit [ true ↦ suc c.hits | false ↦ c.hits ])
    pub capacity : c'.capacity ≡ c.capacity

  module _ (uses : Dict K (Unit {ℓ})) (c : LruCache K) (key : K) (u : Dict.IsUnique dec uses)
      (t : IsTop uses c) where
    abbrev touched : LruCache K
    touched = record c { hits = c.hits + 1; cache = Dict.move_to_end dec key tt c.cache }

    touch-Accessed : Dict.get dec key c.cache ≡ some tt → Accessed uses c key true touched
    touch-Accessed hit =
        let v : Dict.IsUnique dec (t.older ++ c.cache) = rw t.split at u in
        let same_length : length touched.cache ≡ length c.cache =
          Dict.length-move_to_end dec key tt tt c.cache (IsUnique-right t.older c.cache v) hit in
        record {
          top = record {
            older = t.older;
            split = rw (
              t.split,
              remove-append key t.older c.cache,
              Dict.remove_absent dec key t.older (absent_left key tt t.older c.cache v hit),
              append_assoc,
            );
            full = elim t.full [ inl whole ↦ inl whole | inr capped ↦ inr (same_length ∙ capped) ];
            fits = omega (arith, t.fits);
            some_capacity = t.some_capacity;
          };
          counted = omega arith;
          hits = omega arith;
          capacity = refl;
        }

    -- A miss with room: the cache is all of `uses`.
    abbrev added : LruCache K
    added = record c { misses = c.misses + 1; cache = Dict.set dec key tt c.cache }

    add-Accessed :
        Dict.get dec key c.cache ≡ none
        → length c.cache < c.capacity
        → Accessed uses c key false added
    add-Accessed absent room =
        let whole : t.older ≡ [] = elim t.full [ inl e ↦ e | inr e ↦ absurd (omega arith) ] in
        let all : uses ≡ c.cache = t.split ∙ ap (λ p. p ++ c.cache) whole in
        record {
          top = record {
            older = [];
            split =
                rw (all, Dict.remove_absent dec key c.cache absent)
                  (sym (Dict.set_absent dec key tt c.cache absent));
            full = inl refl;
            fits = omega (arith, Dict.length-set_absent dec key tt c.cache absent);
            some_capacity = t.some_capacity;
          };
          counted = omega arith;
          hits = refl;
          capacity = refl;
        }

    abbrev replaced : Dict K (Unit {ℓ}) → LruCache K
    replaced rest = record c {
      misses = c.misses + 1;
      evictions = c.evictions + 1;
      cache = Dict.set dec key tt rest;
    }

    -- A miss with a full cache: the oldest key joins the older ones.
    replace-Accessed :
        (x : K × Unit {ℓ}) (rest : Dict K (Unit {ℓ}))
        → c.cache ≡ x ∷ rest
        → Dict.get dec key (x ∷ rest) ≡ none
        → c.capacity ≤ length c.cache
        → Accessed uses c key false (replaced rest)
    unfolding Dict.get
    replace-Accessed x rest e absent filled =
        let absent' : Dict.get dec key rest ≡ none = ground arith in
        let size : length c.cache ≡ suc (length rest) = ap length e in
        record {
          top = record {
            older = Dict.remove dec key t.older ++ x ∷ [];
            split =
                rw
                  (
                    t.split,
                    e,
                    remove-append key t.older (x ∷ rest),
                    Dict.remove_absent dec key (x ∷ rest) absent,
                    Dict.set_absent dec key tt rest absent',
                  )
                  (append_assoc (Dict.remove dec key t.older) (x ∷ rest) ((key, tt) ∷ [])
                    ∙ sym (
                        append_assoc (Dict.remove dec key t.older) (x ∷ [])
                          (rest ++ (key, tt) ∷ [])));
            full = inr (omega (arith, t.fits, Dict.length-set_absent dec key tt rest absent'));
            fits = omega (arith, t.fits, Dict.length-set_absent dec key tt rest absent');
            some_capacity = t.some_capacity;
          };
          counted = omega arith;
          hits = refl;
          capacity = refl;
        }

    -- An access never raises, answers whether the key was there, and keeps the cache a top.
    pub access-Accessed :
        (c' : LruCache K) × (access dec c key ≡ ok (is_some (Dict.get dec key c.cache), c'))
        × Accessed uses c key (is_some (Dict.get dec key c.cache)) c'
    unfolding access miss pop_oldest
    access-Accessed = elim (Option-cases (Dict.get dec key c.cache)) [
      | inr (_, hit) ↦ rw (hit, access) (touched, refl, touch-Accessed hit)
      | inl absent ↦ rw (absent, access) (missed absent)
    ]
      where
        when_full :
            (d : Dict K (Unit {ℓ}))
            → c.cache ≡ d
            → Dict.get dec key c.cache ≡ none
            → c.capacity ≤ length c.cache
            → (c' : LruCache K) × (miss dec c key ≡ ok (false, c')) × Accessed uses c key false c'
        when_full [] e absent filled = absurd (omega (arith, ap length e, t.some_capacity))
        when_full (x ∷ rest) e absent filled =
            let shut : leb c.capacity (length c.cache) ≡ true = le→leb _ _ filled in
            (replaced rest, rw (shut, e, miss), replace-Accessed x rest e (rw e at absent) filled)

        missed :
            Dict.get dec key c.cache ≡ none
            → (c' : LruCache K) × (miss dec c key ≡ ok (false, c')) × Accessed uses c key false c'
        missed absent = elim (Bool-cases (leb c.capacity (length c.cache))) [
          | inr room ↦ rw room (added, refl, add-Accessed absent (leb→lt _ _ room))
          | inl filled ↦ when_full c.cache refl absent (leb→le _ _ filled)
        ]

  -- A run over a trace, from the trace that has been run.
  access_all-IsTop :
      (past keys : List K) (c : LruCache K)
      → IsTop (last_uses past) c
      → (c' : LruCache K) × (access_all dec c keys ≡ ok c')
        × IsTop (last_uses (past ++ keys)) c'
        × (total_accesses c' ≡ total_accesses c + length keys)
        × (c'.capacity ≡ c.capacity)
  unfolding access_all
  access_all-IsTop past [] c t = (c, refl, rw append-nil t, omega arith, refl)
  access_all-IsTop past (key ∷ keys) c t =
      let (c1, e, a) = access-Accessed (last_uses past) c key (last_uses-IsUnique past) t in
      let (c', e', t', counted, same) =
        access_all-IsTop (past ++ key ∷ []) keys c1 (rw (last_uses-snoc past key) a.top) in
      (
        c',
        rw e e',
        rw (append_assoc past (key ∷ []) keys) at t',
        omega (arith, a.counted),
        same ∙ a.capacity,
      )

  -- A run of the LRU policy over any trace never raises and counts one hit or miss for each access,
  -- and its cache then holds, in order, the last keys of the trace: of the list of its distinct keys
  -- by last use, `older ++ cache`, it is all that fits, or as many as there are slots.
  pub access_all_recent :
      (slots : ℕ) (keys : List K)
      → (c' : LruCache K) × (older : Dict K (Unit {ℓ})) × (access_all dec (init slots) keys ≡ ok c')
        × (last_uses keys ≡ older ++ c'.cache)
        × ((older ≡ []) ⊎ (length c'.cache ≡ max 1 slots))
        × (length c'.cache ≤ max 1 slots)
        × (total_accesses c' ≡ length keys)
  unfolding init last_uses
  access_all_recent slots keys =
      let (c', e, t, counted, same) = access_all-IsTop [] keys (init slots) (record {
        older = [];
        split = refl;
        full = inl refl;
        fits = omega arith;
        some_capacity = omega arith;
      }) in
      (
        c',
        t.older,
        e,
        t.split,
        elim t.full [ inl whole ↦ inl whole | inr capped ↦ inr (capped ∙ same) ],
        omega (arith, t.fits, same),
        omega (arith, counted),
      )
