-- ===== src/Sim/Oracle/Belady.antt =====
-- The oracle against the trace: its table always holds the uses that are still to come.
use mathlib.Core.List.{append_assoc, append-nil}
use mathlib.Core.Logic.{ite}
use pocket_titan.Prelude.{
  ℕ, suc, ◌+◌, ◌≤◌, ◌<◌, ◌≡◌, ◌⊎◌, ◌∙◌, inl, inr, refl, ap, sym, false, none, some, List, [], ◌∷◌,
  ◌++◌, length, ltb, ltb→lt, ltb→le, ok, Option-cases, Bool-cases, arith,
}
use pocket_titan.Prelude.Dict
use pocket_titan.Prelude.Dict.{Dict, is_some}
use pocket_titan.Sim.Oracle.{
  OracleCache, init, future, store, index_trace, without_step, pop_step, furthest, replace, look_up,
  access,
}
use pocket_titan.Sim.Oracle.Furthest.{NoLater, first, furthest_none}

module _ {ℓ} {K : Type ℓ} (dec : Discrete K) where
  -- The steps at which `k` is used in a trace that starts at `step`.
  unfoldable pub positions : K → ℕ → List K → List ℕ
  positions k step [] = []
  positions k step (j ∷ keys) =
      let rest = positions k (suc step) keys in ite (dec j k) (step ∷ rest) rest

  future-store :
      (k j : K) (steps : List ℕ) (table : List (K × List ℕ))
      → future dec k (store dec j steps table) ≡ ite (dec j k) steps (future dec k table)
  unfolding future store
  future-store k j steps [] = ground arith
  future-store k j steps ((i, old) ∷ table) = ground (arith, future-store k j steps table)

  future-index_trace :
      (k : K) (n : ℕ) (keys : List K) (table : List (K × List ℕ))
      → future dec k (index_trace dec n keys table) ≡ future dec k table ++ positions k n keys
  unfolding index_trace positions
  future-index_trace k n [] table = sym (append-nil (future dec k table))
  future-index_trace k n (j ∷ keys) table =
      let later : List (K × List ℕ) = store dec j (future dec j table ++ n ∷ []) table in
      future-index_trace k (suc n) keys later
      ∙ (rw (future-store k j (future dec j table ++ n ∷ []) table) (joined (dec j k)))
    where
      joined :
          (d : Dec (j ≡ k))
          → ite d (future dec j table ++ n ∷ []) (future dec k table) ++ positions k (suc n) keys
            ≡ future dec k table ++ ite d (n ∷ positions k (suc n) keys) (positions k (suc n) keys)
      joined (yes same) =
          rw same (append_assoc (future dec k table) (n ∷ []) (positions k (suc n) keys))
      joined (no other) = refl

  -- The table lists the uses of the rest of the trace.
  abbrev pub IsCurrent : List (K × List ℕ) → ℕ → List K → Type ℓ
  IsCurrent table step keys = (k : K) → future dec k table ≡ positions k step keys

  pub init-IsCurrent :
      (slots : ℕ) (keys : List K) → IsCurrent (init dec slots keys).future_indices 0 keys
  unfolding init future
  init-IsCurrent slots keys k = future-index_trace k 0 keys []

  pop-IsCurrent :
      (c : OracleCache K) (key : K) (step : ℕ) (keys : List K)
      → IsCurrent c.future_indices step (key ∷ keys)
      → IsCurrent (pop_step dec c key step).future_indices (suc step) keys
  unfolding pop_step positions
  pop-IsCurrent c key step keys current k =
      rw
        (future-store k key (without_step dec step (future dec key c.future_indices))
          c.future_indices)
        (ground (arith, current key, current k))

  -- What an access does to the residents: nothing on a hit, an insertion where there is room, and
  -- else an exchange of the key against one whose next use in the rest of the trace is not before
  -- that of any resident.
  abbrev Exchanged : OracleCache K → OracleCache K → K → ℕ → List K → Type ℓ
  Exchanged c c' key step keys =
      (v : K) × (Dict.get dec v c.cache ≡ some tt)
      × (c'.cache ≡ Dict.set dec key tt (Dict.remove dec v c.cache))
      × ((r : K)
          → Dict.get dec r c.cache ≡ some tt
          → NoLater (first (positions r (suc step) keys)) (first (positions v (suc step) keys)))

  abbrev Belady : OracleCache K → OracleCache K → K → ℕ → List K → Type ℓ
  Belady c c' key step keys =
      ((Dict.get dec key c.cache ≡ some tt) × (c'.cache ≡ c.cache))
      ⊎ (((length c.cache < c.capacity) × (c'.cache ≡ Dict.set dec key tt c.cache))
          ⊎ Exchanged c c' key step keys)

  pub record Accessed (c c' : OracleCache K) (key : K) (step : ℕ) (keys : List K) : Type ℓ where
    pub fits : length c'.cache ≤ c'.capacity
    pub capacity : c'.capacity ≡ c.capacity
    pub counted : c'.hits + c'.misses ≡ suc (c.hits + c.misses)
    pub current : IsCurrent c'.future_indices (suc step) keys
    pub belady : Belady c c' key step keys

  replace-some :
      (c : OracleCache K) (key v : K)
      → furthest dec c.future_indices c.cache none ≡ some v
      → replace dec c key
        ≡ ok (
          false,
          record c {
            cache = Dict.set dec key tt (Dict.remove dec v c.cache);
            evictions = c.evictions + 1;
          },
        )
  unfolding replace
  replace-some c key v found = rw (found, replace)

  module _ (c : OracleCache K) (key : K) (step : ℕ) (keys : List K) (some_capacity : 0 < c.capacity)
      (fits : length c.cache ≤ c.capacity)
      (current : IsCurrent c.future_indices step (key ∷ keys)) where
    exchange :
        (d : Dict K (Unit {ℓ}))
        → c.cache ≡ d
        → c.capacity ≤ length c.cache
        → (c' : OracleCache K) × (replace dec
              (record (pop_step dec c key step) { misses = c.misses + 1 })
              key
            ≡ ok (false, c'))
          × Accessed c c' key step keys
    unfolding replace pop_step
    exchange [] e full = absurd (omega (arith, ap length e))
    exchange (x ∷ rest) e full =
        let table = (pop_step dec c key step).future_indices in
        let (v, found, there, all) = furthest_none dec table x rest in
        let popped = pop-IsCurrent c key step keys current in
        let inside : Dict.get dec v c.cache ≡ some tt = rw e there in
        (
          record c {
            misses = c.misses + 1;
            future_indices = table;
            cache = Dict.set dec key tt (Dict.remove dec v c.cache);
            evictions = c.evictions + 1;
          },
          replace-some (record (pop_step dec c key step) { misses = c.misses + 1 }) key v
              (rw e found),
          record {
            fits = omega (
              arith,
              fits,
              Dict.length-set_le dec key tt (Dict.remove dec v c.cache),
              Dict.length-remove_hit dec v tt c.cache inside,
            );
            capacity = refl;
            counted = omega arith;
            current = popped;
            belady = inr (
                inr (
                  v,
                  inside,
                  refl,
                  λ r r_there. rw (← popped r, ← popped v) (all r (rw e at r_there)),
                ));
          },
        )

    -- Belady's algorithm: over a trace whose rest the table lists, an access never raises, answers
    -- whether the key was resident, counts once, stays within the capacity, and leaves a table that
    -- lists the rest behind it; on a miss with a full cache it evicts a resident whose next use in
    -- the rest of the trace is not before that of any other resident.
    pub access_belady :
        (c' : OracleCache K) × (access dec c key step ≡ ok (is_some (Dict.get dec key c.cache), c'))
        × Accessed c c' key step keys
    unfolding access look_up pop_step
    access_belady = elim (Option-cases (Dict.get dec key c.cache)) [
      | inr (_, hit) ↦
          rw (hit, look_up)
            (
              record (pop_step dec c key step) { hits = c.hits + 1 },
              refl,
              record {
                fits = fits;
                capacity = refl;
                counted = omega arith;
                current = pop-IsCurrent c key step keys current;
                belady = inl (hit, refl);
              },
            )
      | inl absent ↦ elim (Bool-cases (ltb (length c.cache) c.capacity)) [
        | inl room ↦
            rw (absent, room, look_up)
              (
                record (pop_step dec c key step) {
                  misses = c.misses + 1;
                  cache = Dict.set dec key tt c.cache;
                },
                refl,
                record {
                  fits = omega (arith, ltb→lt _ _ room, Dict.length-set_le dec key tt c.cache);
                  capacity = refl;
                  counted = omega arith;
                  current = pop-IsCurrent c key step keys current;
                  belady = inr (inl (ltb→lt _ _ room, refl));
                },
              )
        | inr full ↦ rw (absent, full, look_up) (exchange c.cache refl (ltb→le _ _ full))
      ]
    ]
