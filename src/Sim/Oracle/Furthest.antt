-- ===== src/Sim/Oracle/Furthest.antt =====
-- The key that the oracle evicts is the one whose next use in the rest of the trace is furthest.
use pocket_titan.Prelude.{
  subst, ℕ, ◌≤◌, ◌≡◌, ◌⊎◌, inl, inr, refl, ap, Option, none, some, List, [], ◌∷◌, ltb, ltb→lt,
  ltb→le, Bool-cases, arith,
}
use pocket_titan.Prelude.Dict
use pocket_titan.Prelude.Dict.{Dict, is_some}
use pocket_titan.Sim.Oracle.{future, furthest}

-- A use at the first step is no later than one at the second; `none` is no use at all.
abbrev pub NoLater : Option ℕ → Option ℕ → Type 0
NoLater o none = Unit
NoLater none (some b) = ⊥
NoLater (some a) (some b) = a ≤ b

abbrev pub first : List ℕ → Option ℕ
first [] = none
first (s ∷ steps) = some s

NoLater-trans : (a b : ℕ) (o : Option ℕ) → a ≤ b → NoLater (some b) o → NoLater (some a) o
NoLater-trans a b none le h = tt
NoLater-trans a b (some s) le h = omega arith

module _ {ℓ} {K : Type ℓ} (dec : Discrete K) (table : List (K × List ℕ)) where
  abbrev pub next_use : K → Option ℕ
  next_use k = first (future dec k table)

  -- Every resident's next use is no later than that of `v`.
  abbrev pub AllNoLater : Dict K (Unit {ℓ}) → K → Type ℓ
  AllNoLater residents v =
      (r : K) → Dict.get dec r residents ≡ some tt → NoLater (next_use r) (next_use v)

  abbrev pub Chosen : Dict K (Unit {ℓ}) → Option (K × ℕ) → Type ℓ
  Chosen residents none =
      (v : K) × (furthest dec table residents none ≡ some v)
      × (Dict.get dec v residents ≡ some tt)
      × AllNoLater residents v
  Chosen residents (some (k, s)) =
      (v : K) × (furthest dec table residents (some (k, s)) ≡ some v)
      × ((v ≡ k) ⊎ (Dict.get dec v residents ≡ some tt))
      × NoLater (some s) (next_use v)
      × AllNoLater residents v

  all_cons :
      (j : K) (u : Unit {ℓ}) (residents : Dict K (Unit {ℓ})) (v : K)
      → NoLater (next_use j) (next_use v)
      → AllNoLater residents v
      → AllNoLater ((j, u) ∷ residents) v
  unfolding Dict.get
  all_cons j u residents v h all r there = elim (dec j r) [
    | yes same ↦ subst (λ k. NoLater (next_use k) (next_use v)) same h
    | no other ↦ all r (ground arith)
  ]

  there_cons :
      (j : K) (u : Unit {ℓ}) (residents : Dict K (Unit {ℓ})) (v : K)
      → (v ≡ j) ⊎ (Dict.get dec v residents ≡ some tt)
      → Dict.get dec v ((j, u) ∷ residents) ≡ some tt
  unfolding Dict.get
  there_cons j u residents v there = ground arith

  -- A resident that is never used again ends the search.
  never_used :
      (j : K) (u : Unit {ℓ}) (residents : Dict K (Unit {ℓ})) (best : Option (K × ℕ))
      → future dec j table ≡ []
      → (furthest dec table ((j, u) ∷ residents) best ≡ some j)
        × (Dict.get dec j ((j, u) ∷ residents) ≡ some tt)
        × ((o : Option ℕ) → NoLater o (next_use j))
  unfolding furthest
  never_used j u residents best e =
      (rw (e, furthest) refl, there_cons j u residents j (inl refl), λ o. rw e tt)

  furthest_some :
      (residents : Dict K (Unit {ℓ})) (k : K) (s : ℕ)
      → next_use k ≡ some s
      → Chosen residents (some (k, s))
  unfolding furthest Dict.get
  furthest_some [] k s e = (k, refl, inl refl, rw e (omega arith), λ r there. cc)
  furthest_some ((j, u) ∷ residents) k s e =
      by_future (furthest_some residents) (future dec j table) refl
    where
      by_future :
          ((k' : K) (s' : ℕ) → next_use k' ≡ some s' → Chosen residents (some (k', s')))
          → (steps : List ℕ) → future dec j table ≡ steps
          → Chosen ((j, u) ∷ residents) (some (k, s))
      by_future search [] f =
          let (found, there, all) = never_used j u residents (some (k, s)) f in
          (j, found, inr there, all (some s), λ r _. all (next_use r))
      by_future search (t ∷ steps) f = elim (Bool-cases (ltb s t)) [
        | inl below ↦
            let (v, found, there, after, all) = search j t (ap first f) in
            (
              v,
              rw (f, below, furthest) found,
              inr (there_cons j u residents v there),
              NoLater-trans s t (next_use v) (omega (arith, ltb→lt _ _ below)) after,
              all_cons j u residents v (rw f after) all,
            )
        | inr above ↦
            let (v, found, there, after, all) = search k s e in
            (
              v,
              rw (f, above, furthest) found,
              elim there [
                | inl same ↦ inl same
                | inr inside ↦ inr (there_cons j u residents v (inr inside))
              ],
              after,
              all_cons j u residents v
                  (rw f (NoLater-trans t s (next_use v) (ltb→le _ _ above) after)) all,
            )
      ]

  pub furthest_none :
      (x : K × Unit {ℓ}) (residents : Dict K (Unit {ℓ})) → Chosen (x ∷ residents) none
  unfolding furthest
  furthest_none (j, u) residents = by_future (future dec j table) refl
    where
      by_future : (steps : List ℕ) → future dec j table ≡ steps → Chosen ((j, u) ∷ residents) none
      by_future [] f =
          let (found, there, all) = never_used j u residents none f in
          (j, found, there, λ r _. all (next_use r))
      by_future (t ∷ steps) f =
          let (v, found, there, after, all) = furthest_some residents j t (ap first f) in
          (
            v,
            rw (f, furthest) found,
            there_cons j u residents v there,
            all_cons j u residents v (rw f after) all,
          )
