-- ===== src/Sim/Lru/Inclusion.antt =====
-- The inclusion property of LRU: a larger cache holds what a smaller one holds, so it hits whenever
-- that does.
use pocket_titan.Prelude.{
  ℕ, suc, ◌≤◌, ◌≡◌, inl, inr, refl, sym, ap, ◌∙◌, ◌++◌, true, false, Option, none, some, List, [],
  ◌∷◌, length, length-append, ok, arith,
}
use pocket_titan.Prelude.Dict
use pocket_titan.Prelude.Dict.{Dict, or_else, is_some}
use pocket_titan.Sim.Lru.{LruCache, init, access_all}
use pocket_titan.Sim.Lru.Stack.{
  last_uses, last_uses-snoc, last_uses-IsUnique, IsTop, access-Accessed,
}

abbrev tail {ℓ} : {A : Type ℓ} → List A → List A
tail [] = []
tail (x ∷ xs) = xs

module _ {ℓ} {K : Type ℓ} (dec : Discrete K) where
  -- Of two ends of a list the longer holds the keys of the shorter.
  ends_nested :
      (k : K) (o1 m1 o2 m2 : Dict K (Unit {ℓ}))
      → o1 ++ m1 ≡ o2 ++ m2
      → length m1 ≤ length m2
      → Dict.get dec k m1 ≡ some tt
      → Dict.get dec k m2 ≡ some tt
  ends_nested k o1 m1 [] m2 e le hit =
      rw (← e, Dict.get-append dec k o1 m1, hit) (either (Dict.get dec k o1))
    where
      either : (o : Option (Unit {ℓ})) → or_else o (some tt) ≡ some tt
      either none = refl
      either (some u) = refl
  ends_nested k [] m1 (y ∷ o2) m2 e le hit =
      absurd (omega (arith, ap length e, length-append o2 m2))
  ends_nested k (x ∷ o1) m1 (y ∷ o2) m2 e le hit = ends_nested k o1 m1 o2 m2 (ap tail e) le hit

  tops_nested :
      (uses : Dict K (Unit {ℓ})) (small large : LruCache K) (k : K)
      → IsTop dec uses small
      → IsTop dec uses large
      → small.capacity ≤ large.capacity
      → Dict.get dec k small.cache ≡ some tt
      → Dict.get dec k large.cache ≡ some tt
  tops_nested uses small large k t t' le hit =
      let e : t.older ++ small.cache ≡ t'.older ++ large.cache = sym t.split ∙ t'.split in
      ends_nested k t.older small.cache t'.older large.cache e shorter hit
    where
      shorter : length small.cache ≤ length large.cache
      shorter = elim t'.full [
        | inl whole ↦
            let e : t.older ++ small.cache ≡ large.cache =
              sym t.split ∙ t'.split ∙ ap (λ o. o ++ large.cache) whole in
            omega (arith, ap length e, length-append t.older small.cache)
        | inr capped ↦ omega (arith, t.fits)
      ]

  hits_nested :
      (o o' : Option (Unit {ℓ})) (small large small' large' : ℕ)
      → (o ≡ some tt → o' ≡ some tt)
      → small' ≡ (elim (is_some o) [ true ↦ suc small | false ↦ small ])
      → large' ≡ (elim (is_some o') [ true ↦ suc large | false ↦ large ])
      → small ≤ large
      → small' ≤ large'
  hits_nested none none small large small' large' i e e' le = omega arith
  hits_nested none (some u) small large small' large' i e e' le = omega arith
  hits_nested (some u) none small large small' large' i e e' le = ground (arith, i refl)
  hits_nested (some u) (some v) small large small' large' i e e' le = omega arith

  hits_from :
      (past keys : List K) (small large : LruCache K)
      → IsTop dec (last_uses dec past) small
      → IsTop dec (last_uses dec past) large
      → small.capacity ≤ large.capacity
      → small.hits ≤ large.hits
      → (small' large' : LruCache K) × (access_all dec small keys ≡ ok small')
        × (access_all dec large keys ≡ ok large')
        × (small'.hits ≤ large'.hits)
  unfolding access_all
  hits_from past [] small large t t' cap le = (small, large, refl, refl, le)
  hits_from past (key ∷ keys) small large t t' cap le =
      let u = last_uses-IsUnique dec past in
      let (s1, e, a) = access-Accessed dec (last_uses dec past) small key u t in
      let (l1, e', a') = access-Accessed dec (last_uses dec past) large key u t' in
      let hits =
        hits_nested (Dict.get dec key small.cache) (Dict.get dec key large.cache) small.hits
          large.hits s1.hits l1.hits (tops_nested (last_uses dec past) small large key t t' cap)
          a.hits a'.hits le in
      let x =
        hits_from (past ++ key ∷ []) keys s1 l1 (rw (last_uses-snoc dec past key) a.top)
          (rw (last_uses-snoc dec past key) a'.top) (omega (arith, a.capacity, a'.capacity)) hits in
      (x.0, x.1, rw e x.2, rw e' x.3, x.4)

  -- On every trace an LRU cache of more slots has at least as many hits as one of fewer slots (no
  -- Belady anomaly), so that the simulator's hit rates are monotone in the memory budget.
  pub access_all_monotone :
      (slots slots' : ℕ) (keys : List K)
      → slots ≤ slots'
      → (small large : LruCache K) × (access_all dec (init slots) keys ≡ ok small)
        × (access_all dec (init slots') keys ≡ ok large)
        × (small.hits ≤ large.hits)
  unfolding init last_uses
  access_all_monotone slots slots' keys le =
      hits_from [] keys (init slots) (init slots') (empty_top slots) (empty_top slots')
        (omega arith) (omega arith)
    where
      empty_top : (n : ℕ) → IsTop dec [] (init n)
      empty_top n = record {
        older = [];
        split = refl;
        full = inl refl;
        fits = omega arith;
        some_capacity = omega arith;
      }
