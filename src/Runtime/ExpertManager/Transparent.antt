-- ===== src/Runtime/ExpertManager/Transparent.antt =====
-- A fetch returns the expert that the bank holds, from whichever tier it comes.
use mathlib.Core.Logic.{ite}
use pocket_titan.Prelude.{
  ℕ, ◌≤◌, ◌<◌, ◌≡◌, ◌⊎◌, ◌∙◌, refl, ap, sym, inl, inr, Bool, true, false, ◌&&◌, Option, none, some,
  List, ltb, leb, length, Result, ok, err, arith, Bool-cases, Option-cases, subst, ltb→lt,
}
use pocket_titan.Prelude.Dict
use pocket_titan.Prelude.Dict.{Dict}
use pocket_titan.Runtime.ExpertCache.{Cache}
use pocket_titan.Runtime.ExpertCache.Promotion.{IsValid, Refreshed, lookup}
use pocket_titan.Runtime.ExpertCache.Get.{get-Refreshed}
use pocket_titan.Runtime.ExpertCache.Put.{found_after, put-Inserted}
use pocket_titan.Runtime.ExpertManager.{
  Manager, read_expert_record, load_expert, frequency, count_access, promote_hot, on_load,
  after_get, fetch_expert,
}

-- Whatever a cache holds after a new key came in, it held before, or it is the new value.
found_after-cases :
    {K V : Type 0} (dec : Discrete K) (c : Cache K V) (key : K) (value : V) (j : K) (w : V)
    → found_after dec c key value j ≡ some w
    → ((key ≡ j) × (value ≡ w)) ⊎ (lookup dec c j ≡ some w)
found_after-cases dec c key value j w e = ground (arith, e)

and_right : (a b : Bool) → (a && b) ≡ true → b ≡ true
and_right true b h = h
and_right false b h = cc

module _ {V : Type 0} (dec : Discrete (ℕ × ℕ)) (decode : List ℕ → Result V) (to_cuda : V → V) where
  -- Each tier holds what a load from the bank gives, the hot tier on the GPU.
  pub record IsCoherent (m : Manager V) : Type 0 where
    pub valid : IsValid dec m.ram_cache
    pub cached :
        (j : ℕ × ℕ) (v : V)
        → lookup dec m.ram_cache j ≡ some v
        → load_expert dec decode to_cuda m j ≡ ok v
    pub hot :
        (j : ℕ × ℕ) (v : V)
        → Dict.get dec j m.vram_hot_tier ≡ some v
        → (e : V) × (load_expert dec decode to_cuda m j ≡ ok e) × (v ≡ to_cuda e)
    pub hot_fits : length m.vram_hot_tier ≤ m.vram_capacity

  -- A result that serves a key: the load's own, or its copy on the GPU.
  abbrev pub Serves : Manager V → ℕ × ℕ → Result V → Type 0
  Serves m key r =
      (r ≡ load_expert dec decode to_cuda m key)
      ⊎ ((e : V) × (load_expert dec decode to_cuda m key ≡ ok e) × (r ≡ ok (to_cuda e)))

  -- What a fetch leaves, for a call `step` on behalf of `m`.
  abbrev pub Fetched : Manager V → ℕ × ℕ → Result V × Manager V → Type 0
  Fetched m key step =
      Serves m key step.0
      × IsCoherent step.1
      × ((j : ℕ × ℕ) → load_expert dec decode to_cuda step.1 j ≡ load_expert dec decode to_cuda m j)

  promote_hot-Fetched :
      (m : Manager V) (key : ℕ × ℕ) (e : V)
      → IsCoherent m
      → load_expert dec decode to_cuda m key ≡ ok e
      → Fetched m key (promote_hot dec decode to_cuda key e m)
  unfolding promote_hot load_expert read_expert_record
  promote_hot-Fetched m key e h loaded =
      elim (Bool-cases (
        m.is_cuda
        && leb m.vram_promotion_threshold (frequency dec decode to_cuda m key)
        && ltb (length m.vram_hot_tier) m.vram_capacity)) [
          | inr kept ↦ rw kept (inl (sym loaded), h, λ j. refl)
          | inl hot ↦
              let room : length m.vram_hot_tier < m.vram_capacity =
                ltb→lt (length m.vram_hot_tier) m.vram_capacity (and_right _ _ hot) in
              rw hot (
                inr (e, loaded, refl),
                record {
                  valid = h.valid;
                  cached = h.cached;
                  hot = λ j v f. set_hot j v (Dict.get-set dec key j (to_cuda e) m.vram_hot_tier) f;
                  hot_fits = omega (arith, Dict.length-set_le dec key (to_cuda e) m.vram_hot_tier);
                },
                λ j. refl,
              )
        ]
    where
      set_hot :
          (j : ℕ × ℕ) (v : V)
          → Dict.get dec j (Dict.set dec key (to_cuda e) m.vram_hot_tier)
            ≡ ite (dec key j) (some (to_cuda e)) (Dict.get dec j m.vram_hot_tier)
          → Dict.get dec j (Dict.set dec key (to_cuda e) m.vram_hot_tier) ≡ some v
          → (x : V) × (load_expert dec decode to_cuda m j ≡ ok x) × (v ≡ to_cuda x)
      set_hot j v law f = elim (dec key j) [
        | yes same ↦
            let value : v ≡ to_cuda e = ground arith in
            (e, subst (λ k. load_expert dec decode to_cuda m k ≡ ok e) same loaded, value)
        | no other ↦ h.hot j v (ground arith)
      ]

  -- A manager whose RAM cache and counters have changed.
  recached :
      (m : Manager V) (c : Cache (ℕ × ℕ) V)
      → IsCoherent m
      → IsValid dec c
      → ((j : ℕ × ℕ) (v : V) → lookup dec c j ≡ some v → load_expert dec decode to_cuda m j ≡ ok v)
      → IsCoherent (record m { ram_cache = c })
  unfolding load_expert read_expert_record
  recached m c h valid cached = record {
    valid = valid;
    cached = cached;
    hot = h.hot;
    hot_fits = h.hot_fits;
  }

  counted :
      (m : Manager V) (key : ℕ × ℕ)
      → IsCoherent m
      → IsCoherent (count_access dec decode to_cuda m key)
  unfolding count_access load_expert read_expert_record
  counted m key h = record {
    valid = h.valid;
    cached = h.cached;
    hot = h.hot;
    hot_fits = h.hot_fits;
  }

  on_load-Fetched :
      (m : Manager V) (key : ℕ × ℕ) (r : Result V)
      → load_expert dec decode to_cuda m key ≡ r
      → IsCoherent m
      → lookup dec m.ram_cache key ≡ none
      → Fetched m key (on_load dec decode to_cuda key m r)
  unfolding load_expert read_expert_record
  on_load-Fetched m key (err x) e h absent = (inl (sym e), h, λ j. refl)
  on_load-Fetched m key (ok v) e h absent =
      let (c', put, stored) = put-Inserted dec m.ram_cache key v h.valid absent in
      rw put (
        promote_hot-Fetched (record m { ram_cache = c' }) key v
          (recached m c' h stored.valid (λ j w f. found j w (sym (stored.after j) ∙ f))) e)
    where
      found :
          (j : ℕ × ℕ) (w : V)
          → found_after dec m.ram_cache key v j ≡ some w
          → load_expert dec decode to_cuda m j ≡ ok w
      found j w f = elim (found_after-cases dec m.ram_cache key v j w f) [
        | inl (same, value) ↦
            subst (λ x. load_expert dec decode to_cuda m j ≡ ok x) value
              (subst (λ k. load_expert dec decode to_cuda m k ≡ ok v) same e)
        | inr before ↦ h.cached j w before
      ]

  after_get-Fetched :
      (m : Manager V) (key : ℕ × ℕ) (c' : Cache (ℕ × ℕ) V) (o : Option V)
      → IsCoherent m
      → lookup dec m.ram_cache key ≡ o
      → Refreshed dec m.ram_cache c'
      → Fetched m key (after_get dec decode to_cuda key m (ok o, c'))
  unfolding load_expert read_expert_record
  after_get-Fetched m key c' (some v) h e fresh =
      promote_hot-Fetched (record m { ram_cache = c' }) key v
        (recached m c' h fresh.valid (λ j w f. h.cached j w (sym (fresh.same j) ∙ f)))
        (h.cached key v e)
  after_get-Fetched m key c' none h e fresh =
      on_load-Fetched (record m { ram_cache = c' }) key (load_expert dec decode to_cuda m key) refl
        (recached m c' h fresh.valid (λ j w f. h.cached j w (sym (fresh.same j) ∙ f)))
        (fresh.same key ∙ e)

  -- From a coherent manager a fetch never fails for a reason of the caches: it returns what reading
  -- and decoding the expert's record gives, its copy on the GPU, or the exception that reading or
  -- decoding raises; and it leaves a coherent manager over the same bank, with a valid RAM cache and
  -- no more experts in the hot tier than its capacity.
  pub fetch_expert_transparent :
      (m : Manager V) (key : ℕ × ℕ)
      → IsCoherent m
      → Fetched m key (fetch_expert dec decode to_cuda m key)
  unfolding fetch_expert count_access load_expert read_expert_record
  fetch_expert_transparent m key h = elim (Option-cases (Dict.get dec key m.vram_hot_tier)) [
    | inr (v, hit) ↦
        let (e, loaded, copy) = h.hot key v hit in
        rw (hit, fetch_expert) (inr (e, loaded, ap ok copy), counted m key h, λ j. refl)
    | inl miss ↦
        let (c', got, fresh) = get-Refreshed dec m.ram_cache key h.valid in
        rw (miss, got, fetch_expert)
          (after_get-Fetched (count_access dec decode to_cuda m key) key c'
            (lookup dec m.ram_cache key) (counted m key h) refl fresh)
  ]
