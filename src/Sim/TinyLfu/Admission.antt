-- ===== src/Sim/TinyLfu/Admission.antt =====
-- The cache is bounded and so are the counts that the filter keeps.
use native.Mathlib.Nat.{div-add-mod'}
use pocket_titan.Prelude.{
  ◌∙◌, ℕ, suc, ◌+◌, ◌*◌, ◌/◌, ◌≤◌, ◌<◌, ◌≡◌, inl, inr, refl, ap, false, List, [], ◌∷◌, length, leb,
  leb→lt, ok, Option-cases, Bool-cases, arith, ltb, ltb→lt, ltb→le, ◌==◌,
}
use pocket_titan.Prelude.Dict
use pocket_titan.Prelude.Dict.{Dict, is_some}
use pocket_titan.Sim.TinyLfu.{TinyLfuCache, decay, freq, count, record_freq, admit, look_up, access}

module _ {ℓ} {K : Type ℓ} where
  -- All counts together.
  unfoldable pub total_freq : List (K × ℕ) → ℕ
  total_freq [] = 0
  total_freq ((k, n) ∷ freqs) = n + total_freq freqs

  total_freq-decay : (freqs : List (K × ℕ)) → total_freq (decay freqs) * 2 ≤ total_freq freqs
  unfolding total_freq decay
  total_freq-decay [] = omega arith
  total_freq-decay ((k, n) ∷ freqs) =
      let ih = total_freq-decay freqs in
      elim (Bool-cases (n / 2 == 0)) [
        | inl gone ↦ rw gone (omega arith)
        | inr kept ↦ rw kept (omega (arith, div-add-mod' n 2))
      ]

module _ {ℓ} {K : Type ℓ} (dec : Discrete K) where
  total_freq-count :
      (k : K) (freqs : List (K × ℕ)) → total_freq (count dec k freqs) ≡ suc (total_freq freqs)
  unfolding total_freq count
  total_freq-count k [] = omega arith
  total_freq-count k ((j, n) ∷ freqs) = ground (arith, total_freq-count k freqs)

  pub record IsBounded (c : TinyLfuCache K) : Type ℓ where
    pub fits : length c.cache ≤ c.capacity
    pub some_capacity : 0 < c.capacity
    pub some_window : 0 < c.sample_window
    pub recent : c.total_count < c.sample_window
    pub counts : total_freq c.freqs ≤ c.sample_window + c.total_count

  -- What the frequency table leaves alone.
  pub record Recorded (c c' : TinyLfuCache K) : Type ℓ where
    pub bounded : IsBounded c'
    pub cache : c'.cache ≡ c.cache
    pub counted : c'.hits + c'.misses ≡ c.hits + c.misses

  record_freq-Recorded :
      (c : TinyLfuCache K) (key : K) → IsBounded c → Recorded c (record_freq dec c key)
  unfolding record_freq
  record_freq-Recorded c key b = elim (Bool-cases (leb c.sample_window (c.total_count + 1))) [
    | inl due ↦ rw due (record {
      bounded = record {
        fits = b.fits;
        some_capacity = b.some_capacity;
        some_window = b.some_window;
        recent = b.some_window;
        counts = omega (
          arith,
          b.counts,
          b.recent,
          total_freq-decay (count dec key c.freqs),
          total_freq-count key c.freqs,
        );
      };
      cache = refl;
      counted = refl;
    })
    | inr early ↦ rw early (record {
      bounded = record {
        fits = b.fits;
        some_capacity = b.some_capacity;
        some_window = b.some_window;
        recent = leb→lt _ _ early;
        counts = omega (arith, b.counts, total_freq-count key c.freqs);
      };
      cache = refl;
      counted = refl;
    })
  ]

  pub record Accessed (c c' : TinyLfuCache K) : Type ℓ where
    pub bounded : IsBounded c'
    pub counted : c'.hits + c'.misses ≡ suc (c.hits + c.misses)

  -- Only the cache and the counters change in a look-up.
  recached :
      (c : TinyLfuCache K) (d : Dict K (Unit {ℓ})) (hits misses evictions : ℕ)
      → IsBounded c
      → length d ≤ c.capacity
      → hits + misses ≡ suc (c.hits + c.misses)
      → Accessed c (record c { cache = d; hits = hits; misses = misses; evictions = evictions })
  recached c d hits misses evictions b fits counted = record {
    bounded = record {
      fits = fits;
      some_capacity = b.some_capacity;
      some_window = b.some_window;
      recent = b.recent;
      counts = b.counts;
    };
    counted = counted;
  }

  look_up-Accessed :
      (c : TinyLfuCache K) (key : K)
      → IsBounded c
      → (c' : TinyLfuCache K) × (look_up dec c key ≡ ok (is_some (Dict.get dec key c.cache), c'))
        × Accessed c c'
  unfolding look_up admit
  look_up-Accessed c key b = elim (Option-cases (Dict.get dec key c.cache)) [
    | inr (u, hit) ↦
        rw (hit, look_up)
          (
            _,
            refl,
            recached c (Dict.move_to_end dec key tt c.cache) (c.hits + 1) c.misses c.evictions b
                (omega (arith, b.fits, Dict.length-move_to_end_le dec key tt u c.cache hit))
                (omega arith),
          )
    | inl absent ↦ elim (Bool-cases (ltb (length c.cache) c.capacity)) [
      | inl room ↦
          rw (absent, room, look_up)
            (
              _,
              refl,
              recached c (Dict.set dec key tt c.cache) c.hits (c.misses + 1) c.evictions b
                  (omega (arith, ltb→lt _ _ room, Dict.length-set_le dec key tt c.cache))
                  (omega arith),
            )
      | inr full ↦ rw (absent, full, look_up) (when_full c.cache refl (ltb→le _ _ full))
    ]
  ]
    where
      when_full :
          (d : Dict K (Unit {ℓ}))
          → c.cache ≡ d
          → c.capacity ≤ length c.cache
          → (c' : TinyLfuCache K) × (admit dec (record c { misses = c.misses + 1 }) key
              ≡ ok (false, c'))
            × Accessed c c'
      when_full [] e full = absurd (omega (arith, ap length e, b.some_capacity))
      when_full (victim ∷ rest) e full =
          elim (Bool-cases (leb (freq dec victim.0 c.freqs) (freq dec key c.freqs))) [
            | inl better ↦ (
              record c {
                misses = c.misses + 1;
                cache = Dict.set dec key tt rest;
                evictions = c.evictions + 1;
              },
              rw (e, admit) (rw better refl),
              recached c (Dict.set dec key tt rest) c.hits (c.misses + 1) (c.evictions + 1) b
                  (omega (arith, ap length e, b.fits, Dict.length-set_le dec key tt rest))
                  (omega arith),
            )
            | inr worse ↦ (
              record c { misses = c.misses + 1; evictions = c.evictions + 1 },
              rw (e, admit)
                  (rw worse (
                    ap
                      (λ d. ok (
                        false,
                        record c { misses = c.misses + 1; evictions = c.evictions + 1; cache = d },
                      ))
                      e)),
              recached c c.cache c.hits (c.misses + 1) (c.evictions + 1) b b.fits (omega arith),
            )
          ]

  -- From a bounded state an access never raises: it answers whether the key was in the cache, counts
  -- once, keeps the cache within its capacity, and keeps all counts of the filter together below
  -- twice the sample window.
  pub access_filtered :
      (c : TinyLfuCache K) (key : K)
      → IsBounded c
      → (c' : TinyLfuCache K) × (access dec c key ≡ ok (is_some (Dict.get dec key c.cache), c'))
        × Accessed c c'
        × (total_freq c'.freqs < c'.sample_window * 2)
  unfolding access
  access_filtered c key b =
      let r = record_freq-Recorded c key b in
      let (c', e, a) = look_up-Accessed (record_freq dec c key) key r.bounded in
      (
        c',
        e ∙ ap (λ d. ok (is_some (Dict.get dec key d), c')) r.cache,
        record { bounded = a.bounded; counted = omega (arith, a.counted, r.counted) },
        omega (arith, a.bounded.counts, a.bounded.recent),
      )
