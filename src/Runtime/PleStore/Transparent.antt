-- ===== src/Runtime/PleStore/Transparent.antt =====
-- The row cache is transparent: a fetch returns what a read of the table returns, and keeps the
-- cache bounded.
use mathlib.Core.Logic.{ite}
use native.Mathlib.Decide.{ℕ_discrete}
use pocket_titan.Prelude.{
  Error, ℕ, ◌≤◌, ◌<◌, ◌≡◌, refl, ◌∙◌, ap, inl, inr, none, some, List, [], ◌∷◌, leb, length, Result,
  ok, err, ◌>>=◌, arith, Option-cases, Bool-cases, leb→le, leb→lt, le→leb,
}
use pocket_titan.Prelude.Dict
use pocket_titan.Prelude.Dict.{Dict}
use pocket_titan.Runtime.PleHasher.{hash_all_heads}
use pocket_titan.Runtime.PleStore.{
  Store, insert, insert_decoded, read_row, fetch_row, fetch_rows, fetch_step_embedding, with_tensor,
  stack,
}

module _ {T : Type 0} (decode : List ℕ → Result T) where
  -- Each cached row is what a read of the table returns for it.
  pub record IsCoherent (s : Store T) : Type 0 where
    pub unique : Dict.IsUnique ℕ_discrete s.cache
    pub some_capacity : 0 < s.cache_capacity
    pub fits : length s.cache ≤ s.cache_capacity
    pub agrees :
        (id : ℕ) (v : T) → Dict.get ℕ_discrete id s.cache ≡ some v → read_row decode s id ≡ ok v

  -- Same table, same index: only the cache differs.
  pub record SameTable (s s' : Store T) : Type 0 where
    pub index : s'.index ≡ s.index
    pub reads : (id : ℕ) → read_row decode s' id ≡ read_row decode s id

  reads_same : (s : Store T) (d : Dict ℕ T) → SameTable s (record s { cache = d })
  unfolding read_row
  reads_same s d = record { index = refl; reads = λ id. refl }

  -- A store with a new cache is coherent if the cache is.
  recached :
      (s : Store T) (d : Dict ℕ T)
      → 0 < s.cache_capacity
      → Dict.IsUnique ℕ_discrete d
      → length d ≤ s.cache_capacity
      → ((id : ℕ) (v : T) → Dict.get ℕ_discrete id d ≡ some v → read_row decode s id ≡ ok v)
      → IsCoherent (record s { cache = d })
  recached s d p u f a = record {
    unique = u;
    some_capacity = p;
    fits = f;
    agrees = λ id v e. (reads_same s d).reads id ∙ a id v e;
  }

  module _ (s : Store T) (id : ℕ) (h : IsCoherent s) where
    fetch_hit :
        (v : T)
        → Dict.get ℕ_discrete id s.cache ≡ some v
        → IsCoherent (record s { cache = Dict.move_to_end ℕ_discrete id v s.cache })
    fetch_hit v hit =
        recached s (Dict.move_to_end ℕ_discrete id v s.cache) h.some_capacity
          (Dict.move_to_end-IsUnique ℕ_discrete id v s.cache h.unique)
          (omega (arith, Dict.length-move_to_end ℕ_discrete id v v s.cache h.unique hit, h.fits))
          (λ j w e.
            h.agrees j w (moved_back j w (Dict.get-move_to_end ℕ_discrete id j v s.cache) e))
      where
        moved_back :
            (j : ℕ) (w : T)
            → Dict.get ℕ_discrete j (Dict.move_to_end ℕ_discrete id v s.cache)
              ≡ ite (ℕ_discrete id j) (some v) (Dict.get ℕ_discrete j s.cache)
            → Dict.get ℕ_discrete j (Dict.move_to_end ℕ_discrete id v s.cache) ≡ some w
            → Dict.get ℕ_discrete j s.cache ≡ some w
        moved_back j w law e = ground (arith, hit)

    -- A row goes into a cache `d` that holds rows of the table and has room.
    store_row :
        (d : Dict ℕ T) (v : T)
        → read_row decode s id ≡ ok v
        → Dict.IsUnique ℕ_discrete d
        → length d < s.cache_capacity
        → Dict.get ℕ_discrete id d ≡ none
        → ((j : ℕ) (w : T) → Dict.get ℕ_discrete j d ≡ some w → read_row decode s j ≡ ok w)
        → IsCoherent (record s { cache = Dict.set ℕ_discrete id v d })
    store_row d v read u room absent a =
        recached s (Dict.set ℕ_discrete id v d) h.some_capacity
          (Dict.set-IsUnique ℕ_discrete id v d u)
          (omega (arith, Dict.length-set_absent ℕ_discrete id v d absent))
          (λ j w e. set_back j w (Dict.get-set ℕ_discrete id j v d) e (a j w))
      where
        set_back :
            (j : ℕ) (w : T)
            → Dict.get ℕ_discrete j (Dict.set ℕ_discrete id v d)
              ≡ ite (ℕ_discrete id j) (some v) (Dict.get ℕ_discrete j d)
            → Dict.get ℕ_discrete j (Dict.set ℕ_discrete id v d) ≡ some w
            → (Dict.get ℕ_discrete j d ≡ some w → read_row decode s j ≡ ok w)
            → read_row decode s j ≡ ok w
        set_back j w law e old = elim (ℕ_discrete id j) [
          | yes same ↦ let vw : v ≡ w = ground arith in rw (← same, ← vw) read
          | no other ↦ old (ground arith)
        ]

    -- What an insertion of a row that was read leaves.
    abbrev Stored : T → Type 0
    Stored v = (s' : Store T) × (insert s id v ≡ (ok v, s')) × IsCoherent s' × SameTable s s'

    insert_full :
        (v w : T) (k : ℕ) (rest : Dict ℕ T)
        → read_row decode s id ≡ ok v
        → Dict.get ℕ_discrete id s.cache ≡ none
        → s.cache_capacity ≤ length s.cache
        → s.cache ≡ (k, w) ∷ rest
        → Stored v
    unfolding insert Dict.get
    insert_full v w k rest read miss full e =
        let u : Dict.IsUnique ℕ_discrete ((k, w) ∷ rest) = rw e at h.unique in
        (
          record s { cache = Dict.set ℕ_discrete id v rest },
          rw (le→leb _ _ full) (rw (e, insert)),
          store_row rest v read u.1 (omega (arith, ap length e, h.fits)) (gone (rw e at miss))
              (λ j x f. h.agrees j x (rw e (kept j x u.0 f))),
          reads_same s (Dict.set ℕ_discrete id v rest),
        )
      where
        gone : Dict.get ℕ_discrete id ((k, w) ∷ rest) ≡ none → Dict.get ℕ_discrete id rest ≡ none
        gone absent = ground (arith, absent)

        kept :
            (j : ℕ) (x : T)
            → Dict.get ℕ_discrete k rest ≡ none
            → Dict.get ℕ_discrete j rest ≡ some x
            → Dict.get ℕ_discrete j ((k, w) ∷ rest) ≡ some x
        kept j x absent f = ground arith

    insert_read :
        (v : T) → read_row decode s id ≡ ok v → Dict.get ℕ_discrete id s.cache ≡ none → Stored v
    unfolding insert
    insert_read v read miss = elim (Bool-cases (leb s.cache_capacity (length s.cache))) [
      | inl full ↦ on_full s.cache refl (leb→le _ _ full)
      | inr room ↦ (
        record s { cache = Dict.set ℕ_discrete id v s.cache },
        rw room,
        store_row s.cache v read h.unique (leb→lt _ _ room) miss h.agrees,
        reads_same s (Dict.set ℕ_discrete id v s.cache),
      )
    ]
      where
        on_full : (d : Dict ℕ T) → s.cache ≡ d → s.cache_capacity ≤ length s.cache → Stored v
        on_full [] e full = absurd (omega (arith, ap length e, h.some_capacity))
        on_full ((k, w) ∷ rest) e full = insert_full v w k rest read miss full e

    -- A fetch returns exactly what reading the table would: the decoded row, or the exception that
    -- resolving, reading or decoding raises; and it leaves a coherent, bounded cache over the same
    -- table, whether it hit, missed with room, evicted the oldest row, or raised.
    pub fetch_row_transparent :
        (s' : Store T) × (fetch_row decode s id ≡ (read_row decode s id, s'))
        × IsCoherent s'
        × SameTable s s'
    unfolding fetch_row
    fetch_row_transparent = elim (Option-cases (Dict.get ℕ_discrete id s.cache)) [
      | inr (v, hit) ↦
          rw (hit, h.agrees id v hit, fetch_row)
            (
              record s { cache = Dict.move_to_end ℕ_discrete id v s.cache },
              refl,
              fetch_hit v hit,
              reads_same s (Dict.move_to_end ℕ_discrete id v s.cache),
            )
      | inl miss ↦ rw (miss, fetch_row) (missed (read_row decode s id) refl miss)
    ]
      where
        missed :
            (r : Result T)
            → read_row decode s id ≡ r
            → Dict.get ℕ_discrete id s.cache ≡ none
            → (s' : Store T) × (insert_decoded s id (read_row decode s id)
                ≡ (read_row decode s id, s'))
              × IsCoherent s'
              × SameTable s s'
        missed (ok v) e miss = rw e (insert_read v e miss)
        missed (err x) e miss = rw e (s, refl, h, record { index = refl; reads = λ j. refl })

  -- The rows of a list of ids, read with no cache.
  unfoldable pub read_rows : Store T → List ℕ → Result (List T)
  read_rows s [] = ok []
  read_rows s (r ∷ rs) = do
    tensor ← read_row decode s r
    tensors ← read_rows s rs
    ok (tensor ∷ tensors)

  read_rows_same :
      (s s' : Store T) (rs : List ℕ) → SameTable s s' → read_rows s' rs ≡ read_rows s rs
  unfolding read_rows
  read_rows_same s s' [] t = refl
  read_rows_same s s' (r ∷ rs) t = rw (t.reads r, read_rows_same s s' rs t)

  later_same : (s s1 s2 : Store T) → SameTable s s1 → SameTable s1 s2 → SameTable s s2
  later_same s s1 s2 t t' = record {
    index = t'.index ∙ t.index;
    reads = λ id. t'.reads id ∙ t.reads id;
  }

  fetch_rows_ok :
      (s s1 : Store T) (r : ℕ) (rs : List ℕ) (v : T)
      → fetch_row decode s r ≡ (ok v, s1)
      → fetch_rows decode s (r ∷ rs) ≡ with_tensor v (fetch_rows decode s1 rs)
  unfolding fetch_rows
  fetch_rows_ok s s1 r rs v e = rw (e, fetch_rows)

  fetch_rows_err :
      (s s1 : Store T) (r : ℕ) (rs : List ℕ) (x : Error)
      → fetch_row decode s r ≡ (err x, s1)
      → fetch_rows decode s (r ∷ rs) ≡ (err x, s1)
  unfolding fetch_rows
  fetch_rows_err s s1 r rs x e = rw (e, fetch_rows)

  with_rows :
      (v : T) (s : Store T) (rows : Result (List T))
      → with_tensor v (rows, s) ≡ ((rows >>= λ ts. ok (v ∷ ts)), s)
  with_rows v s (ok ts) = refl
  with_rows v s (err e) = refl

  fetch_rows_transparent :
      (s : Store T) (rs : List ℕ)
      → IsCoherent s
      → (s' : Store T) × (fetch_rows decode s rs ≡ (read_rows s rs, s'))
        × IsCoherent s'
        × SameTable s s'
  unfolding fetch_rows read_rows
  fetch_rows_transparent s [] h = (s, refl, h, record { index = refl; reads = λ j. refl })
  fetch_rows_transparent s (r ∷ rs) h =
      let (s1, e, h1, t1) = fetch_row_transparent s r h in
      after_first s1 (read_row decode s r) refl e h1 t1 (fetch_rows_transparent s1 rs h1)
    where
      after_first :
          (s1 : Store T) (first : Result T)
          → read_row decode s r ≡ first
          → fetch_row decode s r ≡ (read_row decode s r, s1)
          → IsCoherent s1
          → SameTable s s1
          → (s2 : Store T) × (fetch_rows decode s1 rs ≡ (read_rows s1 rs, s2))
            × IsCoherent s2
            × SameTable s1 s2
          → (s' : Store T) × (fetch_rows decode s (r ∷ rs) ≡ (read_rows s (r ∷ rs), s'))
            × IsCoherent s'
            × SameTable s s'
      after_first s1 (err x) f e h1 t1 _ =
          rw (fetch_rows_err s s1 r rs x (rw f at e), f) (s1, refl, h1, t1)
      after_first s1 (ok v) f e h1 t1 (s2, e2, h2, t2) = (
        s2,
        fetch_rows_ok s s1 r rs v (rw f at e)
            ∙ (rw (e2, f, read_rows_same s s1 rs t1) (with_rows v s2 (read_rows s rs))),
        h2,
        later_same s s1 s2 t1 t2,
      )

  -- A whole step is transparent too: from a coherent store, the embeddings of a token are the
  -- table's rows for all its heads, joined as if nothing were cached, and the store stays coherent.
  pub fetch_step_embedding_transparent :
      (s : Store T) (token_history : List ℕ)
      → IsCoherent s
      → (s' : Store T) × (fetch_step_embedding decode s token_history
          ≡ ((hash_all_heads s.index token_history >>= read_rows s) >>= stack, s'))
        × IsCoherent s'
        × SameTable s s'
  unfolding fetch_step_embedding
  fetch_step_embedding_transparent s token_history h =
      by_rows (hash_all_heads s.index token_history) refl
    where
      by_rows :
          (rows : Result (List ℕ))
          → hash_all_heads s.index token_history ≡ rows
          → (s' : Store T) × (fetch_step_embedding decode s token_history
              ≡ ((hash_all_heads s.index token_history >>= read_rows s) >>= stack, s'))
            × IsCoherent s'
            × SameTable s s'
      by_rows (ok rs) e =
          let (s', fetched, coherent, same) = fetch_rows_transparent s rs h in
          rw (e, fetch_step_embedding) (s', rw fetched refl, coherent, same)
      by_rows (err x) e =
          rw (e, fetch_step_embedding) (s, refl, h, record { index = refl; reads = λ j. refl })
