-- ===== src/Streaming/Transfer/Exact.antt =====
-- The sink only ever holds a beginning of the range that was asked for, and all of it on success.
use mathlib.Core.List.{append_assoc}
use pocket_titan.Prelude.{
  drop-append_self, take-append_self, drop-drop, ok-injective, value_error, zero, ℕ, suc, ◌+◌, ◌-◌,
  ◌*◌, ◌≤◌, ◌≡◌, ◌∙◌, sym, refl, ap, inl, inr, min, Bool, true, false, Option, none, some, List, [],
  ◌∷◌, ◌++◌, ltb, leb, ◌==◌, length, length-append, length-take, take, drop, Result, ok, err, All,
  arith, Bool-cases, not, ◌&&◌, guard-eq-ok,
}
use pocket_titan.Streaming.Transfer.{
  Arrival, arrived, dropped, cancelled, Response, Attempt, Transfer, validate_range_response,
  check_range, read_blocks, consume, finish, continue_with, on_answer, attempt_all, nothing,
  stream_remote_bytes, fetch_remote_bytes, joined,
}

-- The origin serves `file`: an answer that claims the range from `start` holds bytes of it from there
-- on, possibly cut short. A 200 or a rewritten range may hold anything.
abbrev pub IsHonest : List ℕ → ℕ → Attempt → Type 0
IsHonest file byte_end a =
    (start : ℕ) (r : Response)
    → a.answer start ≡ some r
    → r.status ≡ 206
    → r.content_range ≡ some (start, byte_end)
    → (rest : List ℕ) × (drop start file ≡ r.body ++ rest)

-- What has been received: the beginning of the range.
pub record IsPrefix (file : List ℕ) (byte_start total : ℕ) (t : Transfer) : Type 0 where
  pub rest : List ℕ
  pub split : drop byte_start file ≡ t.sink ++ rest
  pub counted : length t.sink ≡ t.received
  pub fits : t.received ≤ total

take_le : (n : ℕ) (xs : List ℕ) → length (take n xs) ≤ n
take_le n xs = omega (arith, length-take n xs)

-- A taken block and what is left of the list.
block_split : (m : ℕ) (xs : List ℕ) → xs ≡ take m xs ++ drop (length (take m xs)) xs
block_split zero xs = refl
block_split (suc m) [] = refl
block_split (suc m) (x ∷ xs) = ap (◌∷◌ x) (block_split m xs)

moved :
    (sink block body more : List ℕ)
    → sink ++ (block ++ body ++ more) ≡ sink ++ block ++ (body ++ more)
moved sink block body more =
    ap (◌++◌ sink) (append_assoc block body more) ∙ sym (append_assoc sink block (body ++ more))

module _ (file : List ℕ) (byte_start total : ℕ) where
  read_blocks-IsPrefix :
      (chunk : ℕ) (arrivals : List Arrival) (body more : List ℕ) (t : Transfer)
      → drop byte_start file ≡ t.sink ++ (body ++ more)
      → length t.sink ≡ t.received
      → t.received ≤ total
      → IsPrefix file byte_start total (read_blocks total chunk arrivals body t).1
  unfolding read_blocks
  read_blocks-IsPrefix chunk [] body more t e counted fits = record {
    rest = body ++ more;
    split = e;
    counted = counted;
    fits = fits;
  }
  read_blocks-IsPrefix chunk (dropped ∷ arrivals) body more t e counted fits = record {
    rest = body ++ more;
    split = e;
    counted = counted;
    fits = fits;
  }
  read_blocks-IsPrefix chunk (cancelled ∷ arrivals) body more t e counted fits =
      elim (Bool-cases (ltb t.received total)) [
        | inl going ↦
            rw going (record { rest = body ++ more; split = e; counted = counted; fits = fits })
        | inr done ↦
            rw done (record { rest = body ++ more; split = e; counted = counted; fits = fits })
      ]
  read_blocks-IsPrefix chunk (arrived n ∷ arrivals) body more t e counted fits =
      let m = min n (min chunk (total - t.received)) in
      let block = take m body in
      elim (Bool-cases (ltb t.received total && not (length block == 0))) [
        | inr done ↦
            rw done (record { rest = body ++ more; split = e; counted = counted; fits = fits })
        | inl going ↦ rw going (
            read_blocks-IsPrefix chunk arrivals (drop (length block) body) more
              (record { received = t.received + length block; sink = t.sink ++ block })
              (e
                ∙ ap (λ b. t.sink ++ (b ++ more)) (block_split m body)
                ∙ moved t.sink block (drop (length block) body) more)
              (omega (arith, length-append t.sink block)) (omega (arith, take_le m body)))
      ]

  -- What an honest answer continues.
  continues :
      (byte_end : ℕ) (a : Attempt) (r : Response) (t : Transfer)
      → IsHonest file byte_end a
      → a.answer (byte_start + t.received) ≡ some r
      → r.status ≡ 206
      → r.content_range ≡ some (byte_start + t.received, byte_end)
      → IsPrefix file byte_start total t
      → (more : List ℕ) × (drop byte_start file ≡ t.sink ++ (r.body ++ more))
  continues byte_end a r t honest answered status range p =
      let (more, e) = honest (byte_start + t.received) r answered status range in
      let left : p.rest ≡ r.body ++ more =
        sym (drop-append_self t.sink p.rest)
        ∙ ap (drop (length t.sink)) (sym p.split)
        ∙ ap (λ n. drop n (drop byte_start file)) p.counted
        ∙ sym (drop-drop byte_start t.received file)
        ∙ e in
      (more, p.split ∙ ap (◌++◌ t.sink) left)

  range_same :
      (start end : ℕ) (o : Option (ℕ × ℕ)) → check_range start end o ≡ ok tt → o ≡ some (start, end)
  range_same start end none h = cc
  range_same start end (some (a, b)) h =
      let a_same : a ≡ start = ground (arith, h) in
      let b_same : b ≡ end = ground (arith, h) in rw (a_same, b_same) refl

  validated :
      (r : Response) (start end : ℕ)
      → validate_range_response r start end ≡ ok tt
      → (r.status ≡ 206) × (r.content_range ≡ some (start, end))
  unfolding validate_range_response
  validated r start end h =
      let (s, h1) = guard-eq-ok (r.status == 206) value_error _ h in
      (ground arith, range_same start end r.content_range h1)

  consume-IsPrefix :
      (byte_end chunk : ℕ) (a : Attempt) (r : Response) (t : Transfer)
      → IsHonest file byte_end a
      → a.answer (byte_start + t.received) ≡ some r
      → IsPrefix file byte_start total t
      → IsPrefix file byte_start total (consume byte_start byte_end total chunk r t).1
  unfolding consume
  consume-IsPrefix byte_end chunk a r t honest answered p =
      by_check (validate_range_response r (byte_start + t.received) byte_end) refl
    where
      by_check :
          (v : Result (Unit {0}))
          → validate_range_response r (byte_start + t.received) byte_end ≡ v
          → IsPrefix file byte_start total (consume byte_start byte_end total chunk r t).1
      by_check (err x) e = rw (e, consume) p
      by_check (ok _) e =
          let (status, range) = validated r (byte_start + t.received) byte_end e in
          let (more, split) = continues byte_end a r t honest answered status range p in
          rw (e, consume)
            (read_blocks-IsPrefix chunk r.arrivals r.body more t split p.counted p.fits)

  -- The outcome of the loop: an exact transfer, or an exception with what was received so far.
  abbrev Outcome : Result ℕ × Transfer → Type 0
  Outcome (ok n, t) = IsPrefix file byte_start total t × ((n ≡ total) × (t.received ≡ total))
  Outcome (err e, t) = IsPrefix file byte_start total t

  finish-Outcome : (t : Transfer) → IsPrefix file byte_start total t → Outcome (finish total t)
  finish-Outcome t p = elim (Bool-cases (t.received == total)) [
    | inl whole ↦
        let same : t.received ≡ total = ground arith in rw (whole, finish) (p, (same, same))
    | inr short ↦ rw (short, finish) p
  ]

  continue-Outcome :
      (next : Transfer → Result ℕ × Transfer) (r : Result (Unit {0}) × Transfer)
      → IsPrefix file byte_start total r.1
      → ((t : Transfer) → IsPrefix file byte_start total t → Outcome (next t))
      → Outcome (continue_with next r)
  continue-Outcome next (ok _, t) p later = later t p
  continue-Outcome next (err e, t) p later = p

  answer-Outcome :
      (byte_end chunk : ℕ) (a : Attempt) (next : Transfer → Result ℕ × Transfer) (t : Transfer)
      (o : Option Response)
      → a.answer (byte_start + t.received) ≡ o
      → IsHonest file byte_end a
      → IsPrefix file byte_start total t
      → ((t' : Transfer) → IsPrefix file byte_start total t' → Outcome (next t'))
      → Outcome (on_answer next (λ r. consume byte_start byte_end total chunk r t) t o)
  answer-Outcome byte_end chunk a next t none e honest p later = later t p
  answer-Outcome byte_end chunk a next t (some r) e honest p later =
      continue-Outcome next (consume byte_start byte_end total chunk r t)
        (consume-IsPrefix byte_end chunk a r t honest e p) later

  attempt_all-Outcome :
      (byte_end chunk : ℕ) (retry : Bool) (attempts : List Attempt) (t : Transfer)
      → All (IsHonest file byte_end) attempts
      → IsPrefix file byte_start total t
      → Outcome (attempt_all byte_start byte_end total chunk retry attempts t)
  unfolding attempt_all
  attempt_all-Outcome byte_end chunk retry [] t honest p = finish-Outcome t p
  attempt_all-Outcome byte_end chunk retry (a ∷ attempts) t honest p =
      elim (Bool-cases a.cancel_set) [
        | inl set ↦ rw (set, attempt_all) p
        | inr clear ↦ elim (Bool-cases (leb total t.received)) [
          | inl done ↦ rw (clear, done, attempt_all) (finish-Outcome t p)
          | inr going ↦ elim (Bool-cases (retry && a.cancelled_waiting)) [
            | inl stopped ↦ rw (clear, going, stopped, attempt_all) p
            | inr waited ↦
                rw (clear, going, waited, attempt_all)
                  (answer-Outcome byte_end chunk a
                    (attempt_all byte_start byte_end total chunk true attempts) t
                    (a.answer (byte_start + t.received)) refl honest.0 p
                    (λ t' p'. attempt_all-Outcome byte_end chunk true attempts t' honest.1 p'))
          ]
        ]
      ]

-- The range of `file` from `byte_start` to `byte_end`, both inclusive.
abbrev pub range_of : List ℕ → ℕ → ℕ → List ℕ
range_of file byte_start byte_end = take (byte_end + 1 - byte_start) (drop byte_start file)

module _ (file : List ℕ) (byte_start total : ℕ) where
  whole_range :
      (t : Transfer)
      → IsPrefix file byte_start total t
      → t.received ≡ total
      → t.sink ≡ take total (drop byte_start file)
  whole_range t p whole =
      sym (take-append_self t.sink p.rest)
      ∙ ap (take (length t.sink)) (sym p.split)
      ∙ ap (λ n. take n (drop byte_start file)) (p.counted ∙ whole)

  exact_of :
      (r : Result ℕ × Transfer)
      → Outcome file byte_start total r
      → IsPrefix file byte_start total r.1
        × ((n : ℕ) → r.0 ≡ ok n → (n ≡ total) × (r.1.sink ≡ take total (drop byte_start file)))
  exact_of (ok m, t) (p, (same, whole)) =
      (p, λ n e. (sym (ok-injective e) ∙ same, whole_range t p whole))
  exact_of (err x, t) p = (p, λ n e. cc)

stream-Outcome :
    (file : List ℕ) (byte_start byte_end chunk_size : ℕ) (attempts : List Attempt)
    → All (IsHonest file byte_end) attempts
    → Outcome file byte_start
        (byte_end + 1 - byte_start)
        (stream_remote_bytes byte_start byte_end chunk_size attempts)
unfolding stream_remote_bytes
stream-Outcome file byte_start byte_end chunk_size attempts honest =
    let total = byte_end + 1 - byte_start in
    let start : IsPrefix file byte_start total nothing = record {
      rest = drop byte_start file;
      split = refl;
      counted = refl;
      fits = omega arith;
    } in
    elim (Bool-cases (total == 0)) [
      | inl empty ↦
          let zero_total : 0 ≡ total = ground arith in
          rw (empty, stream_remote_bytes) (start, (zero_total, zero_total))
      | inr some_bytes ↦ elim (Bool-cases (chunk_size == 0)) [
        | inl bad ↦ rw (some_bytes, bad, stream_remote_bytes) start
        | inr good ↦
            rw (some_bytes, good, stream_remote_bytes)
              (attempt_all-Outcome file byte_start total byte_end chunk_size false attempts nothing
                honest start)
      ]
    ]

-- Exactness: whatever the network does (refused connections, dropped or cut-short responses, ignored
-- or rewritten ranges, cancellation), if each answer that claims the range asked for serves that part
-- of the file, then what the sink was given is a beginning of the range, in order and without a gap
-- or a repeated byte, and a transfer that returns has given the sink the whole range.
pub stream_remote_bytes_exact :
    (file : List ℕ) (byte_start byte_end chunk_size : ℕ) (attempts : List Attempt)
    → All (IsHonest file byte_end) attempts
    → IsPrefix file byte_start
        (byte_end + 1 - byte_start)
        (stream_remote_bytes byte_start byte_end chunk_size attempts).1
      × ((n : ℕ)
          → (stream_remote_bytes byte_start byte_end chunk_size attempts).0 ≡ ok n
          → (n ≡ byte_end + 1 - byte_start)
            × ((stream_remote_bytes byte_start byte_end chunk_size attempts).1.sink
                ≡ range_of file byte_start byte_end))
stream_remote_bytes_exact file byte_start byte_end chunk_size attempts honest =
    let total = byte_end + 1 - byte_start in
    exact_of file byte_start total (stream_remote_bytes byte_start byte_end chunk_size attempts)
      (stream-Outcome file byte_start byte_end chunk_size attempts honest)

-- `fetch_remote_bytes` returns exactly the bytes of the range or raises: a short buffer is never
-- returned, if each answer that claims the range asked for serves that part of the file.
pub fetch_remote_bytes_exact :
    (file : List ℕ) (byte_start byte_end : ℕ) (attempts : List Attempt) (bytes : List ℕ)
    → All (IsHonest file byte_end) attempts
    → fetch_remote_bytes byte_start byte_end attempts ≡ ok bytes
    → (bytes ≡ range_of file byte_start byte_end) × (length bytes ≡ byte_end + 1 - byte_start)
unfolding fetch_remote_bytes
fetch_remote_bytes_exact file byte_start byte_end attempts bytes honest e =
    of_outcome (stream_remote_bytes byte_start byte_end (4 * 1024 * 1024) attempts)
      (stream-Outcome file byte_start byte_end (4 * 1024 * 1024) attempts honest) e
  where
    of_outcome :
        (r : Result ℕ × Transfer)
        → Outcome file byte_start (byte_end + 1 - byte_start) r
        → joined r ≡ ok bytes
        → (bytes ≡ range_of file byte_start byte_end) × (length bytes ≡ byte_end + 1 - byte_start)
    of_outcome (err x, t) p e = cc
    of_outcome (ok n, t) (p, (same, whole)) e =
        let sunk : t.sink ≡ bytes = ok-injective e in
        (
          sym sunk ∙ whole_range file byte_start (byte_end + 1 - byte_start) t p whole,
          ap length (sym sunk) ∙ p.counted ∙ whole,
        )
