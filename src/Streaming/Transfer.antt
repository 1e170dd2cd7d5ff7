-- ===== src/Streaming/Transfer.antt =====
-- pockettitan/metadata/safetensors_header.py: `stream_remote_bytes` and `fetch_remote_bytes`. The
-- network is a parameter: what each attempt's request is answered with, as a function of the first
-- byte that it asks for. The sink is the list of the bytes that the callback was given.
pub mod Exact
use pocket_titan.Prelude.{
  ℕ, ◌+◌, ◌-◌, ◌*◌, min, Bool, true, false, ◌&&◌, not, Option, none, some, List, [], ◌∷◌, ◌++◌, ltb,
  leb, ◌==◌, if◌then◌else◌, length, take, drop, Result, ok, err, value_error, interrupted_error,
  os_error, ◌>>=◌, ◌>>◌, guard,
}

-- What one `response.read` meets: some bytes have arrived, the connection fails with an OSError, or
-- the cancellation is seen before it.
pub data Arrival : Type 0 where
  arrived : ℕ → Arrival
  dropped cancelled : Arrival

pub record Response : Type 0 where
  pub status : ℕ
  -- The numbers of a well-formed Content-Range header.
  pub content_range : Option (ℕ × ℕ)
  pub body : List ℕ
  pub arrivals : List Arrival

-- One round of the loop: whether `cancel_event` is set, whether it is set while the backoff waits,
-- and the answer to the request (`none` when `opener.open` raises an OSError).
pub record Attempt : Type 0 where
  pub cancel_set : Bool
  pub cancelled_waiting : Bool
  pub answer : ℕ → Option Response

-- The Content-Range against the request.
abbrev pub check_range : ℕ → ℕ → Option (ℕ × ℕ) → Result (Unit {0})
check_range requested_start requested_end none = err value_error
check_range requested_start requested_end (some (start, end)) =
    guard (start == requested_start && end == requested_end) value_error

unfoldable pub validate_range_response : Response → ℕ → ℕ → Result (Unit {0})
validate_range_response response requested_start requested_end = do
  guard (response.status == 206) value_error
  check_range requested_start requested_end response.content_range

-- The bytes that the sink has, and whether the loop goes on to the next attempt.
pub record Transfer : Type 0 where
  pub received : ℕ
  pub sink : List ℕ

-- `while received < total_expected`, over the reads of one response; a read behind the last arrival
-- is empty, since the server has closed.
unfoldable pub read_blocks : ℕ → ℕ → List Arrival → List ℕ → Transfer → Result (Unit {0}) × Transfer
read_blocks total_expected chunk_size [] body t = (ok tt, t)
read_blocks total_expected chunk_size (cancelled ∷ arrivals) body t =
    if ltb t.received total_expected then (err interrupted_error, t) else (ok tt, t)
read_blocks total_expected chunk_size (dropped ∷ arrivals) body t = (ok tt, t)
read_blocks total_expected chunk_size (arrived n ∷ arrivals) body t =
    let block = take (min n (min chunk_size (total_expected - t.received))) body in
    let rest =
      read_blocks total_expected chunk_size arrivals (drop (length block) body)
        (record { received = t.received + length block; sink = t.sink ++ block }) in
    if ltb t.received total_expected && not (length block == 0) then rest else (ok tt, t)

-- The body of `with response:`.
unfoldable pub consume : ℕ → ℕ → ℕ → ℕ → Response → Transfer → Result (Unit {0}) × Transfer
unfolding validate_range_response read_blocks
consume byte_start byte_end total_expected chunk_size response t =
    elim (validate_range_response response (byte_start + t.received) byte_end) [
      | ok _ ↦ read_blocks total_expected chunk_size response.arrivals response.body t
      | err e ↦ (err e, t)
    ]

-- Behind the loop: `if received != total_expected: raise IncompleteRangeRead`.
abbrev pub finish : ℕ → Transfer → Result ℕ × Transfer
finish total_expected t =
    if t.received == total_expected then (ok t.received, t) else (err os_error, t)

abbrev pub continue_with :
    (Transfer → Result ℕ × Transfer) → Result (Unit {0}) × Transfer → Result ℕ × Transfer
continue_with next (ok _, t) = next t
continue_with next (err e, t) = (err e, t)

-- The request of an attempt: an OSError goes on to the next attempt.
abbrev pub on_answer :
    (Transfer → Result ℕ × Transfer)
    → (Response → Result (Unit {0}) × Transfer)
    → Transfer
    → Option Response
    → Result ℕ × Transfer
on_answer next consume_response t none = next t
on_answer next consume_response t (some response) = continue_with next (consume_response response)

-- `for attempt in range(max_attempts)`: one element for each attempt; `retry` is `attempt > 0`.
unfoldable pub attempt_all : ℕ → ℕ → ℕ → ℕ → Bool → List Attempt → Transfer → Result ℕ × Transfer
unfolding consume
attempt_all byte_start byte_end total_expected chunk_size retry [] t = finish total_expected t
attempt_all byte_start byte_end total_expected chunk_size retry (a ∷ attempts) t =
    let next = attempt_all byte_start byte_end total_expected chunk_size true attempts in
    if a.cancel_set
    then (err interrupted_error, t)
    else if leb total_expected t.received
    then finish total_expected t
    else if retry && a.cancelled_waiting
    then (err interrupted_error, t)
    else on_answer next
        (λ response. consume byte_start byte_end total_expected chunk_size response t) t
        (a.answer (byte_start + t.received))

abbrev pub nothing : Transfer
nothing = record { received = 0; sink = [] }

-- `byte_end` is inclusive; `total_expected <= 0` is an empty range, which asks for nothing.
unfoldable pub stream_remote_bytes : ℕ → ℕ → ℕ → List Attempt → Result ℕ × Transfer
unfolding attempt_all
stream_remote_bytes byte_start byte_end chunk_size attempts =
    let total_expected = byte_end + 1 - byte_start in
    if total_expected == 0
    then (ok 0, nothing)
    else if chunk_size == 0
    then (err value_error, nothing)
    else attempt_all byte_start byte_end total_expected chunk_size false attempts nothing

-- `b"".join(chunks)`, with blocks of 4 MiB.
abbrev pub joined : Result ℕ × Transfer → Result (List ℕ)
joined (ok _, t) = ok t.sink
joined (err e, t) = err e

unfoldable pub fetch_remote_bytes : ℕ → ℕ → List Attempt → Result (List ℕ)
unfolding stream_remote_bytes
fetch_remote_bytes byte_start byte_end attempts =
    joined (stream_remote_bytes byte_start byte_end (4 * 1024 * 1024) attempts)
