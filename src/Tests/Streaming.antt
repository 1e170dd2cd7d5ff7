-- ===== src/Tests/Streaming.antt =====
-- A shard of ten bytes behind a network that drops the first response.
use mathlib.Core.List.{append-nil}
use pocket_titan.Prelude.{
  sym, subst, some_inj, ℕ, ◌+◌, ◌-◌, ◌*◌, ◌≤◌, ◌≡◌, refl, false, Option, none, some, List, [], ◌∷◌,
  ◌++◌, take, drop, Result, ok, err, value_error, os_error, arith,
}
use pocket_titan.Streaming.Transfer.{
  Arrival, arrived, dropped, Response, Attempt, stream_remote_bytes, fetch_remote_bytes,
}
use pocket_titan.Streaming.Transfer.Exact.{IsHonest, IsPrefix, range_of, stream_remote_bytes_exact}
use pocket_titan.Streaming.Reader.{
  SourceDtype, verbatim, f8_e4m3, Tensor, float16, same, as_tensor, TensorAddress, read_slice,
  read_3d_expert_slice,
}
use pocket_titan.Streaming.Reader.Ranges.{AreHonest, read_slice_exact, read_3d_expert_slice_exact}

program : Unit {0}
unfolding stream_remote_bytes fetch_remote_bytes read_slice read_3d_expert_slice
program = tt

abbrev file : List ℕ
file = 10 ∷ 11 ∷ 12 ∷ 13 ∷ 14 ∷ 15 ∷ 16 ∷ 17 ∷ 18 ∷ 19 ∷ []

-- The origin's answer to a request from `start` to `last`, which meets `arrivals`.
abbrev serve : ℕ → List Arrival → ℕ → Option Response
serve last arrivals start = some (record {
  status = 206;
  content_range = some (start, last);
  body = drop start file;
  arrivals = arrivals;
})

abbrev attempt : (ℕ → Option Response) → Attempt
attempt answer = record { cancel_set = false; cancelled_waiting = false; answer = answer }

-- Three bytes and a drop, a refused connection, then the rest.
abbrev flaky : ℕ → List Attempt
flaky last =
    attempt (serve last (arrived 3 ∷ dropped ∷ []))
    ∷ attempt (λ _. none)
    ∷ attempt (serve last (arrived 2 ∷ arrived 9 ∷ []))
    ∷ []

resumed : fetch_remote_bytes 2 7 (flaky 7) ≡ ok (12 ∷ 13 ∷ 14 ∷ 15 ∷ 16 ∷ 17 ∷ [])
unfolding program
resumed = refl

exhausted : fetch_remote_bytes 2 7 (attempt (serve 7 (arrived 3 ∷ [])) ∷ []) ≡ err os_error
unfolding program
exhausted = refl

-- A server that answers with the whole file is refused.
ignored :
    fetch_remote_bytes 2 7 (
      attempt (λ _.
        some
          (record { status = 200; content_range = none; body = file; arrivals = arrived 10 ∷ [] }))
      ∷ [])
    ≡ err value_error
unfolding program
ignored = refl

rest_of : (start : ℕ) → (rest : List ℕ) × (drop start file ≡ drop start file ++ rest)
rest_of start = ([], sym (append-nil (drop start file)))

serve-IsHonest :
    (byte_end last : ℕ) (arrivals : List Arrival)
    → IsHonest file byte_end (attempt (serve last arrivals))
serve-IsHonest byte_end last arrivals start r answered status range =
    subst (λ x. (rest : List ℕ) × (drop start file ≡ x.body ++ rest)) (some_inj answered)
      (rest_of start)

flaky-AreHonest : (last : ℕ) → AreHonest file (flaky last)
flaky-AreHonest last byte_end = (
  serve-IsHonest byte_end last (arrived 3 ∷ dropped ∷ []),
  (
    λ start r answered status range. cc,
    (serve-IsHonest byte_end last (arrived 2 ∷ arrived 9 ∷ []), tt),
  ),
)

stream_remote_bytes_exact_example :
    IsPrefix file 2 (7 + 1 - 2) (stream_remote_bytes 2 7 4 (flaky 7)).1
    × ((n : ℕ)
        → (stream_remote_bytes 2 7 4 (flaky 7)).0 ≡ ok n
        → (n ≡ 7 + 1 - 2) × ((stream_remote_bytes 2 7 4 (flaky 7)).1.sink ≡ range_of file 2 7))
stream_remote_bytes_exact_example =
    stream_remote_bytes_exact file 2 7 4 (flaky 7) (flaky-AreHonest 7 7)

abbrev middle : List ℕ
middle = 12 ∷ 13 ∷ 14 ∷ 15 ∷ 16 ∷ 17 ∷ []

-- Two experts of one row of two 16-bit weights.
abbrev experts : TensorAddress
experts = record {
  shape = 2 ∷ 1 ∷ 2 ∷ [];
  byte_start = 1;
  byte_end = 9;
  size_bytes = 8;
  dtype = verbatim 2;
}

-- In place of torch's conversion: each byte becomes the upper one of two.
abbrev widened : SourceDtype → List ℕ → List ℕ
widened dtype [] = []
widened dtype (byte ∷ bytes) = 0 ∷ byte ∷ widened dtype bytes

abbrev expert_tensor : Tensor
expert_tensor = record {
  dtype = same (verbatim 2);
  shape = 1 ∷ 2 ∷ [];
  content = 15 ∷ 16 ∷ 17 ∷ 18 ∷ [];
}

second_expert : read_3d_expert_slice widened experts 1 (flaky 8) ≡ ok expert_tensor
unfolding program
second_expert = refl

read_3d_expert_slice_exact_example :
    (per : ℕ) × (per * 2 ≡ 8)
    × (expert_tensor
        ≡ as_tensor widened (verbatim 2) (1 ∷ 2 ∷ []) (take per (drop (1 + 1 * per) file)))
    × (1 * per + per ≤ 8)
read_3d_expert_slice_exact_example =
    read_3d_expert_slice_exact widened file experts 2 1 2 1 (flaky 8) expert_tensor refl
      (omega arith) (flaky-AreHonest 8) second_expert

-- A matrix of four rows of two eight-bit floats.
abbrev matrix : TensorAddress
matrix = record {
  shape = 4 ∷ 2 ∷ [];
  byte_start = 1;
  byte_end = 9;
  size_bytes = 8;
  dtype = f8_e4m3;
}

abbrev no_rows : Tensor → ℕ → ℕ → Result Tensor
no_rows _ _ _ = err value_error

abbrev row_tensor : Tensor
row_tensor = record {
  dtype = float16;
  shape = 2 ∷ 2 ∷ [];
  content = 0 ∷ 13 ∷ 0 ∷ 14 ∷ 0 ∷ 15 ∷ 0 ∷ 16 ∷ [];
}

middle_rows : read_slice widened no_rows matrix 1 3 (flaky 6) ≡ ok row_tensor
unfolding program
middle_rows = refl

read_slice_exact_example :
    (bytes_per_row : ℕ) × (bytes_per_row * 4 ≡ 8)
    × (row_tensor
        ≡ as_tensor widened f8_e4m3
            ((3 - 1) ∷ 2 ∷ [])
            (take ((3 - 1) * bytes_per_row) (drop (1 + 1 * bytes_per_row) file)))
    × (3 * bytes_per_row ≤ 8)
read_slice_exact_example =
    read_slice_exact widened no_rows file matrix 4 2 1 3 (flaky 6) row_tensor refl (omega arith)
      (omega arith) (flaky-AreHonest 6) middle_rows
