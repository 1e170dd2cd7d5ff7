-- ===== src/Tests/Writer.antt =====
-- A plan of two float16 tensors, whose build is interrupted while the second one is written.
use Prim.Native.String.{String}
use pocket_titan.Prelude.{
  ℕ, ◌≡◌, refl, ◌≤◌, ◌+◌, true, none, List, [], ◌∷◌, ◌++◌, length, ok, err, key_error, arith, inl,
  inr, All, ok-injective, subst, take, drop, sym, take-append-drop,
}
use pocket_titan.Prelude.Dict as Dict
use pocket_titan.Format.Spans.{packed}
use pocket_titan.Package.Encode.{Codec, DenseWorkItem, encode_dense}
use pocket_titan.Package.Journal.{BuildPlan, load_journal, new_journal, resume_status, dense_item}
use pocket_titan.Package.Effects.{Region, dense, experts, ple, Effect, Run}
use pocket_titan.Package.Writer.{encode_item, build, BuildResult}
use pocket_titan.Package.Writer.Disk.{Disk, run, Crashed, at_region, Survives}
use pocket_titan.Package.Writer.Bytes.{write_at}
use pocket_titan.Package.Writer.Batch.{Recoverable}
use pocket_titan.Package.Writer.Planned.{all_items, IsPlanned}
use pocket_titan.Package.Writer.Complete.{build_durable, build-IsComplete, IsComplete}
use pocket_titan.Package.Writer.Returns.{build_returns, Encodes}

program : Unit {0}
unfolding build resume_status encode_dense write_at Dict.get Dict.set
program = tt

-- The source of a tensor is its two bytes.
abbrev codec : Codec (ℕ × ℕ) (ℕ × ℕ)
codec = record {
  read = λ source. ok source;
  to_float16 = λ tensor. tensor.0 ∷ tensor.1 ∷ [];
  as_matrix = λ tensor. tensor;
  quantize_matrix = λ tensor bits group_size symmetric. err key_error;
}

abbrev crc32c : List ℕ → ℕ
crc32c payload = length payload

abbrev item : String → ℕ × ℕ → ℕ → DenseWorkItem (ℕ × ℕ)
item name source byte_offset = record {
  name = name;
  source = source;
  bits = 16;
  group_size = 0;
  symmetric = true;
  byte_offset = byte_offset;
  spans = record { section = packed; offset = 0; length = 2 } ∷ [];
}

abbrev plan : BuildPlan (ℕ × ℕ)
plan = record {
  dense_total = 6;
  dense = item "norm" (1, 2) 0 ∷ item "router" (3, 4) 4 ∷ [];
  expert_total = 0;
  expert_record = none;
  experts = [];
  ple = none;
}

abbrev fresh : Disk
fresh = record { files = λ r. []; unsynced = λ r. []; journal = none }

abbrev whole : Run BuildResult
whole = build codec crc32c plan true "layout" none (ok tt) (ok tt) (ok tt)

-- The region is grown, each tensor is written, flushed and listed, and the finished journal is saved.
steps : length whole.trace ≡ 8
unfolding program
steps = refl

built : (run whole.trace fresh).files dense ≡ 1 ∷ 2 ∷ 0 ∷ 0 ∷ 3 ∷ 4 ∷ []
unfolding program
built = refl

-- The second tensor was being written when the machine stopped.
abbrev before : List Effect
before = take 5 whole.trace

abbrev after : Disk
after = record {
  files = λ r. at_region dense (1 ∷ 2 ∷ 0 ∷ 0 ∷ 9 ∷ 9 ∷ []) (λ r. []) r;
  unsynced = λ r. [];
  journal = (run before fresh).journal;
}

sized :
    (p : List ℕ)
    → encode_item codec crc32c plan (dense_item (item "norm" (1, 2) 0)) ≡ ok p
    → 0 + length p ≤ 4
unfolding program
sized p e = subst (λ p. 0 + length p ≤ 4) (ok-injective e) (omega arith)

loaded : load_journal true "layout" none ≡ ok (new_journal "layout")
unfolding program
loaded = refl

split : whole.trace ≡ before ++ drop 5 whole.trace
split = sym (take-append-drop 5 whole.trace)

apart : IsPlanned codec crc32c plan
unfolding program
apart = record {
  dense_apart = (((refl, λ p q e f. ((inl (sized p e), tt), tt)), tt), (tt, tt));
  experts_apart = tt;
  ple_apart = tt;
  rows_apart = tt;
  described = λ e. refl;
}

crashed_files :
    (r : Region)
    → Survives ((run before fresh).files r) ((run before fresh).unsynced r) (after.files r)
unfolding program
crashed_files dense = (after.files dense, inr (9 ∷ 9 ∷ [], refl, refl), refl)
crashed_files experts = refl
crashed_files ple = refl

crashed : Crashed (run before fresh) after
unfolding program
crashed = record { files = crashed_files; unsynced = unsynced_after; journal = refl }
  where
    unsynced_after : (r : Region) → after.unsynced r ≡ []
    unsynced_after r = refl

-- Nothing is listed before the first build.
nothing_listed : Recoverable codec crc32c plan (all_items plan) fresh
nothing_listed j e = cc

build_durable_example :
    ((r : Region) → after.unsynced r ≡ []) × Recoverable codec crc32c plan (all_items plan) after
build_durable_example =
    build_durable codec crc32c plan true "layout" fresh after (ok tt) (ok tt) (ok tt) before
      (drop 5 whole.trace) apart (inl refl) (λ r. refl) nothing_listed split crashed

-- The build is run again on what the crash has left.
abbrev resumed : Run BuildResult
resumed = build codec crc32c plan true "layout" after.journal (ok tt) (ok tt) (ok tt)

resumed_result :
    resumed.outcome ≡ ok (record { items_written = 1; items_skipped = 1; bytes_written = 2 })
unfolding program
resumed_result = refl

resumed_files : (run resumed.trace after).files dense ≡ 1 ∷ 2 ∷ 0 ∷ 0 ∷ 3 ∷ 4 ∷ []
unfolding program
resumed_files = refl

build-IsComplete_example : IsComplete codec crc32c plan (run resumed.trace after)
build-IsComplete_example =
    build-IsComplete codec crc32c plan "layout" after (ok tt) (ok tt) (ok tt)
      (record { items_written = 1; items_skipped = 1; bytes_written = 2 }) apart (λ r. refl)
      build_durable_example.1 resumed_result

encodes : All (Encodes codec crc32c plan) (all_items plan)
unfolding program
encodes = ((1 ∷ 2 ∷ [], refl), ((3 ∷ 4 ∷ [], refl), tt))

build_returns_example :
    (result : BuildResult) × (whole.outcome ≡ ok result)
    × IsComplete codec crc32c plan (run whole.trace fresh)
build_returns_example =
    build_returns codec crc32c plan "layout" fresh (new_journal "layout") apart (λ r. refl)
      nothing_listed encodes loaded
