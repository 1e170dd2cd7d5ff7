-- ===== src/Tests/ExpertManager.antt =====
-- A bank of two experts of one byte each, on pages of four bytes.
use native.Mathlib.Decide.{ℕ_discrete}
use pocket_titan.Prelude.{
  ap, ℕ, ◌+◌, ◌≡◌, refl, true, some, List, [], ◌∷◌, Result, ok, err, key_error, runtime_error,
  arith, ap, inl,
}
use pocket_titan.Prelude.Dict
use pocket_titan.Prelude.Dict.{Dict}
use pocket_titan.Format.Record.{record_offset}
use pocket_titan.Format.Bank.{ExpertLayout, byte_range}
use pocket_titan.Runtime.ExpertCache
use pocket_titan.Runtime.ExpertCache.{Cache}
use pocket_titan.Runtime.ExpertManager.{Manager, load_expert, fetch_expert}
use pocket_titan.Runtime.ExpertManager.Transparent.{IsCoherent, Fetched, fetch_expert_transparent}

abbrev bank : ExpertLayout
bank = record {
  num_layers = 1;
  num_experts = 2;
  layers = 0 ∷ [];
  geometry = record { projections = []; payload_bytes = 1; stride = 4; alignment = 4 };
  records = [];
}

abbrev empty_cache : Cache (ℕ × ℕ) ℕ
empty_cache = record {
  capacity_slots = 2;
  probationary_capacity = 1;
  protected_capacity = 1;
  probationary = [];
  protected = [];
  hits = 0;
  misses = 0;
  evictions = 0;
  promotions = 0;
  demotions = 0;
}

abbrev manager : Manager ℕ
manager = record {
  layout = bank;
  is_cuda = true;
  ram_cache = empty_cache;
  vram_capacity = 1;
  vram_promotion_threshold = 1;
  vram_hot_tier = [];
  access_frequency = [];
  mapped = some (7 ∷ 0 ∷ 0 ∷ 0 ∷ 9 ∷ []);
}

abbrev decode : List ℕ → Result ℕ
decode (b ∷ []) = ok b
decode _ = err runtime_error

abbrev dec : Discrete (ℕ × ℕ)
dec (a, b) (c, d) = elim (ℕ_discrete a c) [
  | no n ↦ no (λ e. n (ap (λ (x : ℕ × ℕ). x.0) e))
  | yes p ↦ elim (ℕ_discrete b d) [
    | no n ↦ no (λ e. n (ap (λ (x : ℕ × ℕ). x.1) e))
    | yes q ↦ yes (rw (p, q) refl)
  ]
]

program : Unit {0}
unfolding fetch_expert load_expert byte_range record_offset ExpertCache.get ExpertCache.put Dict.get
    Dict.set Dict.remove ℕ_discrete
program = tt

-- The second expert's record is at byte 4; its first access takes it to the GPU.
fetched : (fetch_expert dec decode (λ b. b + 100) manager (0, 1)).0 ≡ ok 109
unfolding program
fetched = refl

missing : (fetch_expert dec decode (λ b. b + 100) manager (0, 2)).0 ≡ err key_error
unfolding program
missing = refl

manager-IsCoherent : IsCoherent dec decode (λ b. b + 100) manager
unfolding Dict.get
manager-IsCoherent = record {
  valid = record {
    unique_probationary = tt;
    unique_protected = tt;
    disjoint = λ k. inl refl;
    probationary_fits = omega arith;
    protected_fits = omega arith;
    some_probationary = omega arith;
    some_protected = omega arith;
    capacities = refl;
  };
  cached = λ j v e. cc;
  hot = λ j v e. cc;
  hot_fits = omega arith;
}

fetch_expert_transparent_example :
    Fetched dec decode
      (λ b. b + 100)
      manager
      (0, 1)
      (fetch_expert dec decode (λ b. b + 100) manager (0, 1))
fetch_expert_transparent_example =
    fetch_expert_transparent dec decode (λ b. b + 100) manager (0, 1) manager-IsCoherent
