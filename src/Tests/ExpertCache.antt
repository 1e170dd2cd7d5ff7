-- ===== src/Tests/ExpertCache.antt =====
-- The bounded SLRU cache: a short life of a cache of three slots.
use native.Mathlib.Decide.{ℕ_discrete as dec}
use pocket_titan.Prelude.{ℕ, ◌≡◌, refl, none, some, [], ◌∷◌, ok, err, key_error, value_error, arith}
use pocket_titan.Prelude.Dict
use pocket_titan.Prelude.Dict.{Dict}
use pocket_titan.Runtime.ExpertCache.{Cache, init, get, put}
use pocket_titan.Runtime.ExpertCache.Promotion.{IsValid, Refreshed, lookup}
use pocket_titan.Runtime.ExpertCache.Get.{get-Refreshed}
use pocket_titan.Runtime.ExpertCache.Put.{victim, Inserted, put-Inserted}
use pocket_titan.Runtime.ExpertCache.Update.{Updated, put-Updated}
use pocket_titan.Runtime.ExpertCache.Degenerate.{get-put_starved}

program : Unit {0}
unfolding Dict.get Dict.set Dict.remove init get put dec
program = tt

-- One protected slot holds 9; the probationary tier holds 1 and 2.
abbrev three : Cache ℕ ℕ
three = record {
  capacity_slots = 3;
  probationary_capacity = 2;
  protected_capacity = 1;
  probationary = (1, 10) ∷ (2, 20) ∷ [];
  protected = (9, 90) ∷ [];
  hits = 1;
  misses = 3;
  evictions = 0;
  promotions = 1;
  demotions = 0;
}

-- A second access to 1 promotes it and demotes 9.
promoted : get dec three 1 ≡ (
  ok (some 10),
  record three {
    probationary = (2, 20) ∷ (9, 90) ∷ [];
    protected = (1, 10) ∷ [];
    hits = 2;
    promotions = 2;
    demotions = 1;
  },
)
unfolding program
promoted = refl

three-IsValid : IsValid dec three
unfolding Dict.get dec
three-IsValid = record {
  unique_probationary = (refl, (refl, tt));
  unique_protected = (refl, tt);
  disjoint = λ k. ground arith;
  probationary_fits = omega arith;
  protected_fits = omega arith;
  some_probationary = omega arith;
  some_protected = omega arith;
  capacities = refl;
}

get-Refreshed_example :
    (c' : Cache ℕ ℕ) × (get dec three 1 ≡ (ok (lookup dec three 1), c')) × Refreshed dec three c'
get-Refreshed_example = get-Refreshed dec three 1 three-IsValid

absent_three : lookup dec three 5 ≡ none
unfolding program
absent_three = refl

put-Inserted_example :
    (c' : Cache ℕ ℕ) × (put dec three 5 50 ≡ (ok (victim three), c')) × Inserted dec three c' 5 50
put-Inserted_example = put-Inserted dec three 5 50 three-IsValid absent_three

resident_three : lookup dec three 2 ≡ some 20
unfolding program
resident_three = refl

put-Updated_example :
    (c' : Cache ℕ ℕ) × (put dec three 2 21 ≡ (ok none, c')) × Updated dec three c' 2 21
put-Updated_example = put-Updated dec three 2 21 20 three-IsValid resident_three

abbrev single : Cache ℕ ℕ
single = record {
  capacity_slots = 1;
  probationary_capacity = 1;
  protected_capacity = 0;
  probationary = [];
  protected = [];
  hits = 0;
  misses = 0;
  evictions = 0;
  promotions = 0;
  demotions = 0;
}

single_lem : init 1 0 ≡ ok single
unfolding program
single_lem = refl

get-put_starved_example :
    ((get dec (put dec single 7 70).1 7).0 ≡ err key_error)
    × (lookup dec (get dec (put dec single 7 70).1 7).1 7 ≡ none)
get-put_starved_example = get-put_starved dec 1 0 single 7 70 (omega arith) single_lem

no_capacity : init {K = ℕ} {V = ℕ} 0 0 ≡ err value_error
unfolding program
no_capacity = refl
