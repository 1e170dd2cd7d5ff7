-- ===== src/Format/Groups.antt =====
-- `resolve_group_size`: the group size that is used for a row, never one that pads. A group size
-- that the source writes as -1 (one group) is 0 here; the code tests only `group_size <= 0`.
use native.Mathlib.Nat.{mod-one, mod_self}
use pocket_titan.Prelude.{
  ℕ, false, zero, suc, ◌%◌, ◌≤◌, ◌<◌, ◌≡◌, ◌≢◌, ◌||◌, arith, inl, inr, leb, ◌==◌, if◌then◌else◌,
  Bool-cases,
}

-- The loop `for candidate in range(group_size, 0, -1)`, and the return behind it.
divisor_from : ℕ → ℕ → ℕ
divisor_from in_features zero = in_features
divisor_from in_features (suc candidate) =
    if in_features % suc candidate == 0 then suc candidate else divisor_from in_features candidate

unfoldable pub resolve_group_size : ℕ → ℕ → ℕ
unfolding divisor_from
resolve_group_size in_features group_size =
    if leb in_features 0
    then in_features
    else if leb group_size 0 || leb in_features group_size
    then in_features
    else if in_features % group_size == 0
    then group_size
    else divisor_from in_features group_size

-- What the loop finds from `candidate` down.
pub record IsLargestDivisor (n bound r : ℕ) : Type 0 where
  pub positive : 0 < r
  pub within : r ≤ bound
  pub divides : n % r ≡ 0
  pub largest : (d : ℕ) → 0 < d → d ≤ bound → n % d ≡ 0 → d ≤ r

not_above : (c d : ℕ) → d ≤ suc (suc c) → d ≢ suc (suc c) → d ≤ suc c
not_above c d le other = omega arith

not_divisor : (n d : ℕ) {b : ℕ} → (n % b == 0) ≡ false → d ≡ b → n % d ≢ 0
not_divisor n d leaves top e = ground arith

divisor_from_lem :
    (n bound : ℕ) → 0 < n → 0 < bound → IsLargestDivisor n bound (divisor_from n bound)
unfolding divisor_from
divisor_from_lem n zero p h = absurd (omega arith)
divisor_from_lem n (suc zero) p h = rw mod-one (record {
  positive = omega arith;
  within = omega arith;
  divides = mod-one n;
  largest = λ d _ le _. le;
})
divisor_from_lem n (suc (suc c)) p h = elim (Bool-cases (n % suc (suc c) == 0)) [
  | inl divides ↦ rw divides (record {
    positive = omega arith;
    within = omega arith;
    divides = ground arith;
    largest = λ d _ le _. le;
  })
  | inr leaves ↦
      let below = divisor_from_lem n (suc c) p (omega arith) in
      rw leaves (record {
        positive = below.positive;
        within = omega (arith, below.within);
        divides = below.divides;
        largest = λ d q le e.
            below.largest d q (not_above c d le (λ top. not_divisor n d leaves top e)) e;
      })
]

-- The resolved group size divides the row width, so no row is ever padded; it is positive, at most
-- the row width, and at most the requested size where that is positive.
pub resolve_group_size_divides :
    (n g : ℕ)
    → 0 < n
    → (0 < resolve_group_size n g)
      × (resolve_group_size n g ≤ n)
      × (resolve_group_size n g ≤ (if leb g 0 then n else g))
      × (n % resolve_group_size n g ≡ 0)
unfolding resolve_group_size
resolve_group_size_divides n g p = grind (arith, divisor_from_lem n g p, mod_self n)

-- The resolved group size is the coarsest grouping that does not pad: it is positive, divides the row
-- width, is at most the bound (the requested size, or the row width for a request of 0 or above the
-- width), and any divisor of the row width up to that bound is at most the resolved one.
pub resolve_group_size_largest :
    (n g d : ℕ)
    → 0 < n
    → 0 < d
    → n % d ≡ 0
    → d ≤ (if leb g 0 || leb n g then n else g)
    → (0 < resolve_group_size n g)
      × (n % resolve_group_size n g ≡ 0)
      × (resolve_group_size n g ≤ (if leb g 0 || leb n g then n else g))
      × (d ≤ resolve_group_size n g)
unfolding resolve_group_size
resolve_group_size_largest n g d p q e h = grind (arith, divisor_from_lem n g p, mod_self n)
