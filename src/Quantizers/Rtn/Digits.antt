-- ===== src/Quantizers/Rtn/Digits.antt =====
-- A byte as the number that its codes make, and the codes as the digits of that number.
use native.Mathlib.Nat.{
  zero-add, one-le-pow, pow-suc, pow-zero, add-zero, div-eq_of_lt, add-mul-div_right, mod-eq_of_lt,
  add-mul-mod_self_right,
}
use pocket_titan.Prelude.{
  ℕ, zero, suc, ◌+◌, ◌-◌, ◌*◌, ◌/◌, ◌%◌, ◌^◌, ◌<◌, ◌≡◌, ap, ◌∙◌, Bool-cases, inl, inr, List, [],
  ◌∷◌, ◌++◌, ◌==◌, All, arith,
}

-- A code of a block, and the number that the first `k` codes of a block make.
abbrev pub code_at : ℕ → List ℕ → ℕ
code_at i [] = 0
code_at zero (x ∷ xs) = x
code_at (suc i) (x ∷ xs) = code_at i xs

unfoldable pub value : ℕ → List ℕ → ℕ → ℕ
value bits block zero = 0
value bits block (suc k) = value bits block k + code_at k block * 2 ^ (k * bits)

-- The codes of a byte.
unfoldable pub digits : ℕ → ℕ → ℕ → List ℕ
digits bits byte zero = []
digits bits byte (suc k) = digits bits byte k ++ byte / 2 ^ (k * bits) % 2 ^ bits ∷ []

pow-add : (b m n : ℕ) → b ^ (m + n) ≡ b ^ m * b ^ n
pow-add b m zero = rw (add-zero, pow-zero) (omega arith)
pow-add b m (suc n) =
    ap (λ e. b ^ e) (omega arith)
    ∙ pow-suc b (m + n)
    ∙ ap (λ p. p * b) (pow-add b m n)
    ∙ rw (pow-suc b n) (grind arith)

pow_round : (k bits : ℕ) → 2 ^ (suc k * bits) ≡ 2 ^ (k * bits) * 2 ^ bits
pow_round k bits = ap (λ n. 2 ^ n) (omega arith) ∙ pow-add 2 (k * bits) bits

pub code_at-lt : (b i : ℕ) (xs : List ℕ) → 0 < b → All (λ x. x < b) xs → code_at i xs < b
code_at-lt b i [] p h = p
code_at-lt b zero (x ∷ xs) p h = h.0
code_at-lt b (suc i) (x ∷ xs) p h = code_at-lt b i xs p h.1

pub pow_pos : (k : ℕ) → 0 < 2 ^ k
pow_pos k = one-le-pow k 2 (omega arith)

pub value-lt :
    (bits : ℕ) (block : List ℕ) (k : ℕ)
    → All (λ x. x < 2 ^ bits) block
    → value bits block k < 2 ^ (k * bits)
unfolding value
value-lt bits block zero h = pow_pos (0 * bits)
value-lt bits block (suc k) h =
    rw (pow_round k bits)
      (grind (arith, value-lt bits block k h, code_at-lt (2 ^ bits) k block (pow_pos bits) h))

exponents : (i k d bits : ℕ) → k ≡ d + 1 + i → k * bits ≡ d * bits + bits + i * bits
exponents i k d bits h = rw h (grind arith)

apart :
    (i k bits x : ℕ)
    → i < k
    → x * 2 ^ (k * bits) ≡ x * 2 ^ ((k - i - 1) * bits) * 2 ^ bits * 2 ^ (i * bits)
apart i k bits x h =
    let split : 2 ^ (k * bits) ≡ 2 ^ ((k - i - 1) * bits) * 2 ^ bits * 2 ^ (i * bits) =
      ap (λ n. 2 ^ n) (exponents i k (k - i - 1) bits (omega arith))
      ∙ pow-add 2 ((k - i - 1) * bits + bits) (i * bits)
      ∙ ap (λ n. n * 2 ^ (i * bits)) (pow-add 2 ((k - i - 1) * bits) bits) in
    ap (λ n. x * n) split ∙ grind arith

-- The digit `i` of the first `k` codes is the code `i`.
pub digit-value :
    (bits : ℕ) (block : List ℕ) (k i : ℕ)
    → i < k
    → All (λ x. x < 2 ^ bits) block
    → value bits block k / 2 ^ (i * bits) % 2 ^ bits ≡ code_at i block
unfolding value
digit-value bits block zero i h fits = absurd (omega arith)
digit-value bits block (suc k) i h fits = elim (Bool-cases (i == k)) [
  | inl last ↦
      let same : i ≡ k = ground arith in
      let p = pow_pos (k * bits) in
      rw same (
        ap (λ n. n % 2 ^ bits)
          (add-mul-div_right (value bits block k) (code_at k block) p
            ∙ ap (λ n. n + code_at k block) (div-eq_of_lt (value-lt bits block k fits)))
        ∙ ap (λ n. n % 2 ^ bits) (zero-add (code_at k block))
        ∙ mod-eq_of_lt (code_at-lt (2 ^ bits) k block (pow_pos bits) fits))
  | inr earlier ↦
      let before : i < k = ground arith in
      ap (λ n. n % 2 ^ bits)
        (ap (λ (q : ℕ). (value bits block k + q) / 2 ^ (i * bits))
            (apart i k bits (code_at k block) before)
          ∙ add-mul-div_right (value bits block k)
              (code_at k block * 2 ^ ((k - i - 1) * bits) * 2 ^ bits) (pow_pos (i * bits)))
      ∙ add-mul-mod_self_right (value bits block k / 2 ^ (i * bits))
          (code_at k block * 2 ^ ((k - i - 1) * bits)) (2 ^ bits)
      ∙ digit-value bits block k i before fits
]
