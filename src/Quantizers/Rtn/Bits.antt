-- ===== src/Quantizers/Rtn/Bits.antt =====
-- The bit operations of the packer on one byte as arithmetic. Each case is a table of 256 entries,
-- checked by evaluation.
use Prim.Native.Nat.{bit_and, bit_or}
use native.Mathlib.Decide.{ℕ_discrete}
use native.Mathlib.Nat.{add-mul-mod_self_right, mod-eq_of_lt, add-mul-div_right, div-eq_of_lt}
use mathlib.Core.Logic.{ite}
use pocket_titan.Prelude.{
  ℕ, zero, suc, ◌+◌, ◌-◌, ◌*◌, ◌/◌, ◌%◌, ◌^◌, ◌≤◌, ◌<◌, ◌≡◌, refl, sym, ap, ◌∙◌, Bool, true, false,
  arith,
}

module _ (f g : ℕ → ℕ) where
  agree_below : ℕ → Bool
  unfolding ℕ_discrete
  agree_below zero = true
  agree_below (suc n) = ite (ℕ_discrete (f n) (g n)) (agree_below n) false

  agree_below_lem : (n : ℕ) → agree_below n ≡ true → (i : ℕ) → i < n → f i ≡ g i
  unfolding agree_below
  agree_below_lem zero e i h = absurd (omega arith)
  agree_below_lem (suc n) e i h = ground (arith, agree_below_lem n (ground arith) i)

-- The low `bits` bits.
pub masked : (bits b : ℕ) → bits ≤ 8 → b < 256 → bit_and b (2 ^ bits - 1) ≡ b % 2 ^ bits
unfolding agree_below
masked zero b h = agree_below_lem (λ b. bit_and b (2 ^ 0 - 1)) (λ b. b % 2 ^ 0) 256 refl b
masked (suc zero) b h = agree_below_lem (λ b. bit_and b (2 ^ 1 - 1)) (λ b. b % 2 ^ 1) 256 refl b
masked (suc (suc zero)) b h =
    agree_below_lem (λ b. bit_and b (2 ^ 2 - 1)) (λ b. b % 2 ^ 2) 256 refl b
masked (suc (suc (suc zero))) b h =
    agree_below_lem (λ b. bit_and b (2 ^ 3 - 1)) (λ b. b % 2 ^ 3) 256 refl b
masked (suc (suc (suc (suc zero)))) b h =
    agree_below_lem (λ b. bit_and b (2 ^ 4 - 1)) (λ b. b % 2 ^ 4) 256 refl b
masked (suc (suc (suc (suc (suc zero))))) b h =
    agree_below_lem (λ b. bit_and b (2 ^ 5 - 1)) (λ b. b % 2 ^ 5) 256 refl b
masked (suc (suc (suc (suc (suc (suc zero)))))) b h =
    agree_below_lem (λ b. bit_and b (2 ^ 6 - 1)) (λ b. b % 2 ^ 6) 256 refl b
masked (suc (suc (suc (suc (suc (suc (suc zero))))))) b h =
    agree_below_lem (λ b. bit_and b (2 ^ 7 - 1)) (λ b. b % 2 ^ 7) 256 refl b
masked (suc (suc (suc (suc (suc (suc (suc (suc zero)))))))) b h =
    agree_below_lem (λ b. bit_and b (2 ^ 8 - 1)) (λ b. b % 2 ^ 8) 256 refl b
masked (suc (suc (suc (suc (suc (suc (suc (suc (suc n))))))))) b h = absurd (omega arith)

-- The fields of a byte below and from bit `shift` on, put together by an or.
abbrev rejoin : ℕ → ℕ → ℕ
rejoin shift b = bit_or (b % 2 ^ shift) (b / 2 ^ shift * 2 ^ shift % 256)

rejoined : (shift b : ℕ) → shift ≤ 8 → b < 256 → rejoin shift b ≡ b
unfolding agree_below
rejoined zero b h = agree_below_lem (rejoin 0) (λ b. b) 256 refl b
rejoined (suc zero) b h = agree_below_lem (rejoin 1) (λ b. b) 256 refl b
rejoined (suc (suc zero)) b h = agree_below_lem (rejoin 2) (λ b. b) 256 refl b
rejoined (suc (suc (suc zero))) b h = agree_below_lem (rejoin 3) (λ b. b) 256 refl b
rejoined (suc (suc (suc (suc zero)))) b h = agree_below_lem (rejoin 4) (λ b. b) 256 refl b
rejoined (suc (suc (suc (suc (suc zero))))) b h = agree_below_lem (rejoin 5) (λ b. b) 256 refl b
rejoined (suc (suc (suc (suc (suc (suc zero)))))) b h =
    agree_below_lem (rejoin 6) (λ b. b) 256 refl b
rejoined (suc (suc (suc (suc (suc (suc (suc zero))))))) b h =
    agree_below_lem (rejoin 7) (λ b. b) 256 refl b
rejoined (suc (suc (suc (suc (suc (suc (suc (suc zero)))))))) b h =
    agree_below_lem (rejoin 8) (λ b. b) 256 refl b
rejoined (suc (suc (suc (suc (suc (suc (suc (suc (suc n))))))))) b h = absurd (omega arith)

-- Shifting a code beyond the bits in use and joining it by an or adds it.
pub or_above :
    (shift a x : ℕ)
    → shift ≤ 8
    → a < 2 ^ shift
    → a + x * 2 ^ shift < 256
    → bit_or a (x * 2 ^ shift % 256) ≡ a + x * 2 ^ shift
or_above shift a x h below fits =
    let low : (a + x * 2 ^ shift) % 2 ^ shift ≡ a =
      add-mul-mod_self_right a x (2 ^ shift) ∙ mod-eq_of_lt below in
    let high : (a + x * 2 ^ shift) / 2 ^ shift ≡ x =
      add-mul-div_right a x (omega arith) ∙ ap (λ q. q + x) (div-eq_of_lt below) ∙ omega arith in
    ap (λ l. bit_or l (x * 2 ^ shift % 256)) (sym low)
    ∙ ap (λ q. bit_or ((a + x * 2 ^ shift) % 2 ^ shift) (q * 2 ^ shift % 256)) (sym high)
    ∙ rejoined shift (a + x * 2 ^ shift) h fits
