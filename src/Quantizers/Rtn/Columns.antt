-- ===== src/Quantizers/Rtn/Columns.antt =====
-- The columns of the packer, byte by byte: what `pack_columns` packs, `unpack_columns` gives back.
use Prim.Native.Nat.{bit_and, bit_or}
use mathlib.Core.List.{append_assoc}
use native.Mathlib.Nat.{div-le_self, pow-le-pow_right, suc-add, zero-add, add-zero, mul-div_cancel}
use pocket_titan.Prelude.{
  ℕ, zero, suc, ◌+◌, ◌-◌, ◌*◌, ◌/◌, ◌%◌, ◌^◌, ◌≤◌, ◌<◌, ◌≡◌, refl, sym, ap, ◌∙◌, List, [], ◌∷◌,
  ◌++◌, length, length-append, length-drop, take, drop, replicate, All, arith, take-append-drop,
  drop-drop,
}
use pocket_titan.Quantizers.Rtn.Bits.{masked, or_above}
use pocket_titan.Quantizers.Rtn.{
  strided, assign_strided, or_shifted, pack_columns, unpack_column, unpack_columns,
}
use pocket_titan.Quantizers.Rtn.Digits.{code_at, value, digits, value-lt, digit-value}

-- The byte of a block: the codes joined by or.
joined : ℕ → List ℕ → ℕ → ℕ
joined bits block zero = 0
joined bits block (suc k) = bit_or (joined bits block k) (code_at k block * 2 ^ (k * bits) % 256)

reaches : {a b c : ℕ} → a < b → b ≤ c → a < c
reaches h l = omega arith

joined-value :
    (bits : ℕ) (block : List ℕ) (k : ℕ)
    → k * bits ≤ 8
    → All (λ x. x < 2 ^ bits) block
    → joined bits block k ≡ value bits block k
unfolding joined value
joined-value bits block zero h fits = refl
joined-value bits block (suc k) h fits =
    let below : k * bits ≤ 8 = grind arith in
    rw (joined-value bits block k below fits) (
      or_above (k * bits) (value bits block k) (code_at k block) below (value-lt bits block k fits)
        (reaches (value-lt bits block (suc k) fits) (pow-le-pow_right (omega arith) h)))

strided-drop :
    (m skip step : ℕ) (xs : List ℕ) → strided (m + skip) step xs ≡ strided skip step (drop m xs)
unfolding strided
strided-drop zero skip step xs = rw zero-add refl
strided-drop (suc m) skip step [] = nothing skip
  where
    nothing : (s : ℕ) → strided (suc m + s) step [] ≡ strided s step []
    nothing s = refl
strided-drop (suc m) skip step (x ∷ xs) = rw suc-add (strided-drop m skip step xs)

strided_head :
    (i step : ℕ) (xs : List ℕ)
    → i < length xs
    → strided i step xs ≡ code_at i xs ∷ strided (step - 1) step (drop (suc i) xs)
unfolding strided
strided_head i step [] inside = absurd (omega arith)
strided_head zero step (x ∷ xs) inside = refl
strided_head (suc i) step (x ∷ xs) inside = strided_head i step xs (omega arith)

-- A column of the list: the code of the first byte, and the column of the other bytes.
strided_step :
    (i step : ℕ) (xs : List ℕ)
    → i < step
    → i < length xs
    → strided i step xs ≡ code_at i xs ∷ strided i step (drop step xs)
strided_step i step xs h inside =
    strided_head i step xs inside
    ∙ ap (λ rest. code_at i xs ∷ rest)
        (ap (λ s. strided s step (drop (suc i) xs)) (omega arith)
          ∙ strided-drop (step - 1 - i) i step (drop (suc i) xs)
          ∙ ap (strided i step)
              (sym (drop-drop (suc i) (step - 1 - i) xs) ∙ ap (λ d. drop d xs) (omega arith)))

whole_bytes : (n step : ℕ) (xs : List ℕ) → 0 < step → length xs ≡ n * step → length xs / step ≡ n
whole_bytes n step xs p h = ap (λ m. m / step) h ∙ mul-div_cancel n p

rest_bytes :
    (n step : ℕ) (xs : List ℕ) → length xs ≡ suc n * step → length (drop step xs) ≡ n * step
rest_bytes n step xs h = grind (arith, length-drop step xs, h)

module _ (bits step : ℕ) (p : 0 < step) where
  pack_columns-nil : (k : ℕ) → pack_columns bits step [] k ≡ []
  unfolding pack_columns or_shifted
  pack_columns-nil zero = ap (λ m. replicate m 0) (whole_bytes 0 step [] p (omega arith))
  pack_columns-nil (suc k) =
      ap (λ l. or_shifted (k * bits) l (strided k step [])) (pack_columns-nil k)

  pack_columns_step :
      (n : ℕ) (flat : List ℕ) (k : ℕ)
      → length flat ≡ suc n * step
      → k ≤ step
      → pack_columns bits step flat k
        ≡ joined bits flat k ∷ pack_columns bits step (drop step flat) k
  unfolding pack_columns or_shifted joined
  pack_columns_step n flat zero h le =
      rw
        (
          whole_bytes (suc n) step flat p h,
          whole_bytes n step (drop step flat) p (rest_bytes n step flat h),
        )
        refl
  pack_columns_step n flat (suc k) h le =
      let inside : k < length flat = grind (arith, h) in
      rw (pack_columns_step n flat k h (omega arith), strided_step k step flat (omega arith) inside)
        refl

length-digits : (bits byte k : ℕ) → length (digits bits byte k) ≡ k
unfolding digits
length-digits bits byte zero = refl
length-digits bits byte (suc k) = omega (
  arith,
  length-digits bits byte k,
  length-append (digits bits byte k) (byte / 2 ^ (k * bits) % 2 ^ bits ∷ []),
)

take-code_at :
    (k : ℕ) (xs : List ℕ) → k < length xs → take k xs ++ code_at k xs ∷ [] ≡ take (suc k) xs
take-code_at k [] h = absurd (omega arith)
take-code_at zero (x ∷ xs) h = refl
take-code_at (suc k) (x ∷ xs) h = ap (◌∷◌ x) (take-code_at k xs (omega arith))

-- The digits of a block's byte are its codes.
digits-value :
    (bits step : ℕ) (block : List ℕ) (k : ℕ)
    → k ≤ step
    → step ≤ length block
    → All (λ x. x < 2 ^ bits) block
    → digits bits (value bits block step) k ≡ take k block
unfolding digits
digits-value bits step block zero le inside fits = refl
digits-value bits step block (suc k) le inside fits =
    rw
      (
        digits-value bits step block k (omega arith) inside fits,
        digit-value bits block step k le fits,
      )
      (take-code_at k block (omega arith))

replicate-append : (a b x : ℕ) → replicate (a + b) x ≡ replicate a x ++ replicate b x
replicate-append zero b x = rw zero-add refl
replicate-append (suc a) b x = rw suc-add (ap (◌∷◌ x) (replicate-append a b x))

assign_skip :
    (pre : List ℕ) (skip step : ℕ) (ys rest : List ℕ)
    → assign_strided (length pre + skip) step ys (pre ++ rest)
      ≡ pre ++ assign_strided skip step ys rest
unfolding assign_strided
assign_skip [] skip step ys rest = rw zero-add refl
assign_skip (x ∷ pre) skip step ys rest =
    rw suc-add (ap (◌∷◌ x) (assign_skip pre skip step ys rest))

pub length-replicate : (n x : ℕ) → length (replicate n x) ≡ n
length-replicate zero x = refl
length-replicate (suc n) x = omega (arith, length-replicate n x)

-- The columns of a list that has a first byte: its digits so far, zeros up to the next byte, and the
-- columns of the other bytes.
module _ (bits step : ℕ) (small : bits ≤ 8) where
  unpack_columns_step :
      (byte : ℕ) (packed : List ℕ) (k : ℕ)
      → byte < 256
      → k ≤ step
      → unpack_columns bits step (byte ∷ packed) k
        ≡ digits bits byte k ++ (replicate (step - k) 0 ++ unpack_columns bits step packed k)
  unfolding unpack_columns unpack_column digits assign_strided
  unpack_columns_step byte packed zero h le =
      ap (λ n. replicate n 0) (grind arith)
      ∙ replicate-append step (length packed * step) 0
      ∙ ap (λ n. replicate n 0 ++ replicate (length packed * step) 0) (omega arith)
  unpack_columns_step byte packed (suc k) h le =
      let m = step - suc k in
      let before = digits bits byte k in
      let column = unpack_column (k * bits) (2 ^ bits - 1) packed in
      let digit = bit_and (byte / 2 ^ (k * bits)) (2 ^ bits - 1) in
      let rest = unpack_columns bits step packed k in
      let exact : digit ≡ byte / 2 ^ (k * bits) % 2 ^ bits =
        masked bits (byte / 2 ^ (k * bits)) small
          (reaches_down (div-le_self byte (2 ^ (k * bits))) h) in
      ap (assign_strided k step (digit ∷ column))
        (unpack_columns_step byte packed k h (omega arith))
      ∙ ap
          (λ n. assign_strided n step (digit ∷ column) (before ++ (replicate (step - k) 0 ++ rest)))
          (sym (add-zero k) ∙ ap (λ n. n + 0) (sym (length-digits bits byte k)))
      ∙ assign_skip before 0 step (digit ∷ column) (replicate (step - k) 0 ++ rest)
      ∙ ap (λ n. before ++ assign_strided 0 step (digit ∷ column) (replicate n 0 ++ rest))
          {y = suc m} (omega arith)
      ∙ ap (λ n. before ++ digit ∷ assign_strided n step column (replicate m 0 ++ rest))
          (omega (arith, length-replicate m 0))
      ∙ ap (λ l. before ++ digit ∷ l) (assign_skip (replicate m 0) k step column rest)
      ∙ ap (λ d. before ++ d ∷ (replicate m 0 ++ assign_strided k step column rest)) exact
      ∙ sym (
          append_assoc before (byte / 2 ^ (k * bits) % 2 ^ bits ∷ [])
            (replicate m 0 ++ assign_strided k step column rest))
    where
      reaches_down : {a b c : ℕ} → a ≤ b → b < c → a < c
      reaches_down l h = omega arith

  unpack_columns-nil : (k : ℕ) → unpack_columns bits step [] k ≡ []
  unfolding unpack_columns assign_strided
  unpack_columns-nil zero = ap (λ n. replicate n 0) {y = 0} (omega arith)
  unpack_columns-nil (suc k) = ap (assign_strided k step []) (unpack_columns-nil k)

pub All-drop : (b n : ℕ) (xs : List ℕ) → All (λ x. x < b) xs → All (λ x. x < b) (drop n xs)
All-drop b zero xs h = h
All-drop b (suc n) [] h = tt
All-drop b (suc n) (x ∷ xs) h = All-drop b n xs h.1

-- The columns of a whole number of bytes, taken apart again.
module _ (bits step : ℕ) (small : bits ≤ 8) (p : 0 < step) (fill : step * bits ≤ 8) where
  pub unpack-pack_columns :
      (n : ℕ) (flat : List ℕ)
      → length flat ≡ n * step
      → All (λ x. x < 2 ^ bits) flat
      → unpack_columns bits step (pack_columns bits step flat step) step ≡ flat
  unpack-pack_columns zero [] h fits =
      ap (λ l. unpack_columns bits step l step) (pack_columns-nil bits step p step)
      ∙ unpack_columns-nil bits step small step
  unpack-pack_columns zero (x ∷ flat) h fits = absurd (omega arith)
  unpack-pack_columns (suc n) flat h fits =
      let rest = pack_columns bits step (drop step flat) step in
      let inside : step ≤ length flat = grind (arith, h) in
      ap (λ l. unpack_columns bits step l step)
        (pack_columns_step bits step p n flat step h (omega arith)
          ∙ ap (λ b. b ∷ rest) (joined-value bits flat step fill fits))
      ∙ unpack_columns_step bits step small (value bits flat step) rest step
          (reaches (value-lt bits flat step fits) (pow-le-pow_right (omega arith) fill))
          (omega arith)
      ∙ ap (λ l. l ++ (replicate (step - step) 0 ++ unpack_columns bits step rest step))
          (digits-value bits step flat step (omega arith) inside fits)
      ∙ ap (λ m. take step flat ++ (replicate m 0 ++ unpack_columns bits step rest step)) {y = 0}
          (omega arith)
      ∙ ap (λ l. take step flat ++ l)
          (unpack-pack_columns n (drop step flat) (rest_bytes n step flat h)
            (All-drop (2 ^ bits) step flat fits))
      ∙ take-append-drop step flat

  pub length-pack_columns :
      (n : ℕ) (flat : List ℕ)
      → length flat ≡ n * step
      → length (pack_columns bits step flat step) ≡ n
  length-pack_columns zero [] h = ap length (pack_columns-nil bits step p step)
  length-pack_columns zero (x ∷ flat) h = absurd (omega arith)
  length-pack_columns (suc n) flat h =
      ap length (pack_columns_step bits step p n flat step h (omega arith))
      ∙ ap suc (length-pack_columns n (drop step flat) (rest_bytes n step flat h))
