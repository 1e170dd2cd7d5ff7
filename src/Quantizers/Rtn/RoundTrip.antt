-- ===== src/Quantizers/Rtn/RoundTrip.antt =====
-- `_unpack_tensor` is the inverse of `_pack_tensor`, and what the widths do that it cannot pack.
use mathlib.Core.List.{append-nil}
use native.Mathlib.Nat.{mod-lt, div-add-mod', div-eq_of_lt, add-mul-div_right}
use pocket_titan.Prelude.{
  ℕ, zero, suc, ◌+◌, ◌-◌, ◌*◌, ◌/◌, ◌%◌, ◌^◌, ◌≤◌, ◌<◌, ◌≡◌, refl, sym, ap, ◌∙◌, false, Bool-cases,
  inl, inr, ◌||◌, List, [], ◌∷◌, ◌++◌, leb, ◌==◌, if◌then◌else◌, length, length-append, ltb, ◌&&◌,
  ◌⊎◌, ==_refl, length-take, replicate, prod, All, ok, err, value_error, zero_division,
  runtime_error, arith, take-append_self,
}
use pocket_titan.Format.Align.{packed_bytes, storage_bits}
use pocket_titan.Prelude.Ceil.{ceil_div, ceil_div_exact}
use pocket_titan.Quantizers.Rtn.{
  vals_per_byte, pad_flat, pack_columns, pack_tensor, unpack_columns, view_as, unpack_tensor,
}
use pocket_titan.Quantizers.Rtn.Digits.{pow_pos}
use pocket_titan.Quantizers.Rtn.Columns.{length-replicate, unpack-pack_columns, length-pack_columns}

-- The number of codes in a byte of `bits` from 1 to 8, the place that each takes, and the bytes that
-- the package format reserves.
record Density (bits step : ℕ) : Type 0 where
  counted : vals_per_byte bits ≡ ok step
  positive : 0 < step
  fill : step * bits ≤ 8
  reserved : (count : ℕ) → packed_bytes count bits ≡ (count + step - 1) / step

density : (bits : ℕ) → 0 < bits → bits ≤ 8 → (step : ℕ) × Density bits step
unfolding vals_per_byte packed_bytes storage_bits ceil_div
density zero p q = absurd (omega arith)
density (suc zero) p q = (
  8,
  record {
    counted = refl;
    positive = omega arith;
    fill = omega arith;
    reserved = λ count. omega arith;
  },
)
density (suc (suc zero)) p q = (
  4,
  record {
    counted = refl;
    positive = omega arith;
    fill = omega arith;
    reserved = λ count. omega arith;
  },
)
density (suc (suc (suc zero))) p q = (
  2,
  record {
    counted = refl;
    positive = omega arith;
    fill = omega arith;
    reserved = λ count. omega arith;
  },
)
density (suc (suc (suc (suc zero)))) p q = (
  2,
  record {
    counted = refl;
    positive = omega arith;
    fill = omega arith;
    reserved = λ count. omega arith;
  },
)
density (suc (suc (suc (suc (suc zero))))) p q = (
  1,
  record {
    counted = refl;
    positive = omega arith;
    fill = omega arith;
    reserved = λ count. omega arith;
  },
)
density (suc (suc (suc (suc (suc (suc zero)))))) p q = (
  1,
  record {
    counted = refl;
    positive = omega arith;
    fill = omega arith;
    reserved = λ count. omega arith;
  },
)
density (suc (suc (suc (suc (suc (suc (suc zero))))))) p q = (
  1,
  record {
    counted = refl;
    positive = omega arith;
    fill = omega arith;
    reserved = λ count. omega arith;
  },
)
density (suc (suc (suc (suc (suc (suc (suc (suc zero)))))))) p q = (
  1,
  record {
    counted = refl;
    positive = omega arith;
    fill = omega arith;
    reserved = λ count. omega arith;
  },
)
density (suc (suc (suc (suc (suc (suc (suc (suc (suc n))))))))) p q = absurd (omega arith)

rounds_up :
    (n step : ℕ) → 0 < step → 0 < n % step → n + (step - n % step) ≡ (n + step - 1) / step * step
rounds_up n step p r =
    let q = n / step in
    let whole : n + step - 1 ≡ (n % step - 1) + (q + 1) * step =
      omega (arith, div-add-mod' n step) in
    let small : (n % step - 1) / step ≡ 0 = div-eq_of_lt (omega (arith, mod-lt n p)) in
    rw (whole, add-mul-div_right (n % step - 1) (q + 1) p, small)
      (omega (arith, div-add-mod' n step, mod-lt n p))

-- What padding gives: a whole number of bytes, which begins with the codes and is filled with zeros.
pad_flat-whole :
    (step : ℕ) (codes : List ℕ)
    → 0 < step
    → (fill : ℕ) × (pad_flat step codes ≡ ok (codes ++ replicate fill 0))
      × (length codes + fill ≡ (length codes + step - 1) / step * step)
unfolding pad_flat ceil_div
pad_flat-whole step codes p = elim (Bool-cases (length codes % step == 0)) [
  | inl exact ↦
      let zero_rest : length codes % step ≡ 0 = ground arith in
      (
        0,
        rw (ne0, exact) (ap ok (sym (append-nil codes))),
        omega (arith, sym (ceil_div_exact (length codes) step p zero_rest)),
      )
  | inr part ↦
      let rest : 0 < length codes % step = ground arith in
      (step - length codes % step, rw (ne0, part) refl, rounds_up (length codes) step p rest)
]
  where
    ne0 : (step == 0) ≡ false
    ne0 = ground arith

All-append_zeros :
    (b : ℕ) (xs : List ℕ) (n : ℕ)
    → 0 < b
    → All (λ x. x < b) xs
    → All (λ x. x < b) (xs ++ replicate n 0)
All-append_zeros b [] zero p h = tt
All-append_zeros b [] (suc n) p h = (p, All-append_zeros b [] n p h)
All-append_zeros b (x ∷ xs) n p h = (h.0, All-append_zeros b xs n p h.1)

view_as-front :
    (codes rest shape : List ℕ)
    → prod shape ≡ length codes
    → view_as (codes ++ rest) shape ≡ ok codes
unfolding view_as
view_as-front codes rest shape e = rw (e, take-append_self codes rest, ==_refl (length codes)) refl

-- Codes that fit their width, from 1 to 8 bits, are packed into exactly the bytes that the package
-- format reserves for them, and unpacking these into a shape of as many elements gives the codes back.
pub unpack_tensor-pack_tensor :
    (bits : ℕ) (codes shape : List ℕ)
    → 0 < bits
    → bits ≤ 8
    → All (λ x. x < 2 ^ bits) codes
    → prod shape ≡ length codes
    → (packed : List ℕ) × (pack_tensor codes bits ≡ ok packed)
      × (length packed ≡ packed_bytes (length codes) bits)
      × (unpack_tensor packed bits shape ≡ ok codes)
unfolding pack_tensor unpack_tensor
unpack_tensor-pack_tensor bits codes shape p q fits e =
    let (step, d) = density bits p q in
    let (fill, padded, whole) = pad_flat-whole step codes d.positive in
    let flat = codes ++ replicate fill 0 in
    let n = (length codes + step - 1) / step in
    let sized : length flat ≡ n * step =
      length-append codes (replicate fill 0)
      ∙ ap (λ m. length codes + m) (length-replicate fill 0)
      ∙ whole in
    let small : leb 16 bits || leb bits 0 ≡ false = ground arith in
    let good = All-append_zeros (2 ^ bits) codes fill (pow_pos bits) fits in
    (
      pack_columns bits step flat step,
      rw (small, d.counted, padded) refl,
      length-pack_columns bits step q d.positive d.fill n flat sized
          ∙ sym (d.reserved (length codes)),
      rw (d.counted, unpack-pack_columns bits step q d.positive d.fill n flat sized good)
          (view_as-front codes (replicate fill 0) shape e),
    )

-- The widths that cannot be packed: the packer refuses widths of 0 and of 16 and more with its own
-- error, but from 9 to 15 bits, where no code fits a byte, it divides by zero; the unpacker divides
-- by zero at 0 and cannot view its empty result as a shape of any elements above 8 bits.
pub pack_tensor-unpackable :
    (bits : ℕ) (tensor shape : List ℕ)
    → (bits ≡ 0) ⊎ (8 < bits)
    → (pack_tensor tensor bits
        ≡ err (if ltb 8 bits && ltb bits 16 then zero_division else value_error))
      × (0 < prod shape
          → unpack_tensor tensor bits shape
            ≡ err (if bits == 0 then zero_division else runtime_error))
unfolding pack_tensor unpack_tensor vals_per_byte pad_flat unpack_columns view_as
pack_tensor-unpackable bits tensor shape (inl nothing) = rw nothing (refl, λ some. refl)
pack_tensor-unpackable bits tensor shape (inr wide) =
    let no_room : 8 / bits ≡ 0 = div-eq_of_lt wide in
    (ground (arith, no_room), λ some. unviewable no_room some (ground arith))
  where
    unviewable :
        8 / bits ≡ 0
        → 0 < prod shape
        → (bits == 0) ≡ false
        → unpack_tensor tensor bits shape ≡ err (if bits == 0 then zero_division else runtime_error)
    unviewable no_room some e =
        rw (e, no_room)
          (ground (
            arith,
            length-take {A = ℕ} (prod shape) (replicate (length tensor * 0) 0),
            length-replicate (length tensor * 0) 0,
          ))
