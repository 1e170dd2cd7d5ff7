-- ===== src/Tests/Rtn.antt =====
-- Five codes of three bits, two in a byte.
use pocket_titan.Prelude.{
  ℕ, ◌≡◌, refl, List, [], ◌∷◌, ok, err, All, ◌^◌, ◌<◌, arith, length, inr, zero_division,
  runtime_error,
}
use pocket_titan.Format.Align.{packed_bytes}
use pocket_titan.Quantizers.Rtn.{pack_tensor, unpack_tensor}
use pocket_titan.Quantizers.Rtn.RoundTrip.{unpack_tensor-pack_tensor, pack_tensor-unpackable}

abbrev codes : List ℕ
codes = 5 ∷ 7 ∷ 0 ∷ 6 ∷ 3 ∷ []

program : Unit {0}
unfolding pack_tensor unpack_tensor
program = tt

packed_codes : pack_tensor codes 3 ≡ ok (61 ∷ 48 ∷ 3 ∷ [])
unfolding program
packed_codes = refl

unpacked_codes : unpack_tensor (61 ∷ 48 ∷ 3 ∷ []) 3 (5 ∷ []) ≡ ok codes
unfolding program
unpacked_codes = refl

All-small : All (λ x. x < 2 ^ 3) codes
All-small = (omega arith, (omega arith, (omega arith, (omega arith, (omega arith, tt)))))

unpack_tensor-pack_tensor_example :
    (packed : List ℕ) × (pack_tensor codes 3 ≡ ok packed)
    × (length packed ≡ packed_bytes 5 3)
    × (unpack_tensor packed 3 (1 ∷ 5 ∷ []) ≡ ok codes)
unpack_tensor-pack_tensor_example =
    unpack_tensor-pack_tensor 3 codes (1 ∷ 5 ∷ []) (omega arith) (omega arith) All-small refl

pack_tensor-unpackable_example :
    (pack_tensor codes 12 ≡ err zero_division)
    × (0 < 5 → unpack_tensor codes 12 (5 ∷ []) ≡ err runtime_error)
pack_tensor-unpackable_example = pack_tensor-unpackable 12 codes (5 ∷ []) (inr (omega arith))
