-- ===== src/Format/Bank.antt =====
-- `ExpertRecordEntry` and `ExpertLayout`: the index over the expert bank, (layer, expert) to record.
-- An expert index of the caller is a natural number, so `0 <= expert` holds.
pub mod Disjoint
use pocket_titan.Prelude.{
  ℕ, suc, ◌+◌, ◌*◌, Option, none, some, List, [], ◌∷◌, ◌&&◌, ◌==◌, ltb, if◌then◌else◌, length,
  Result, ok, err, key_error, ◌>>=◌, ◌>>◌, guard, or_raise,
}
use pocket_titan.Format.Record.{ExpertRecordLayout, record_offset}

pub record ExpertRecordEntry : Type 0 where
  pub record_index : ℕ
  pub layer : ℕ
  pub expert : ℕ
  pub byte_offset : ℕ

pub record ExpertLayout : Type 0 where
  pub num_layers : ℕ
  pub num_experts : ℕ
  pub layers : List ℕ
  pub geometry : ExpertRecordLayout
  pub records : List ExpertRecordEntry

unfoldable pub num_records : ExpertLayout → ℕ
num_records l = elim l.records [ [] ↦ length l.layers * l.num_experts | r ∷ rs ↦ length (r ∷ rs) ]

unfoldable pub total_bytes : ExpertLayout → ℕ
unfolding num_records
total_bytes l = num_records l * l.geometry.stride

-- `self.layers.index(layer)`
unfoldable pub index_of : ℕ → List ℕ → Option ℕ
index_of layer [] = none
index_of layer (x ∷ xs) =
    let later : Option ℕ = elim (index_of layer xs) [ none ↦ none | some i ↦ some (suc i) ] in
    if x == layer then some 0 else later

-- The scan of the sparse mapping.
unfoldable pub find_record : List ExpertRecordEntry → ℕ → ℕ → Option ℕ
find_record [] layer expert = none
find_record (entry ∷ entries) layer expert =
    if entry.layer == layer && entry.expert == expert
    then some entry.record_index
    else find_record entries layer expert

unfoldable pub full_index : ExpertLayout → ℕ → ℕ → Result ℕ
unfolding index_of
full_index l layer expert = do
  position ← or_raise (index_of layer l.layers) key_error
  guard (ltb expert l.num_experts) key_error
  ok (position * l.num_experts + expert)

unfoldable pub record_index : ExpertLayout → ℕ → ℕ → Result ℕ
unfolding find_record full_index
record_index l layer expert = elim l.records [
  | [] ↦ full_index l layer expert
  | r ∷ rs ↦ or_raise (find_record (r ∷ rs) layer expert) key_error
]

unfoldable pub byte_range : ExpertLayout → ℕ → ℕ → Result (ℕ × ℕ)
unfolding record_index record_offset
byte_range l layer expert = do
  i ← record_index l layer expert
  ok (record_offset l.geometry i, l.geometry.payload_bytes)
