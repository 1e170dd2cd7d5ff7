-- ===== src/Package/Writer/Bytes.antt =====
-- A file as the list of its bytes: what `seek` and `write` change, and what they leave.
use native.Mathlib.Nat.{zero-add, suc-add}
use pocket_titan.Prelude.{
  ℕ, zero, suc, ◌+◌, ◌-◌, ◌≤◌, ◌<◌, ◌≡◌, refl, ap, ◌∙◌, ◌⊎◌, inl, inr, Bool-cases, ltb,
  if◌then◌else◌, some, List, [], ◌∷◌, ◌++◌, length, length-append, length-take, take, drop,
  replicate, get_elem?, arith,
}

-- `f.truncate(size)` if the file is shorter.
unfoldable pub extend : ℕ → List ℕ → List ℕ
extend size file = if ltb (length file) size then file ++ replicate (size - length file) 0 else file

-- `f.seek(offset)` and `f.write(payload)`: a gap behind the end is filled with zeros.
unfoldable pub write_at : ℕ → List ℕ → List ℕ → List ℕ
unfolding extend
write_at offset payload file =
    take offset (extend offset file) ++ (payload ++ drop (offset + length payload) file)

get_elem?-append_left :
    (xs ys : List ℕ) (i : ℕ) → i < length xs → get_elem? (xs ++ ys) i ≡ get_elem? xs i
get_elem?-append_left [] ys i h = absurd (omega arith)
get_elem?-append_left (x ∷ xs) ys zero h = refl
get_elem?-append_left (x ∷ xs) ys (suc i) h = get_elem?-append_left xs ys i (omega arith)

get_elem?-append_right :
    (xs ys : List ℕ) (i : ℕ) → get_elem? (xs ++ ys) (length xs + i) ≡ get_elem? ys i
get_elem?-append_right [] ys i = rw zero-add refl
get_elem?-append_right (x ∷ xs) ys i = rw suc-add (get_elem?-append_right xs ys i)

get_elem?-take : (n : ℕ) (xs : List ℕ) (i : ℕ) → i < n → get_elem? (take n xs) i ≡ get_elem? xs i
get_elem?-take zero xs i h = absurd (omega arith)
get_elem?-take (suc n) [] i h = refl
get_elem?-take (suc n) (x ∷ xs) zero h = refl
get_elem?-take (suc n) (x ∷ xs) (suc i) h = get_elem?-take n xs i (omega arith)

get_elem?-drop : (n : ℕ) (xs : List ℕ) (i : ℕ) → get_elem? (drop n xs) i ≡ get_elem? xs (n + i)
get_elem?-drop zero xs i = rw zero-add refl
get_elem?-drop (suc n) [] i = refl
get_elem?-drop (suc n) (x ∷ xs) i = rw suc-add (get_elem?-drop n xs i)

get_elem?-lt : (xs : List ℕ) (i : ℕ) {x : ℕ} → get_elem? xs i ≡ some x → i < length xs
get_elem?-lt [] i h = cc
get_elem?-lt (y ∷ xs) zero h = omega arith
get_elem?-lt (y ∷ xs) (suc i) h = omega (arith, get_elem?-lt xs i h)

length-replicate : (n x : ℕ) → length (replicate n x) ≡ n
length-replicate zero x = refl
length-replicate (suc n) x = omega (arith, length-replicate n x)

length-extend : (size : ℕ) (file : List ℕ) → size ≤ length (extend size file)
unfolding extend
length-extend size file = elim (Bool-cases (ltb (length file) size)) [
  | inl short ↦ rw short (
      omega (
        arith,
        length-append file (replicate (size - length file) 0),
        length-replicate (size - length file) 0,
      ))
  | inr long ↦ rw long (ground arith)
]

-- A byte that is in the file stays where it is.
pub get_elem?-extend :
    (size : ℕ) (file : List ℕ) (i : ℕ) {x : ℕ}
    → get_elem? file i ≡ some x
    → get_elem? (extend size file) i ≡ some x
unfolding extend
get_elem?-extend size file i h = elim (Bool-cases (ltb (length file) size)) [
  | inl short ↦
      rw short (
        get_elem?-append_left file (replicate (size - length file) 0) i (get_elem?-lt file i h) ∙ h)
  | inr long ↦ rw long h
]

front_length : (offset : ℕ) (file : List ℕ) → length (take offset (extend offset file)) ≡ offset
front_length offset file =
    omega (arith, length-take offset (extend offset file), length-extend offset file)

-- Outside the range that is written, a byte stays.
pub get_elem?-write_at :
    (offset : ℕ) (payload file : List ℕ) (i : ℕ) {x : ℕ}
    → get_elem? file i ≡ some x
    → (i < offset) ⊎ (offset + length payload ≤ i)
    → get_elem? (write_at offset payload file) i ≡ some x
unfolding write_at
get_elem?-write_at offset payload file i h (inl before) =
    let front = take offset (extend offset file) in
    get_elem?-append_left front _ i (omega (arith, front_length offset file))
    ∙ get_elem?-take offset (extend offset file) i before
    ∙ get_elem?-extend offset file i h
get_elem?-write_at offset payload file i h (inr behind) =
    let front = take offset (extend offset file) in
    let back = drop (offset + length payload) file in
    let k = i - offset - length payload in
    ap (get_elem? (front ++ (payload ++ back))) (omega (arith, front_length offset file))
    ∙ get_elem?-append_right front (payload ++ back) (length payload + k)
    ∙ get_elem?-append_right payload back k
    ∙ get_elem?-drop (offset + length payload) file k
    ∙ ap (get_elem? file) {y = i} (omega arith)
    ∙ h

-- The range that is written holds the payload.
pub get_elem?-write_at_payload :
    (offset : ℕ) (payload file : List ℕ) (k : ℕ)
    → k < length payload
    → get_elem? (write_at offset payload file) (offset + k) ≡ get_elem? payload k
unfolding write_at
get_elem?-write_at_payload offset payload file k h =
    let front = take offset (extend offset file) in
    let back = drop (offset + length payload) file in
    ap (get_elem? (front ++ (payload ++ back))) {y = length front + k}
      (omega (arith, front_length offset file))
    ∙ get_elem?-append_right front (payload ++ back) k
    ∙ get_elem?-append_left payload back k h
