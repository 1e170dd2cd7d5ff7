-- ===== src/Prelude/Dict.antt =====
-- Python's `OrderedDict` (and `dict`) as the list of its entries, oldest first. Keys have decidable
-- equality. No key stands twice (`IsUnique`), so dropping a key drops every entry that has it.
use mathlib.Core.Logic.{ite, if_pos, if_neg}
use Prim.Native.Nat.{suc, ◌≤◌, ◌<◌}
use mathlib.Core.Path.{◌≡◌, refl}
use mathlib.Core.Bool.{Bool, true, false}
use mathlib.Core.List.{List, [], ◌∷◌, ◌++◌}
use mathlib.Core.Option.{Option, none, some}
use native.Mathlib.Omega.{arith}
use pocket_titan.Prelude.Lists.{length, length-append}

-- A type, so that clients need not write the list.
abbrev pub Dict {ℓ} : Type ℓ → Type ℓ → Type ℓ
Dict K V = List (K × V)

module _ {ℓ} {V : Type ℓ} where
  abbrev pub is_some : Option V → Bool
  is_some (some v) = true
  is_some none = false

  abbrev pub or_else : Option V → Option V → Option V
  or_else (some v) o = some v
  or_else none o = o

module _ {ℓ} {K V : Type ℓ} (dec : Discrete K) where
  -- `d.get(k)`; `k in d` is `is_some` of it.
  unfoldable pub get : K → Dict K V → Option V
  get k [] = none
  get k ((j, v) ∷ d) = ite (dec j k) (some v) (get k d)

  -- `d[k] = v`: in place, or a new entry at the end.
  unfoldable pub set : K → V → Dict K V → Dict K V
  set k v [] = (k, v) ∷ []
  set k v ((j, w) ∷ d) = ite (dec j k) ((j, v) ∷ d) ((j, w) ∷ set k v d)

  -- `del d[k]`, `d.pop(k)`
  unfoldable pub remove : K → Dict K V → Dict K V
  remove k [] = []
  remove k ((j, v) ∷ d) = let rest = remove k d in ite (dec j k) rest ((j, v) ∷ rest)

  -- `d.move_to_end(k)` for a key that has the value `v`
  abbrev pub move_to_end : K → V → Dict K V → Dict K V
  move_to_end k v d = remove k d ++ (k, v) ∷ []

  abbrev pub IsUnique : Dict K V → Type ℓ
  IsUnique [] = Unit
  IsUnique ((k, v) ∷ d) = (get k d ≡ none) × IsUnique d

  pub get-set :
      (k j : K) (v : V) (d : Dict K V) → get j (set k v d) ≡ ite (dec k j) (some v) (get j d)
  unfolding get set
  get-set k j v [] = refl
  get-set k j v ((i, w) ∷ d) = ground (arith, get-set k j v d)

  pub get-remove : (k j : K) (d : Dict K V) → get j (remove k d) ≡ ite (dec k j) none (get j d)
  unfolding get remove
  get-remove k j [] = ground arith
  get-remove k j ((i, w) ∷ d) = ground (arith, get-remove k j d)

  pub get-append : (j : K) (d e : Dict K V) → get j (d ++ e) ≡ or_else (get j d) (get j e)
  unfolding get
  get-append j [] e = refl
  get-append j ((i, w) ∷ d) e = ground (arith, get-append j d e)

  pub get-move_to_end :
      (k j : K) (v : V) (d : Dict K V)
      → get j (move_to_end k v d) ≡ ite (dec k j) (some v) (get j d)
  unfolding get
  get-move_to_end k j v d =
      ground (arith, get-append j (remove k d) ((k, v) ∷ []), get-remove k j d)

  pub set-IsUnique : (k : K) (v : V) (d : Dict K V) → IsUnique d → IsUnique (set k v d)
  unfolding get set
  set-IsUnique k v [] h = (refl, tt)
  set-IsUnique k v ((j, w) ∷ d) h = elim (dec j k) [
    | yes same ↦ rw (if_pos _ same) h
    | no other ↦ rw (if_neg _ other) (ground (arith, get-set k j v d), set-IsUnique k v d h.1)
  ]

  pub remove-IsUnique : (k : K) (d : Dict K V) → IsUnique d → IsUnique (remove k d)
  unfolding remove
  remove-IsUnique k [] h = tt
  remove-IsUnique k ((j, w) ∷ d) h = elim (dec j k) [
    | yes same ↦ rw (if_pos _ same) (remove-IsUnique k d h.1)
    | no other ↦ rw (if_neg _ other) (ground (arith, get-remove k j d), remove-IsUnique k d h.1)
  ]

  -- A key that is absent is appended, and dropping it changes nothing.
  pub set_absent : (k : K) (v : V) (d : Dict K V) → get k d ≡ none → set k v d ≡ d ++ (k, v) ∷ []
  unfolding get set
  set_absent k v [] h = refl
  set_absent k v ((j, w) ∷ d) h = ground (arith, set_absent k v d)

  pub remove_absent : (k : K) (d : Dict K V) → get k d ≡ none → remove k d ≡ d
  unfolding get remove
  remove_absent k [] h = refl
  remove_absent k ((j, w) ∷ d) h = ground (arith, remove_absent k d)

  pub length-set_absent :
      (k : K) (v : V) (d : Dict K V) → get k d ≡ none → length (set k v d) ≡ suc (length d)
  unfolding get set
  length-set_absent k v [] h = refl
  length-set_absent k v ((j, w) ∷ d) h = ground (arith, length-set_absent k v d)

  pub length-set_present :
      (k : K) (v w : V) (d : Dict K V) → get k d ≡ some w → length (set k v d) ≡ length d
  unfolding get set
  length-set_present k v w [] h = cc
  length-set_present k v w ((j, x) ∷ d) h = ground (arith, length-set_present k v w d)

  pub length-remove :
      (k : K) (w : V) (d : Dict K V)
      → IsUnique d
      → get k d ≡ some w
      → suc (length (remove k d)) ≡ length d
  unfolding get remove
  length-remove k w [] u h = cc
  length-remove k w ((j, x) ∷ d) u h = ground (arith, length-remove k w d u.1, remove_absent k d)

  pub append-IsUnique :
      (k : K) (v : V) (d : Dict K V) → get k d ≡ none → IsUnique d → IsUnique (d ++ (k, v) ∷ [])
  append-IsUnique k v d h u = rw (← set_absent k v d h) (set-IsUnique k v d u)

  pub get-remove_self : (k : K) (d : Dict K V) → get k (remove k d) ≡ none
  get-remove_self k d = ground (arith, get-remove k k d)

  pub move_to_end-IsUnique :
      (k : K) (v : V) (d : Dict K V) → IsUnique d → IsUnique (move_to_end k v d)
  move_to_end-IsUnique k v d u =
      append-IsUnique k v (remove k d) (get-remove_self k d) (remove-IsUnique k d u)

  pub length-move_to_end :
      (k : K) (v w : V) (d : Dict K V)
      → IsUnique d
      → get k d ≡ some w
      → length (move_to_end k v d) ≡ length d
  length-move_to_end k v w d u h =
      omega (arith, length-append (remove k d) ((k, v) ∷ []), length-remove k w d u h)

  -- Bounds that need no uniqueness.
  pub length-set_le : (k : K) (v : V) (d : Dict K V) → length (set k v d) ≤ suc (length d)
  unfolding set
  length-set_le k v [] = omega arith
  length-set_le k v ((j, w) ∷ d) = ground (arith, length-set_le k v d)

  pub length-remove_le : (k : K) (d : Dict K V) → length (remove k d) ≤ length d
  unfolding remove
  length-remove_le k [] = omega arith
  length-remove_le k ((j, w) ∷ d) = ground (arith, length-remove_le k d)

  pub length-remove_hit :
      (k : K) (w : V) (d : Dict K V) → get k d ≡ some w → length (remove k d) < length d
  unfolding get remove
  length-remove_hit k w [] h = cc
  length-remove_hit k w ((j, x) ∷ d) h =
      ground (arith, length-remove_hit k w d, length-remove_le k d)

  pub length-move_to_end_le :
      (k : K) (v w : V) (d : Dict K V) → get k d ≡ some w → length (move_to_end k v d) ≤ length d
  length-move_to_end_le k v w d h =
      omega (arith, length-append (remove k d) ((k, v) ∷ []), length-remove_hit k w d h)

  pub get-set_self : (k : K) (v : V) (d : Dict K V) → get k (set k v d) ≡ some v
  get-set_self k v d = ground (arith, get-set k k v d)

  pub get-move_to_end_self : (k : K) (v : V) (d : Dict K V) → get k (move_to_end k v d) ≡ some v
  get-move_to_end_self k v d = ground (arith, get-move_to_end k k v d)
