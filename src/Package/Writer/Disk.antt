-- ===== src/Package/Writer/Disk.antt =====
-- What the effects of a build leave on the disk, and what a crash may leave. A flushed file is as it was
-- written; of what was written since, a crash may lose any part or leave anything in its place. The
-- journal is replaced as a whole, so a crash leaves the old one or the new one.
use pocket_titan.Prelude.{
  ℕ, ◌+◌, ◌≤◌, ◌<◌, ◌≡◌, refl, sym, ◌∙◌, ◌⊎◌, inl, inr, Bool, true, false, if◌then◌else◌, Option,
  some, List, [], ◌∷◌, ◌++◌, map, length, get_elem?, get_elem?-some, All, arith, subst,
}
use pocket_titan.Package.Journal.{BuildJournal}
use pocket_titan.Package.Effects.{
  Region, dense, experts, ple, Effect, allocated, wrote, synced, saved,
}
use pocket_titan.Package.Writer.Bytes.{
  extend, write_at, get_elem?-extend, get_elem?-write_at, get_elem?-write_at_payload,
}

-- A write that has not been flushed, or the growth of the file.
pub data Change : Type 0 where
  put : ℕ → List ℕ → Change
  grow : ℕ → Change

abbrev pub change : Change → List ℕ → List ℕ
change (put offset payload) file = write_at offset payload file
change (grow size) file = extend size file

abbrev pub settle : List Change → List ℕ → List ℕ
settle [] file = file
settle (c ∷ changes) file = settle changes (change c file)

pub record Disk : Type 0 where
  pub files : Region → List ℕ
  pub unsynced : Region → List Change
  pub journal : Option BuildJournal

abbrev pub same_region : Region → Region → Bool
same_region dense dense = true
same_region experts experts = true
same_region ple ple = true
same_region _ _ = false

abbrev pub at_region : {A : Type 0} → Region → A → (Region → A) → Region → A
at_region region a f r = if same_region region r then a else f r

abbrev pub add_change : Region → Change → Disk → Disk
add_change region c d = record d {
  unsynced = at_region region (d.unsynced region ++ c ∷ []) d.unsynced;
}

abbrev pub apply_effect : Effect → Disk → Disk
apply_effect (allocated region size) d = add_change region (grow size) d
apply_effect (wrote region offset payload) d = add_change region (put offset payload) d
apply_effect (synced region) d = record d {
  files = at_region region (settle (d.unsynced region) (d.files region)) d.files;
  unsynced = at_region region [] d.unsynced;
}
apply_effect (saved journal) d = record d { journal = some journal }

abbrev pub run : List Effect → Disk → Disk
run [] d = d
run (e ∷ effects) d = run effects (apply_effect e d)

-- What a crash may make of one unflushed change.
abbrev pub Torn : List ℕ → Change → List ℕ → Type 0
Torn file (put offset payload) after =
    (after ≡ file)
    ⊎ ((garbage : List ℕ) × (length garbage ≡ length payload)
        × (after ≡ write_at offset garbage file))
Torn file (grow size) after = (after ≡ file) ⊎ (after ≡ extend size file)

abbrev pub Survives : List ℕ → List Change → List ℕ → Type 0
Survives file [] after = after ≡ file
Survives file (c ∷ changes) after =
    (between : List ℕ) × Torn file c between × Survives between changes after

pub record Crashed (d after : Disk) : Type 0 where
  pub files : (r : Region) → Survives (d.files r) (d.unsynced r) (after.files r)
  pub unsynced : (r : Region) → after.unsynced r ≡ []
  pub journal : after.journal ≡ d.journal

-- The file has the payload at its offset.
abbrev pub Held : List ℕ → ℕ × List ℕ → Type 0
Held file (offset, payload) =
    (k : ℕ) → k < length payload → get_elem? file (offset + k) ≡ get_elem? payload k

-- Two writes that do not overlap.
abbrev pub Away : ℕ × List ℕ → ℕ × List ℕ → Type 0
Away (a, p) (b, q) = (a + length p ≤ b) ⊎ (b + length q ≤ a)

abbrev pub Clear : Change → ℕ × List ℕ → Type 0
Clear (put offset payload) w = Away (offset, payload) w
Clear (grow size) w = Unit

-- A byte outside a write of the same length as a clear one.
outside :
    (offset : ℕ) (payload : List ℕ) (n : ℕ) (w : ℕ × List ℕ) (k : ℕ)
    → n ≡ length payload
    → Away (offset, payload) w
    → k < length w.1
    → (w.0 + k < offset) ⊎ (offset + n ≤ w.0 + k)
outside offset payload n w k same (inl behind) h = inr (omega arith)
outside offset payload n w k same (inr before) h = inl (omega arith)

kept_byte :
    (offset : ℕ) (garbage file : List ℕ) (w : ℕ × List ℕ) (k : ℕ)
    → Held file w
    → k < length w.1
    → (w.0 + k < offset) ⊎ (offset + length garbage ≤ w.0 + k)
    → get_elem? (write_at offset garbage file) (w.0 + k) ≡ get_elem? w.1 k
kept_byte offset garbage file w k held h away =
    let (x, e) = get_elem?-some w.1 k h in
    get_elem?-write_at offset garbage file (w.0 + k) (held k h ∙ e) away ∙ sym e

grown_byte : (size : ℕ) (file : List ℕ) (w : ℕ × List ℕ) → Held file w → Held (extend size file) w
grown_byte size file w held k h =
    let (x, e) = get_elem?-some w.1 k h in
    get_elem?-extend size file (w.0 + k) (held k h ∙ e) ∙ sym e

pub Held-change :
    (c : Change) (file : List ℕ) (w : ℕ × List ℕ) → Held file w → Clear c w → Held (change c file) w
Held-change (put offset payload) file w held away = λ k h.
    kept_byte offset payload file w k held h
      (outside offset payload (length payload) w k refl away h)
Held-change (grow size) file w held away = grown_byte size file w held

pub Held-settle :
    (changes : List Change) (file : List ℕ) (w : ℕ × List ℕ)
    → Held file w
    → All (λ c. Clear c w) changes
    → Held (settle changes file) w
Held-settle [] file w held away = held
Held-settle (c ∷ changes) file w held away =
    Held-settle changes (change c file) w (Held-change c file w held away.0) away.1

Held-Torn :
    (c : Change) (file after : List ℕ) (w : ℕ × List ℕ)
    → Held file w
    → Clear c w
    → Torn file c after
    → Held after w
Held-Torn (put offset payload) file after w held away (inl lost) =
    subst (λ f. Held f w) (sym lost) held
Held-Torn (put offset payload) file after w held away (inr (garbage, same, e)) =
    subst (λ f. Held f w) (sym e)
      (λ k h.
        kept_byte offset garbage file w k held h
          (outside offset payload (length garbage) w k same away h))
Held-Torn (grow size) file after w held away (inl lost) = subst (λ f. Held f w) (sym lost) held
Held-Torn (grow size) file after w held away (inr e) =
    subst (λ f. Held f w) (sym e) (grown_byte size file w held)

-- Whatever a crash does to unflushed changes that are clear of a write, the write is still held.
pub Held-Survives :
    (changes : List Change) (file after : List ℕ) (w : ℕ × List ℕ)
    → Held file w
    → All (λ c. Clear c w) changes
    → Survives file changes after
    → Held after w
Held-Survives [] file after w held away e = subst (λ f. Held f w) (sym e) held
Held-Survives (c ∷ changes) file after w held away (between, torn, later) =
    Held-Survives changes between after w (Held-Torn c file between w held away.0 torn) away.1 later

pub settle-append :
    (first second : List Change) (file : List ℕ)
    → settle (first ++ second) file ≡ settle second (settle first file)
settle-append [] second file = refl
settle-append (c ∷ first) second file = settle-append first second (change c file)

abbrev pub Pairwise : {A : Type 0} → (A → A → Type 0) → List A → Type 0
Pairwise R [] = Unit
Pairwise R (x ∷ xs) = All (R x) xs × Pairwise R xs

abbrev pub puts : List (ℕ × List ℕ) → List Change
puts writes = map (λ w. put w.0 w.1) writes

pub Away-sym : (v w : ℕ × List ℕ) → Away v w → Away w v
Away-sym v w (inl h) = inr h
Away-sym v w (inr h) = inl h

Clear-puts :
    (w : ℕ × List ℕ) (writes : List (ℕ × List ℕ))
    → All (Away w) writes
    → All (λ c. Clear c w) (puts writes)
Clear-puts w [] h = tt
Clear-puts w (v ∷ writes) h = (Away-sym w v h.0, Clear-puts w writes h.1)

-- Writes that do not overlap are all held once they have settled.
pub Held-puts :
    (writes : List (ℕ × List ℕ)) (file : List ℕ)
    → Pairwise Away writes
    → All (Held (settle (puts writes) file)) writes
Held-puts [] file h = tt
Held-puts (w ∷ writes) file h = (
  Held-settle (puts writes) (write_at w.0 w.1 file) w
      (λ k inside. get_elem?-write_at_payload w.0 w.1 file k inside) (Clear-puts w writes h.0),
  Held-puts writes (write_at w.0 w.1 file) h.1,
)
