-- ===== src/Gelf/Chunks/Masks.antt =====
-- Entries as the pieces of a message behind a mask of those that have arrived.
use yaffle.Base.{
  ℕ, zero, suc, ◌≡◌, refl, ap, Bool, true, false, not, List, [], ◌∷◌, none, some, Bytes, length,
  get_elem?, set, replicate, all, if◌then◌else◌, arith,
}
use yaffle.Gelf.Chunks.{Slots, has_gap, unwrap_all}

unfoldable pub slots : List Bytes → List Bool → Slots
slots [] m = []
slots (p ∷ ps) [] = none ∷ slots ps []
slots (p ∷ ps) (b ∷ m) = (if b then some p else none) ∷ slots ps m

abbrev pub full : List Bool → Bool
full = all (λ b. b)

pub set-slots :
    (ps : List Bytes) (m : List Bool) (i : ℕ) (p : Bytes)
    → length m ≡ length ps
    → get_elem? ps i ≡ some p
    → set (slots ps m) i (some p) ≡ slots ps (set m i true)
unfolding slots
set-slots [] m i p h e = absurd (ground arith)
set-slots (q ∷ ps) [] i p h e = absurd (omega arith)
set-slots (q ∷ ps) (b ∷ m) zero p h e = ground arith
set-slots (q ∷ ps) (b ∷ m) (suc i) p h e = ground (arith, set-slots ps m i p)

pub slots-replicate :
    (ps : List Bytes) → slots ps (replicate (length ps) false) ≡ replicate (length ps) none
unfolding slots
slots-replicate [] = refl
slots-replicate (p ∷ ps) = ap (◌∷◌ none) (slots-replicate ps)

pub has_gap-slots :
    (ps : List Bytes) (m : List Bool) → length m ≡ length ps → has_gap (slots ps m) ≡ not (full m)
unfolding slots has_gap
has_gap-slots [] [] h = refl
has_gap-slots [] (b ∷ m) h = absurd (omega arith)
has_gap-slots (p ∷ ps) [] h = absurd (omega arith)
has_gap-slots (p ∷ ps) (b ∷ m) h = ground (arith, has_gap-slots ps m)

pub unwrap_all-slots :
    (ps : List Bytes) (m : List Bool)
    → length m ≡ length ps
    → full m ≡ true
    → unwrap_all (slots ps m) ≡ some ps
unfolding slots unwrap_all
unwrap_all-slots [] m h f = refl
unwrap_all-slots (p ∷ ps) [] h f = absurd (omega arith)
unwrap_all-slots (p ∷ ps) (b ∷ m) h f = ground (arith, unwrap_all-slots ps m)
