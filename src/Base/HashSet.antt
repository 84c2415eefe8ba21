-- ===== src/Base/HashSet.antt =====
-- `std::collections::HashSet` of strings: lists up to what `contains` sees, so that the order in
-- which a set is listed is not part of it.
use mathlib.Core.Path.{◌≡◌, refl, sym, ◌∙◌, ap}
use mathlib.Core.Bool.{Bool, false, not, ◌&&◌, ◌||◌}
use mathlib.Core.List.{List, [], ◌∷◌}
use mathlib.Core.Quot
use mathlib.Core.Quot.{Quot, Quot-set}
use mathlib.Core.HLevel.{Π_prop}
use native.Mathlib.Omega.{arith}
use yaffle.Base.Tests.{text_eq, text_eq_iff, if◌then◌else◌}
use yaffle.Base.Lists.{Bytes}

abbrev pub is_listed : Bytes → List Bytes → Bool
is_listed key [] = false
is_listed key (k ∷ keys) = text_eq k key || is_listed key keys

abbrev pub SameMembers : List Bytes → List Bytes → Type 0
SameMembers xs ys = (key : Bytes) → is_listed key xs ≡ is_listed key ys

abbrev pub HashSet : Type 0
HashSet = Quot SameMembers

-- `HashSet::from_iter`
abbrev pub from_iter : List Bytes → HashSet
from_iter keys = Quot.mk keys

unfoldable pub contains : Bytes → HashSet → Bool
contains key = Quot.lift (hlevel) (is_listed key) (λ xs ys h. h key)

unfoldable pub insert : Bytes → HashSet → HashSet
insert key =
    Quot.lift Quot-set (λ keys. from_iter (key ∷ keys))
      (λ xs ys h. Quot.sound (λ k. ap (λ b. text_eq key k || b) (h k)))

abbrev without : Bytes → List Bytes → List Bytes
without key [] = []
without key (k ∷ keys) = let left = without key keys in if text_eq k key then left else k ∷ left

pub is_listed-without :
    (k key : Bytes) (keys : List Bytes)
    → is_listed k (without key keys) ≡ (not (text_eq key k) && is_listed k keys)
is_listed-without k key [] = ground arith
is_listed-without k key (x ∷ keys) =
    ground
      (arith, text_eq_iff x key, text_eq_iff x k, text_eq_iff key k, is_listed-without k key keys)

unfoldable pub remove : Bytes → HashSet → HashSet
remove key =
    Quot.lift Quot-set (λ keys. from_iter (without key keys))
      (λ xs ys h. Quot.sound (λ k.
        is_listed-without k key xs
        ∙ ap (λ b. not (text_eq key k) && b) (h k)
        ∙ sym (is_listed-without k key ys)))

pub contains-insert :
    (k key : Bytes) (s : HashSet) → contains k (insert key s) ≡ (text_eq key k || contains k s)
unfolding contains insert
contains-insert k key = Quot.ind (λ s. hlevel) (λ keys. refl)

pub contains-remove :
    (k key : Bytes) (s : HashSet)
    → contains k (remove key s) ≡ (not (text_eq key k) && contains k s)
unfolding contains remove
contains-remove k key = Quot.ind (λ s. hlevel) (λ keys. is_listed-without k key keys)

-- Two sets that contain the same names are equal.
pub HashSet-ext : (a b : HashSet) → ((key : Bytes) → contains key a ≡ contains key b) → a ≡ b
unfolding contains
HashSet-ext =
    Quot.ind (λ a. Π_prop (λ b. Π_prop (λ h. Quot-set a b)))
      (λ xs. Quot.ind (λ b. Π_prop (λ h. Quot-set (Quot.mk xs) b)) (λ ys h. Quot.sound h))
