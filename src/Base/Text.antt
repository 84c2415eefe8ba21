-- ===== src/Base/Text.antt =====
-- `str::split` at an ASCII character, and `join` of strings with one between them.
use Prim.Native.Nat.{ℕ}
use mathlib.Core.Path.{◌≡◌, refl, ap}
use mathlib.Core.Logic.{◌≢◌}
use mathlib.Core.Bool.{false}
use mathlib.Core.List.{List, [], ◌∷◌, ◌++◌}
use native.Mathlib.Omega.{arith}
use yaffle.Base.Tests.{nat_eq, if◌then◌else◌}
use yaffle.Base.Lists.{Bytes, All}

abbrev push_front : ℕ → List Bytes → List Bytes
push_front c [] = (c ∷ []) ∷ []
push_front c (part ∷ parts) = (c ∷ part) ∷ parts

unfoldable pub split : ℕ → Bytes → List Bytes
split sep [] = [] ∷ []
split sep (c ∷ s) =
    let parts = split sep s in if nat_eq c sep then [] ∷ parts else push_front c parts

abbrev pub join : ℕ → List Bytes → Bytes
join sep [] = []
join sep (part ∷ []) = part
join sep (part ∷ next ∷ parts) = part ++ (sep ∷ join sep (next ∷ parts))

-- a text without the separator
abbrev pub Lacks : ℕ → Bytes → Type 0
Lacks sep = All (λ c. nat_eq c sep ≡ false)

push_split : ℕ → Bytes → List Bytes → List Bytes
push_split sep [] parts = parts
push_split sep (c ∷ s) parts = push_front c (push_split sep s parts)

split-append :
    (sep : ℕ) (part s : Bytes)
    → Lacks sep part
    → split sep (part ++ s) ≡ push_split sep part (split sep s)
unfolding split push_split
split-append sep [] s h = refl
split-append sep (c ∷ part) s (here, later) =
    rw here (ap (push_front c) (split-append sep part s later))

push-split :
    (sep : ℕ) (part : Bytes) (parts : List Bytes) → push_split sep part ([] ∷ parts) ≡ part ∷ parts
unfolding push_split
push-split sep [] parts = refl
push-split sep (c ∷ part) parts = rw (push-split sep part parts) refl

split-part : (sep : ℕ) (part : Bytes) → Lacks sep part → split sep part ≡ part ∷ []
unfolding split
split-part sep [] h = refl
split-part sep (c ∷ part) (here, later) = rw here (ap (push_front c) (split-part sep part later))

split-at_sep : (sep : ℕ) (s : Bytes) → split sep (sep ∷ s) ≡ [] ∷ split sep s
unfolding split
split-at_sep sep s = ground arith

-- The parts of a joined text are those that it was joined of, if there are some and none has the
-- separator in it.
pub split-join :
    (sep : ℕ) (parts : List Bytes)
    → parts ≢ []
    → All (Lacks sep) parts
    → split sep (join sep parts) ≡ parts
split-join sep [] some_part h = absurd (some_part refl)
split-join sep (part ∷ []) some_part (here, h) = split-part sep part here
split-join sep (part ∷ next ∷ parts) some_part (here, h) =
    rw
      (
        split-append sep part (sep ∷ join sep (next ∷ parts)) here,
        split-at_sep sep (join sep (next ∷ parts)),
        push-split sep part (split sep (join sep (next ∷ parts))),
      )
      (ap (◌∷◌ part) (split-join sep (next ∷ parts) (cc) h))
