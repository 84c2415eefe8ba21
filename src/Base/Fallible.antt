-- ===== src/Base/Fallible.antt =====
-- `std::result::Result`, and what the source chains on `Option`.
use mathlib.Core.Path.{◌≡◌, refl}
use mathlib.Core.Logic.{◌⊎◌, inl, inr}
use mathlib.Core.Option.{Option, none, some}

pub data Result {ℓ} (E A : Type ℓ) : Type ℓ where
  ok : A → Result E A
  err : E → Result E A

pub Result-cases {ℓ} :
    {E A : Type ℓ} (r : Result E A) → ((e : E) × (r ≡ err e)) ⊎ ((a : A) × (r ≡ ok a))
Result-cases (ok a) = inr (a, refl)
Result-cases (err e) = inl (e, refl)

module _ {ℓ} {E A B : Type ℓ} where
  infixl 5 ◌>>=◌
  -- The operator `?`.
  abbrev pub ◌>>=◌ : Result E A → (A → Result E B) → Result E B
  ok a >>= f = f a
  err e >>= f = err e

  abbrev pub map_ok : (A → B) → Result E A → Result E B
  map_ok f (ok a) = ok (f a)
  map_ok f (err e) = err e

module _ {ℓ} {E A : Type ℓ} where
  -- `Result::or_else` with an alternative that ignores the error.
  abbrev pub or_else : Result E A → Result E A → Result E A
  or_else (ok a) r = ok a
  or_else (err e) r = r

  -- `Option::ok_or`
  abbrev pub ok_or : E → Option A → Result E A
  ok_or e none = err e
  ok_or e (some a) = ok a

  -- `Option::transpose`
  abbrev pub transpose : Option (Result E A) → Result E (Option A)
  transpose none = ok none
  transpose (some (ok a)) = ok (some a)
  transpose (some (err e)) = err e

module _ {ℓ} {A : Type ℓ} where
  -- `Option::or`
  abbrev pub or : Option A → Option A → Option A
  or none b = b
  or (some a) b = some a

  abbrev pub unwrap_or : A → Option A → A
  unwrap_or d none = d
  unwrap_or d (some a) = a

abbrev pub option_map {ℓ κ} : {A : Type ℓ} {B : Type κ} → (A → B) → Option A → Option B
option_map f none = none
option_map f (some a) = some (f a)

abbrev pub and_then {ℓ κ} : {A : Type ℓ} {B : Type κ} → Option A → (A → Option B) → Option B
and_then none f = none
and_then (some a) f = f a

-- what a chain of two that went well returned on the way
pub bind_ok :
    {E A B : Type 0} (r : Result E A) (f : A → Result E B) (b : B)
    → (r >>= f) ≡ ok b
    → (a : A) × (r ≡ ok a) × (f a ≡ ok b)
bind_ok (err e) f b h = cc h
bind_ok (ok a) f b h = (a, refl, h)
