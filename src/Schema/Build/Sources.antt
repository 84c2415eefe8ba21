-- ===== src/Schema/Build/Sources.antt =====
-- The chain of `or`s that is generated for a column with several sources.
use yaffle.Base.{
  ◌≡◌, refl, sym, ap, ◌∙◌, Bool, List, [], ◌∷◌, Option, none, some, Result, ok, err, ◌>>=◌, map_ok,
  or, map,
}
use yaffle.Macros.Attributes.{Kind, FieldValueConversion}
use yaffle.Macros.Expr.{Accessor, Expr, or_expr, constructor_expr, conversion_expr, chain_sources}
use yaffle.Schema.Convert.{Conversions, Cell}
use yaffle.Schema.Build.{BuildError, Item, eval}

-- the first of the sources that is there, if none of them fails
abbrev pub first_present : {E A : Type 0} → List (Result E (Option A)) → Result E (Option A)
first_present [] = ok none
first_present (r ∷ rs) = r >>= (λ x. map_ok (or x) (first_present rs))

abbrev pub Fails : {E A : Type 0} → Result E A → Type 0
Fails {E} {A} r = (e : E) × (r ≡ err e)

or_assoc : {A : Type 0} (x y z : Option A) → or (or x y) z ≡ or x (or y z)
or_assoc none y z = refl
or_assoc (some x) y z = refl

or_ok :
    {E A : Type 0} (r : Result E (Option A)) (s t : Result E (Option A))
    → ((r >>= (λ x. map_ok (or x) s)) >>= (λ x. map_ok (or x) t))
      ≡ (r >>= (λ x. map_ok (or x) (s >>= (λ y. map_ok (or y) t))))
or_ok (err e) s t = refl
or_ok (ok x) (err e) t = refl
or_ok (ok x) (ok y) (err e) = refl
or_ok (ok x) (ok y) (ok z) = ap ok (or_assoc x y z)

or_nothing : {E A : Type 0} (r : Result E (Option A)) → (r >>= (λ x. map_ok (or x) (ok none))) ≡ r
or_nothing (err e) = refl
or_nothing (ok none) = refl
or_nothing (ok (some x)) = refl

module _ (C : Conversions) (scope : Accessor → Option (Item C)) (k : Kind) where
  open C use {Error}

  sources : Bool → List FieldValueConversion → List (Result (BuildError Error) (Option Cell))
  sources syslog l = map (λ s. eval C scope k (conversion_expr s syslog)) l

  chain_lem :
      (syslog : Bool) (e : Expr) (l : List FieldValueConversion)
      → (x : Expr) × (chain_sources (some e) l syslog ≡ some x)
        × (eval C scope k x ≡ first_present (eval C scope k e ∷ sources syslog l))
  unfolding sources eval
  chain_lem syslog e [] = (e, refl, sym (or_nothing (eval C scope k e)))
  chain_lem syslog e (s ∷ l) =
      let (x, found, value) = chain_lem syslog (or_expr e (conversion_expr s syslog)) l in
      (
        x,
        found,
        value
            ∙ or_ok (eval C scope k e) (eval C scope k (conversion_expr s syslog))
                (first_present (sources syslog l)),
      )

  -- The generated expression gives the first source that is there, and fails if any source fails.
  pub constructor_expr_lem :
      (syslog : Bool) (l : List FieldValueConversion)
      → eval C scope k (constructor_expr l syslog)
        ≡ first_present (map (λ s. eval C scope k (conversion_expr s syslog)) l)
  unfolding sources constructor_expr
  constructor_expr_lem syslog [] = unfold eval in refl
  constructor_expr_lem syslog (s ∷ l) =
      let (x, found, value) = chain_lem syslog (conversion_expr s syslog) l in rw found value
