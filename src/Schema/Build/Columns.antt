-- ===== src/Schema/Build/Columns.antt =====
-- Which source fills a column, and what refuses a message.
use yaffle.Base.{
  bind_ok, ◌≡◌, refl, sym, ◌∙◌, Bool, List, [], ◌∷◌, ◌++◌, Option, Result, ok, err, ◌>>=◌, map_ok,
  or, map, subst, bytes_eq,
}
use yaffle.Macros.Attributes.{Field, FieldValueConversion}
use yaffle.Macros.Expr.{Accessor, constructor_expr, conversion_expr}
use yaffle.Schema.Convert.{Conversions}
use yaffle.Schema.Build.{Item, eval, build, Document}
use yaffle.Schema.Build.Sources.{first_present, Fails, constructor_expr_lem}

Fails-bind :
    {E A B : Type 0} (r : Result E A) (f : A → Result E B)
    → ((a : A) → Fails (f a))
    → Fails (r >>= f)
Fails-bind (err e) f h = (e, refl)
Fails-bind (ok a) f h = h a

Fails-map_ok : {E A B : Type 0} (g : A → B) (r : Result E A) → Fails r → Fails (map_ok g r)
Fails-map_ok g (err e) h = (e, refl)
Fails-map_ok g (ok a) (e, h) = cc h

Fails-at : {E A B : Type 0} (r : Result E A) (f : A → Result E B) → Fails r → Fails (r >>= f)
Fails-at (err e) f h = (e, refl)
Fails-at (ok a) f (e, h) = cc h

first_present-Fails :
    {E A S : Type 0} (g : S → Result E (Option A)) (pre : List S) (s : S) (post : List S)
    → Fails (g s)
    → Fails (first_present (map g (pre ++ (s ∷ post))))
first_present-Fails g [] s post h = Fails-at (g s) _ h
first_present-Fails g (p ∷ pre) s post h =
    Fails-bind (g p) _ (λ x. Fails-map_ok (or x) _ (first_present-Fails g pre s post h))

map_ok_ok :
    {E A B : Type 0} (g : A → B) (r : Result E A) (b : B)
    → map_ok g r ≡ ok b
    → (a : A) × (r ≡ ok a) × (g a ≡ b)
map_ok_ok g (err e) b h = cc h
map_ok_ok g (ok a) b h = (a, refl, cc h)

module _ (C : Conversions) (scope : Accessor → Option (Item C)) (syslog : Bool) where
  open C use {Error}

  -- A message is refused as soon as one source of one column is there and cannot be converted,
  -- also if a source before it is good.
  pub build-refused :
      (before after : List (Field × List FieldValueConversion)) (f : Field)
      (pre post : List FieldValueConversion) (s : FieldValueConversion)
      → Fails (eval C scope f.kind (conversion_expr s syslog))
      → Fails (build C scope syslog (before ++ ((f, pre ++ (s ∷ post)) ∷ after)))
  unfolding build
  build-refused [] after f pre post s h =
      Fails-at (eval C scope f.kind (constructor_expr (pre ++ (s ∷ post)) syslog)) _ (
        subst (λ r. Fails r) (sym (constructor_expr_lem C scope f.kind syslog (pre ++ (s ∷ post))))
          (first_present-Fails (λ c. eval C scope f.kind (conversion_expr c syslog)) pre s post h))
  build-refused ((g, l) ∷ before) after f pre post s h =
      Fails-bind (eval C scope g.kind (constructor_expr l syslog)) _ (λ c.
        Fails-map_ok (λ doc. (g.ident, c) ∷ doc) _ (build-refused before after f pre post s h))

  -- the columns in the order of the fields
  abbrev pub Filled : List (Field × List FieldValueConversion) → Document → Type 0
  Filled [] [] = Unit
  Filled [] (c ∷ doc) = ⊥
  Filled (f ∷ fs) [] = ⊥
  Filled ((f, l) ∷ fs) ((n, c) ∷ doc) =
      (n ≡ f.ident)
      × (first_present (map (λ s. eval C scope f.kind (conversion_expr s syslog)) l) ≡ ok c)
      × Filled fs doc

  -- A document has a column for each field, which is the first source that is there; and all of
  -- its sources could be converted.
  pub build-Filled :
      (fs : List (Field × List FieldValueConversion)) (doc : Document)
      → build C scope syslog fs ≡ ok doc
      → Filled fs doc
  unfolding build
  build-Filled [] [] e = tt
  build-Filled [] (c ∷ doc) e = cc e
  build-Filled ((f, l) ∷ fs) doc e =
      let (c, here, later) =
        bind_ok (eval C scope f.kind (constructor_expr l syslog))
          (λ c. map_ok (λ doc. (f.ident, c) ∷ doc) (build C scope syslog fs)) doc e in
      let (doc', there, whole) =
        map_ok_ok (λ (doc : Document). (f.ident, c) ∷ doc) (build C scope syslog fs) doc later in
      subst (λ d. Filled ((f, l) ∷ fs) d) whole
        (
          refl,
          sym (constructor_expr_lem C scope f.kind syslog l) ∙ here,
          build-Filled fs doc' there,
        )
