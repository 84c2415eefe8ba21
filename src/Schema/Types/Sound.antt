-- ===== src/Schema/Types/Sound.antt =====
-- Code that type checks produces columns of the types that the fields have.
use yaffle.Base.{
  ℕ, ◌≤◌, ◌≡◌, refl, Bool, true, ◌&&◌, List, [], ◌∷◌, Option, none, some, Result, ok, err, ◌>>=◌,
  map_ok, or, option_map, transpose, arith,
}
use yaffle.Syslog.Number.{u64_max}
use yaffle.Macros.Attributes.{Kind, uint_kind, int_kind, string_kind, Field, FieldValueConversion}
use yaffle.Macros.Expr.{
  Accessor, Expr, access, primitive, convert_float_sec, convert_hex, convert_timestamp,
  convert_datetime, or_expr, none_expr, constructor_expr,
}
use yaffle.Schema.Convert.{
  Conversions, Value, Cell, uint, convert_datetime_to_usec, convert_primitive,
}
use yaffle.Schema.Build.{
  Document, BuildError, failed, panicked, ill_typed, Item, json, cell, time, boxed, as_cell,
  as_primitive, as_converted, as_timestamp, as_datetime, unless_panic, fallible, eval, build,
}
use yaffle.Schema.Types.{
  IsI64, HasKind, IsTyped, gives_value, is_uint, is_field, is_datetime, type_checks, all_type_check,
  CellResult, ColumnResult, DocumentResult,
}
use yaffle.Schema.Types.Converted.{
  AllOf, Holds, convert_primitive-HasKind, convert_float_sec_bound, convert_hex_bound,
  convert_timestamp_bound, as_uint_bound,
}

both_true : (a b : Bool) → (a && b) ≡ true → (a ≡ true) × (b ≡ true)
both_true a b h = ground arith

some-ColumnResult :
    {E : Type 0} (k : Kind) (r : Result (BuildError E) Cell)
    → CellResult k r
    → ColumnResult k (transpose (some r))
some-ColumnResult k (ok c) h = h
some-ColumnResult k (err (failed e)) h = tt
some-ColumnResult k (err panicked) h = tt
some-ColumnResult k (err ill_typed) h = h

transpose-ColumnResult :
    {E A : Type 0} (k : Kind) (P : A → Type 0) (f : A → Result (BuildError E) Cell)
    → ((a : A) → P a → CellResult k (f a))
    → (o : Option A) → AllOf P o
    → ColumnResult k (transpose (option_map f o))
transpose-ColumnResult k P f h none p = tt
transpose-ColumnResult k P f h (some a) p = some-ColumnResult k (f a) (h a p)

or-ColumnResult :
    {E : Type 0} (k : Kind) (r s : Result (BuildError E) (Option Cell))
    → ColumnResult k r
    → ColumnResult k s
    → ColumnResult k (r >>= (λ x. map_ok (or x) s))
or-ColumnResult k (ok none) (ok o) p q = q
or-ColumnResult k (ok (some c)) (ok o) p q = p
or-ColumnResult k (ok o) (err (failed e)) p q = tt
or-ColumnResult k (ok o) (err panicked) p q = tt
or-ColumnResult k (ok o) (err ill_typed) p q = q
or-ColumnResult k (err (failed e)) s p q = tt
or-ColumnResult k (err panicked) s p q = tt
or-ColumnResult k (err ill_typed) s p q = p

cons-DocumentResult :
    {E : Type 0} (f : Field) (l : List FieldValueConversion)
    (fs : List (Field × List FieldValueConversion)) (r : Result (BuildError E) (Option Cell))
    (s : Result (BuildError E) Document)
    → ColumnResult f.kind r
    → DocumentResult fs s
    → DocumentResult ((f, l) ∷ fs) (r >>= (λ c. map_ok (λ doc. (f.ident, c) ∷ doc) s))
cons-DocumentResult f l fs (ok c) (ok doc) p q = (refl, p, q)
cons-DocumentResult f l fs (ok c) (err (failed e)) p q = tt
cons-DocumentResult f l fs (ok c) (err panicked) p q = tt
cons-DocumentResult f l fs (ok c) (err ill_typed) p q = q
cons-DocumentResult f l fs (err (failed e)) s p q = tt
cons-DocumentResult f l fs (err panicked) s p q = tt
cons-DocumentResult f l fs (err ill_typed) s p q = p

module _ (C : Conversions) (W : IsTyped C) where
  open C use {Number, Rest, Error}

  abbrev pub IsJson : Item C → Type 0
  IsJson (json v) = Unit
  IsJson i = ⊥

  abbrev pub IsCell : Kind → Item C → Type 0
  IsCell k (cell c) = HasKind k c
  IsCell k i = ⊥

  abbrev pub IsTime : Item C → Type 0
  IsTime (time nanos) = AllOf IsI64 nanos
  IsTime i = ⊥

  -- what the types of a message's fields say of its accessors
  pub record IsTypedScope (scope : Accessor → Option (Item C)) : Type 0 where
    pub value-IsJson : (a : Accessor) → gives_value a ≡ true → AllOf IsJson (scope a)
    pub field-IsCell : (k : Kind) (a : Accessor) → is_field k a ≡ true → AllOf (IsCell k) (scope a)
    pub datetime-IsTime : (a : Accessor) → is_datetime a ≡ true → AllOf IsTime (scope a)

  fallible-CellResult :
      {A : Type 0} (k : Kind) (P : A → Type 0) (f : A → Cell)
      → ((a : A) → P a → HasKind k (f a))
      → (r : Result Error A) → Holds P r
      → CellResult k (fallible C f r)
  unfolding fallible
  fallible-CellResult k P f h (ok a) p = h a p
  fallible-CellResult k P f h (err e) p = tt

  cell-CellResult : (k : Kind) (i : Item C) → IsCell k i → CellResult k (as_cell C i)
  unfolding as_cell
  cell-CellResult k (cell c) h = h
  cell-CellResult k (json _) h = elim h [ ]
  cell-CellResult k (time nanos) h = elim h [ ]
  cell-CellResult k boxed h = elim h [ ]

  primitive-CellResult : (k : Kind) (i : Item C) → IsJson i → CellResult k (as_primitive C k i)
  unfolding as_primitive
  primitive-CellResult k (json v) h =
      fallible-CellResult k (HasKind k) (λ c. c) (λ c p. p) (convert_primitive C k v)
        (convert_primitive-HasKind C W k v)
  primitive-CellResult k (cell _) h = elim h [ ]
  primitive-CellResult k (time nanos) h = elim h [ ]
  primitive-CellResult k boxed h = elim h [ ]

  converted-CellResult :
      (f : Value Number Rest → Result Error ℕ)
      → ((v : Value Number Rest) → Holds (λ n. n ≤ u64_max) (f v))
      → (i : Item C) → IsJson i
      → CellResult uint_kind (as_converted C f i)
  unfolding as_converted
  converted-CellResult f bound (json v) h =
      fallible-CellResult uint_kind (λ n. n ≤ u64_max) uint (λ n p. p) (f v) (bound v)
  converted-CellResult f bound (cell _) h = elim h [ ]
  converted-CellResult f bound (time nanos) h = elim h [ ]
  converted-CellResult f bound boxed h = elim h [ ]

  unless_panic-CellResult :
      (o : Option (Result Error ℕ))
      → AllOf (Holds (λ n. n ≤ u64_max)) o
      → CellResult uint_kind (unless_panic o >>= fallible C uint)
  unless_panic-CellResult none h = tt
  unless_panic-CellResult (some r) h =
      fallible-CellResult uint_kind (λ n. n ≤ u64_max) uint (λ n p. p) r h

  timestamp-CellResult : (i : Item C) → IsJson i → CellResult uint_kind (as_timestamp C i)
  unfolding as_timestamp
  timestamp-CellResult (json v) h = unless_panic-CellResult _ (convert_timestamp_bound C W v)
  timestamp-CellResult (cell _) h = elim h [ ]
  timestamp-CellResult (time nanos) h = elim h [ ]
  timestamp-CellResult boxed h = elim h [ ]

  datetime-CellResult : (i : Item C) → IsTime i → CellResult uint_kind (as_datetime C i)
  unfolding as_datetime convert_datetime_to_usec
  datetime-CellResult (time none) h = tt
  datetime-CellResult (time (some n)) h = ground (arith, as_uint_bound n h)
  datetime-CellResult (json _) h = elim h [ ]
  datetime-CellResult (cell _) h = elim h [ ]
  datetime-CellResult boxed h = elim h [ ]

  converted-ColumnResult :
      (scope : Accessor → Option (Item C)) (S : IsTypedScope scope)
      (f : Item C → Result (BuildError Error) Cell)
      → ((i : Item C) → IsJson i → CellResult uint_kind (f i))
      → (k : Kind) (a : Accessor) → (is_uint k && gives_value a) ≡ true
      → ColumnResult k (transpose (option_map f (scope a)))
  converted-ColumnResult scope S f bound uint_kind a h =
      transpose-ColumnResult uint_kind IsJson f bound (scope a) (S.value-IsJson a h)
  converted-ColumnResult scope S f bound int_kind a h = cc h
  converted-ColumnResult scope S f bound string_kind a h = cc h

  module _ (scope : Accessor → Option (Item C)) (S : IsTypedScope scope) where
    open S use {value-IsJson, field-IsCell, datetime-IsTime}

    -- an expression that the compiler accepts yields a value of its type, or the error of a conversion
    eval-ColumnResult :
        (k : Kind) (e : Expr) → type_checks k e ≡ true → ColumnResult k (eval C scope k e)
    unfolding eval type_checks
    eval-ColumnResult k (access a) h =
        transpose-ColumnResult k (IsCell k) (as_cell C) (cell-CellResult k) (scope a)
          (field-IsCell k a h)
    eval-ColumnResult k (primitive a) h =
        transpose-ColumnResult k IsJson (as_primitive C k) (primitive-CellResult k) (scope a)
          (value-IsJson a h)
    eval-ColumnResult k (convert_float_sec a) h =
        converted-ColumnResult scope S _ (converted-CellResult _ (convert_float_sec_bound C W)) k a
          h
    eval-ColumnResult k (convert_hex a) h =
        converted-ColumnResult scope S _ (converted-CellResult _ (convert_hex_bound C W)) k a h
    eval-ColumnResult k (convert_timestamp a) h =
        converted-ColumnResult scope S _ timestamp-CellResult k a h
    eval-ColumnResult uint_kind (convert_datetime a) h =
        transpose-ColumnResult uint_kind IsTime (as_datetime C) datetime-CellResult (scope a)
          (datetime-IsTime a h)
    eval-ColumnResult int_kind (convert_datetime a) h = cc h
    eval-ColumnResult string_kind (convert_datetime a) h = cc h
    eval-ColumnResult k (or_expr e f) h =
        let (left, right) = both_true (type_checks k e) (type_checks k f) h in
        or-ColumnResult k (eval C scope k e) (eval C scope k f) (eval-ColumnResult k e left)
          (eval-ColumnResult k f right)
    eval-ColumnResult k none_expr h = tt

    pub build-DocumentResult :
        (syslog : Bool) (fs : List (Field × List FieldValueConversion))
        → all_type_check syslog fs ≡ true
        → DocumentResult fs (build C scope syslog fs)
    unfolding build all_type_check
    build-DocumentResult syslog [] h = tt
    build-DocumentResult syslog ((f, l) ∷ fs) h =
        let (here, later) =
          both_true (type_checks f.kind (constructor_expr l syslog)) (all_type_check syslog fs) h in
        cons-DocumentResult f l fs _ _ (eval-ColumnResult f.kind (constructor_expr l syslog) here)
          (build-DocumentResult syslog fs later)
