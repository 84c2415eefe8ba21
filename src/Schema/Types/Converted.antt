-- ===== src/Schema/Types/Converted.antt =====
-- The conversions return values of the types that they are declared with.
use yaffle.Base.{
  ℕ, zero, suc, ◌-◌, ◌/◌, ◌^◌, ◌≤◌, ◌≡◌, refl, inl, inr, [], ◌∷◌, Bytes, Option, none, some, Result,
  ok, err, map_ok, or_else, all, nat_eq, arith, Bool-cases, Option-cases,
}
use yaffle.Syslog.Number.{parse_uint, parse_uint-le, is_dec, u64_max}
use yaffle.Macros.Attributes.{Kind, uint_kind, int_kind, string_kind}
use yaffle.Schema.Convert.{
  Conversions, Value, number, string, other, Cell, uint, int, ℤ, pos, negsuc, as_uint, int_div,
  negated, parse_hex, parse_int, map_err, parse_cell, or_parsed, convert_primitive,
  convert_float_sec_to_usec, convert_hex_to_uint, convert_syslog_timestamp, in_usec,
  as_uint_or_panic,
}
use yaffle.Schema.Types.{IsTyped, IsI64, HasKind}

abbrev pub AllOf : {A : Type 0} → (A → Type 0) → Option A → Type 0
AllOf P none = Unit
AllOf P (some a) = P a

-- what a result holds
abbrev pub Holds : {E A : Type 0} → (A → Type 0) → Result E A → Type 0
Holds P (ok a) = P a
Holds P (err e) = Unit

Holds-map_ok :
    {E A B : Type 0} (P : A → Type 0) (Q : B → Type 0) (f : A → B)
    → ((a : A) → P a → Q (f a))
    → (r : Result E A) → Holds P r
    → Holds Q (map_ok f r)
Holds-map_ok P Q f h (ok a) p = h a p
Holds-map_ok P Q f h (err e) p = tt

Holds-map_err :
    {D E A : Type 0} (P : A → Type 0) (f : D → E) (r : Result D A)
    → Holds P r
    → Holds P (map_err f r)
Holds-map_err P f (ok a) p = p
Holds-map_err P f (err e) p = tt

Holds-or_else :
    {E A : Type 0} (P : A → Type 0) (r s : Result E A)
    → Holds P r
    → Holds P s
    → Holds P (or_else r s)
Holds-or_else P (ok a) s p q = p
Holds-or_else P (err e) s p q = q

Holds-of_law :
    {E A : Type 0} (P : A → Type 0) (r : Result E A) → ((a : A) → r ≡ ok a → P a) → Holds P r
Holds-of_law P (ok a) h = h a refl
Holds-of_law P (err e) h = tt

parse_uint-Holds : (max : ℕ) (s : Bytes) → Holds (λ n. n ≤ max) (parse_uint max s)
parse_uint-Holds max s =
    Holds-of_law (λ n. n ≤ max) (parse_uint max s) (λ n e. parse_uint-le max s n e)

negated-IsI64 : (n : ℕ) → n ≤ 2 ^ 63 → IsI64 (negated n)
negated-IsI64 zero h = omega arith
negated-IsI64 (suc n) h = ground arith

usec-IsI64 : (t : ℤ) → IsI64 t → IsI64 (int_div t 1000)
usec-IsI64 (pos n) h = omega arith
usec-IsI64 (negsuc n) h = negated-IsI64 (suc n / 1000) (omega arith)

parse_int-Holds : (s : Bytes) → Holds IsI64 (parse_int s)
unfolding parse_int
parse_int-Holds [] = tt
parse_int-Holds (c ∷ []) =
    Holds-map_ok (λ n. n ≤ 2 ^ 63 - 1) IsI64 pos (λ n h. omega arith)
      (parse_uint (2 ^ 63 - 1) (c ∷ [])) (parse_uint-Holds (2 ^ 63 - 1) (c ∷ []))
parse_int-Holds (c ∷ d ∷ s) = elim (Bool-cases (nat_eq c b'-')) [
  | inl minus ↦ rw minus (elim (Bool-cases (all is_dec (d ∷ s))) [
    | inl row ↦ rw row (
        Holds-map_ok (λ n. n ≤ 2 ^ 63) IsI64 negated negated-IsI64 (parse_uint (2 ^ 63) (d ∷ s))
          (parse_uint-Holds (2 ^ 63) (d ∷ s)))
    | inr row ↦ rw row tt
  ])
  | inr plus ↦ rw plus (
      Holds-map_ok (λ n. n ≤ 2 ^ 63 - 1) IsI64 pos (λ n h. omega arith)
        (parse_uint (2 ^ 63 - 1) (c ∷ d ∷ s)) (parse_uint-Holds (2 ^ 63 - 1) (c ∷ d ∷ s)))
]

parse_hex-le : (s : Bytes) (n : ℕ) → parse_hex s ≡ ok n → n ≤ u64_max
unfolding parse_hex
parse_hex-le [] n e = cc e
parse_hex-le (c ∷ []) n e = ground arith
parse_hex-le (c ∷ d ∷ s) n e = ground arith

pub as_uint_bound : (t : ℤ) → IsI64 t → as_uint t ≤ u64_max
as_uint_bound (pos n) h = omega arith
as_uint_bound (negsuc n) h = omega arith

module _ (C : Conversions) (W : IsTyped C) where
  open C use {Number, Rest, Error}
  open W use {
    from_value-HasKind, as_u64_bound, usec_bound, rfc3339-IsI64, rfc2822-IsI64, this_year-IsI64,
  }

  parse_cell-HasKind : (k : Kind) (s : Bytes) → Holds (HasKind k) (parse_cell C k s)
  unfolding parse_cell
  parse_cell-HasKind uint_kind s =
      Holds-map_err (HasKind uint_kind) C.parse_error (map_ok uint (parse_uint u64_max s)) (
        Holds-map_ok (λ n. n ≤ u64_max) (HasKind uint_kind) uint (λ n h. h) (parse_uint u64_max s)
          (parse_uint-Holds u64_max s))
  parse_cell-HasKind int_kind s =
      Holds-map_err (HasKind int_kind) C.parse_error (map_ok int (parse_int s))
        (Holds-map_ok IsI64 (HasKind int_kind) int (λ i h. h) (parse_int s) (parse_int-Holds s))
  parse_cell-HasKind string_kind s = tt

  or_parsed-HasKind :
      (k : Kind) (v : Value Number Rest) (r : Result Error Cell)
      → Holds (HasKind k) r
      → Holds (HasKind k) (or_parsed C k v r)
  or_parsed-HasKind k v (ok c) h = h
  or_parsed-HasKind k (string s) (err e) h =
      Holds-or_else (HasKind k) (parse_cell C k s) (err e) (parse_cell-HasKind k s) tt
  or_parsed-HasKind k (number n) (err e) h = tt
  or_parsed-HasKind k (other r) (err e) h = tt

  pub convert_primitive-HasKind :
      (k : Kind) (v : Value Number Rest) → Holds (HasKind k) (convert_primitive C k v)
  unfolding convert_primitive
  convert_primitive-HasKind k v =
      or_parsed-HasKind k v (C.from_value k v)
        (Holds-of_law (HasKind k) (C.from_value k v) (λ c e. from_value-HasKind k v c e))

  pub convert_float_sec_bound :
      (v : Value Number Rest) → Holds (λ n. n ≤ u64_max) (convert_float_sec_to_usec C v)
  unfolding convert_float_sec_to_usec
  convert_float_sec_bound (number n) = elim (Option-cases (C.as_f64 n)) [
    | inl absent ↦ rw absent tt
    | inr (x, there) ↦ rw there (usec_bound x)
  ]
  convert_float_sec_bound (string s) =
      Holds-map_ok (λ x. Unit) (λ n. n ≤ u64_max) C.usec (λ x h. usec_bound x) (C.parse_f64 s)
        (Holds-of_law (λ x. Unit) (C.parse_f64 s) (λ x e. tt))
  convert_float_sec_bound (other r) = tt

  pub convert_hex_bound :
      (v : Value Number Rest) → Holds (λ n. n ≤ u64_max) (convert_hex_to_uint C v)
  unfolding convert_hex_to_uint
  convert_hex_bound (string s) =
      Holds-map_err (λ n. n ≤ u64_max) C.parse_error (parse_hex s)
        (Holds-of_law (λ n. n ≤ u64_max) (parse_hex s) (λ n e. parse_hex-le s n e))
  convert_hex_bound (number n) = elim (Option-cases (C.as_u64 n)) [
    | inl absent ↦ rw absent tt
    | inr (m, there) ↦ rw there (as_u64_bound n m there)
  ]
  convert_hex_bound (other r) = tt

  in_usec-IsI64 :
      (r : Result Error (Option ℤ))
      → ((t : ℤ) → r ≡ ok (some t) → IsI64 t)
      → Holds (AllOf IsI64) (in_usec C r)
  in_usec-IsI64 (ok none) h = tt
  in_usec-IsI64 (ok (some t)) h = usec-IsI64 t (h t refl)
  in_usec-IsI64 (err e) h = tt

  as_uint_or_panic_bound :
      (r : Result Error (Option ℤ))
      → Holds (AllOf IsI64) r
      → AllOf (Holds (λ n. n ≤ u64_max)) (as_uint_or_panic C r)
  as_uint_or_panic_bound (ok none) h = tt
  as_uint_or_panic_bound (ok (some t)) h = as_uint_bound t h
  as_uint_or_panic_bound (err e) h = tt

  pub convert_timestamp_bound :
      (v : Value Number Rest) → AllOf (Holds (λ n. n ≤ u64_max)) (convert_syslog_timestamp C v)
  unfolding convert_syslog_timestamp
  convert_timestamp_bound (string s) = as_uint_or_panic_bound _ (
      Holds-or_else (AllOf IsI64) _ _
        (Holds-or_else (AllOf IsI64) _ _
          (in_usec-IsI64 (C.rfc3339_nanos (C.trim s)) (rfc3339-IsI64 (C.trim s)))
          (in_usec-IsI64 (C.rfc2822_nanos (C.trim s)) (rfc2822-IsI64 (C.trim s))))
        (in_usec-IsI64 (C.this_year_nanos (C.trim s)) (this_year-IsI64 (C.trim s))))
  convert_timestamp_bound (number n) = tt
  convert_timestamp_bound (other r) = tt
