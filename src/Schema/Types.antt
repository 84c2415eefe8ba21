-- ===== src/Schema/Types.antt =====
-- The types of the generated code: what the Rust compiler accepts of the expressions for the columns,
-- and which values a column of each type can hold.
pub mod Converted
pub mod Sound
pub mod Generated
use yaffle.Base.{
  ℕ, suc, ◌^◌, ◌≤◌, ◌<◌, ◌≡◌, Bool, true, false, ◌&&◌, ◌||◌, List, [], ◌∷◌, Option, none, some,
  Bytes, Result, ok, err, text_eq, codes,
}
use yaffle.Syslog.Number.{u64_max}
use yaffle.Macros.Attributes.{Kind, uint_kind, int_kind, string_kind, Field, FieldValueConversion}
use yaffle.Macros.Expr.{
  Accessor, gelf_string, gelf_other, syslog_some, syslog_into, map_to_value, Expr, access,
  primitive, convert_float_sec, convert_hex, convert_timestamp, convert_datetime, or_expr,
  none_expr, constructor_expr,
}
use yaffle.Schema.Convert.{Conversions, Value, Cell, uint, int, text, ℤ, pos, negsuc}
use yaffle.Schema.Build.{Document, BuildError, failed, panicked, ill_typed}

abbrev pub IsI64 : ℤ → Type 0
IsI64 (pos n) = n < 2 ^ 63
IsI64 (negsuc n) = n < 2 ^ 63

-- the values of `u64`, `i64` and `String`
abbrev pub HasKind : Kind → Cell → Type 0
HasKind uint_kind (uint n) = n ≤ u64_max
HasKind uint_kind (int i) = ⊥
HasKind uint_kind (text s) = ⊥
HasKind int_kind (uint n) = ⊥
HasKind int_kind (int i) = IsI64 i
HasKind int_kind (text s) = ⊥
HasKind string_kind (uint n) = ⊥
HasKind string_kind (int i) = ⊥
HasKind string_kind (text s) = Unit

-- What the types of the called functions say of what they return.
pub record IsTyped (C : Conversions) : Type 0 where
  pub from_value-HasKind :
      (k : Kind) (v : Value C.Number C.Rest) (c : Cell) → C.from_value k v ≡ ok c → HasKind k c
  pub as_u64_bound : (n : C.Number) (m : ℕ) → C.as_u64 n ≡ some m → m ≤ u64_max
  pub usec_bound : (x : C.Float) → C.usec x ≤ u64_max
  pub rfc3339-IsI64 : (s : Bytes) (t : ℤ) → C.rfc3339_nanos s ≡ ok (some t) → IsI64 t
  pub rfc2822-IsI64 : (s : Bytes) (t : ℤ) → C.rfc2822_nanos s ≡ ok (some t) → IsI64 t
  pub this_year-IsI64 : (s : Bytes) (t : ℤ) → C.this_year_nanos s ≡ ok (some t) → IsI64 t

-- an accessor whose type is an `Option` of a `Value`
abbrev pub gives_value : Accessor → Bool
gives_value (gelf_string f) =
    text_eq f (codes "version") || text_eq f (codes "host") || text_eq f (codes "short_message")
gives_value (gelf_other f) = true
gives_value (syslog_some f) = false
gives_value (syslog_into f) = false
gives_value (map_to_value a) = false

abbrev pub is_uint : Kind → Bool
is_uint uint_kind = true
is_uint int_kind = false
is_uint string_kind = false

abbrev pub is_string : Kind → Bool
is_string uint_kind = false
is_string int_kind = false
is_string string_kind = true

-- the types of the fields of `SyslogMessage`, behind `into`
abbrev pub is_field : Kind → Accessor → Bool
is_field k (syslog_some f) =
    (is_uint k && text_eq f (codes "priority"))
    || (is_string k
        && (text_eq f (codes "facility")
            || text_eq f (codes "message")
            || text_eq f (codes "full_message")))
is_field k (syslog_into f) =
    (is_string k && (text_eq f (codes "hostname") || text_eq f (codes "identifier")))
    || (is_uint k && text_eq f (codes "pid"))
is_field k (gelf_string f) = false
is_field k (gelf_other f) = false
is_field k (map_to_value a) = false

abbrev pub is_datetime : Accessor → Bool
is_datetime (syslog_some f) = text_eq f (codes "source_timestamp")
is_datetime (syslog_into f) = false
is_datetime (gelf_string f) = false
is_datetime (gelf_other f) = false
is_datetime (map_to_value a) = false

-- An expression for a column of the type `Option` of `k`, in `from_gelf` or `from_syslog`.
unfoldable pub type_checks : Kind → Expr → Bool
unfolding text_eq
type_checks k (access a) = is_field k a
type_checks k (primitive a) = gives_value a
type_checks k (convert_float_sec a) = is_uint k && gives_value a
type_checks k (convert_hex a) = is_uint k && gives_value a
type_checks k (convert_timestamp a) = is_uint k && gives_value a
type_checks k (convert_datetime a) = is_uint k && is_datetime a
type_checks k (or_expr e f) = type_checks k e && type_checks k f
type_checks k none_expr = true

unfoldable pub all_type_check : Bool → List (Field × List FieldValueConversion) → Bool
unfolding type_checks constructor_expr
all_type_check syslog [] = true
all_type_check syslog ((f, sources) ∷ fs) =
    type_checks f.kind (constructor_expr sources syslog) && all_type_check syslog fs

abbrev pub OptionHasKind : Kind → Option Cell → Type 0
OptionHasKind k none = Unit
OptionHasKind k (some c) = HasKind k c

-- an error is one of a conversion, which may also panic, and a value has the type
abbrev pub CellResult : {E : Type 0} → Kind → Result (BuildError E) Cell → Type 0
CellResult k (ok c) = HasKind k c
CellResult k (err (failed e)) = Unit
CellResult k (err panicked) = Unit
CellResult k (err ill_typed) = ⊥

abbrev pub ColumnResult : {E : Type 0} → Kind → Result (BuildError E) (Option Cell) → Type 0
ColumnResult k (ok o) = OptionHasKind k o
ColumnResult k (err (failed e)) = Unit
ColumnResult k (err panicked) = Unit
ColumnResult k (err ill_typed) = ⊥

-- a column for each field, with a value of the field's type
abbrev pub HasColumns : List (Field × List FieldValueConversion) → Document → Type 0
HasColumns [] [] = Unit
HasColumns [] (c ∷ doc) = ⊥
HasColumns (f ∷ fs) [] = ⊥
HasColumns ((f, l) ∷ fs) ((n, c) ∷ doc) = (n ≡ f.ident) × OptionHasKind f.kind c × HasColumns fs doc

abbrev pub DocumentResult :
    {E : Type 0}
    → List (Field × List FieldValueConversion)
    → Result (BuildError E) Document
    → Type 0
DocumentResult fs (ok doc) = HasColumns fs doc
DocumentResult fs (err (failed e)) = Unit
DocumentResult fs (err panicked) = Unit
DocumentResult fs (err ill_typed) = ⊥
