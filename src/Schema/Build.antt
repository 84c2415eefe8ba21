-- ===== src/Schema/Build.antt =====
-- `from_gelf` and `from_syslog`: the generated expressions, run on a message.
pub mod Sources
pub mod Columns
use yaffle.Base.{
  ℕ, ◌≡◌, refl, Bool, true, false, ◌&&◌, List, [], ◌∷◌, ◌++◌, Option, none, some, Bytes, Result, ok,
  err, ◌>>=◌, map_ok, or, option_map, transpose, unwrap_or, and_then, text_eq, ltb, if◌then◌else◌,
  codes, bytes_eq,
}
use yaffle.Base.HashMap.{HashMap, lookup, insert}
use yaffle.Gelf.Crates.{GelfMessage}
use yaffle.Syslog.Parsers.{SyslogMessage}
use yaffle.Macros.Attributes.{Kind, uint_kind, Field, FieldValueConversion}
use yaffle.Macros.Expr.{
  Accessor, gelf_string, gelf_other, syslog_some, syslog_into, map_to_value, Expr, access,
  primitive, convert_float_sec, convert_hex, convert_timestamp, convert_datetime, or_expr,
  none_expr, constructor_expr,
}
use yaffle.Schema.Convert.{
  Conversions, Value, string, Cell, uint, int, text, ℤ, convert_datetime_to_usec, convert_primitive,
  convert_float_sec_to_usec, convert_hex_to_uint, convert_syslog_timestamp,
}

-- A document has a column for each field, in the order of the struct.
abbrev pub Document : Type 0
Document = HashMap Bytes (Option Cell)

abbrev pub column : Bytes → Document → Option Cell
column name doc = unwrap_or none (lookup name doc)

-- `panicked` stands for a panic, and `ill_typed` for generated code that does not compile.
pub data BuildError (E : Type 0) : Type 0 where
  failed : E → BuildError E
  panicked : BuildError E
  ill_typed : BuildError E

-- `none` is a panic.
abbrev pub unless_panic : {E A : Type 0} → Option A → Result (BuildError E) A
unless_panic none = err panicked
unless_panic (some a) = ok a

abbrev is_positive : Cell → Bool
is_positive (uint n) = ltb 0 n
is_positive (int i) = false
is_positive (text s) = false

abbrev is_text : Cell → Bool
is_text (text []) = false
is_text (text (c ∷ s)) = true
is_text (uint n) = false
is_text (int i) = false

unfoldable pub is_valid : Document → Bool
unfolding lookup text_eq
is_valid doc =
    unwrap_or false (option_map is_positive (column (codes "source_timestamp") doc))
    && unwrap_or false (option_map is_text (column (codes "message") doc))

abbrev set_if_none : Document → Bytes → Bytes → Option Cell → Document
set_if_none doc name s none = insert name (some (text s)) doc
set_if_none doc name s (some c) = doc

-- `do_reverse_dns`, with the name or the address that the lookup ends with
unfoldable pub do_reverse_dns : Bytes → Document → Document
unfolding lookup insert text_eq
do_reverse_dns source doc =
    set_if_none doc (codes "hostname") source (column (codes "hostname") doc)

module _ (C : Conversions) where
  open C use {Number, Rest, Error}

  -- what an accessor reads
  pub data Item : Type 0 where
    json : Value Number Rest → Item
    cell : Cell → Item
    time : (nanos : Option ℤ) → Item
    boxed : Item

  abbrev pub wrong : {A : Type 0} → Result (BuildError Error) A
  wrong = err ill_typed

  unfoldable pub fallible : {A B : Type 0} → (A → B) → Result Error A → Result (BuildError Error) B
  fallible f (ok a) = ok (f a)
  fallible f (err e) = err (failed e)

  -- Each conversion on what it is generated for.
  unfoldable pub as_cell : Item → Result (BuildError Error) Cell
  as_cell (cell c) = ok c
  as_cell i = wrong

  pub transpose-text :
      (o : Option Bytes)
      → transpose (option_map as_cell (option_map (λ s. cell (text s)) o)) ≡ ok (option_map text o)
  unfolding as_cell
  transpose-text none = refl
  transpose-text (some s) = refl

  pub transpose-uint :
      (o : Option ℕ)
      → transpose (option_map as_cell (option_map (λ n. cell (uint n)) o)) ≡ ok (option_map uint o)
  unfolding as_cell
  transpose-uint none = refl
  transpose-uint (some n) = refl

  unfoldable pub as_primitive : Kind → Item → Result (BuildError Error) Cell
  unfolding fallible
  as_primitive k (json v) = fallible (λ c. c) (convert_primitive C k v)
  as_primitive k i = wrong

  unfoldable pub as_converted :
      (Value Number Rest → Result Error ℕ) → Item → Result (BuildError Error) Cell
  unfolding fallible
  as_converted f (json v) = fallible uint (f v)
  as_converted f i = wrong

  unfoldable pub as_timestamp : Item → Result (BuildError Error) Cell
  unfolding fallible convert_syslog_timestamp
  as_timestamp (json v) = unless_panic (convert_syslog_timestamp C v) >>= fallible uint
  as_timestamp i = wrong

  unfoldable pub as_datetime : Item → Result (BuildError Error) Cell
  as_datetime (time nanos) = map_ok uint (unless_panic (convert_datetime_to_usec nanos))
  as_datetime i = wrong

  -- An expression in a scope, for a column of the kind `k`. `?` returns from the function, also
  -- inside the argument of `or`.
  unfoldable pub eval :
      (Accessor → Option Item) → Kind → Expr → Result (BuildError Error) (Option Cell)
  unfolding as_cell as_primitive as_converted as_timestamp as_datetime convert_primitive
      convert_float_sec_to_usec convert_hex_to_uint convert_datetime_to_usec
  eval scope k (access a) = transpose (option_map as_cell (scope a))
  eval scope k (primitive a) = transpose (option_map (as_primitive k) (scope a))
  eval scope k (convert_float_sec a) =
      transpose (option_map (as_converted (convert_float_sec_to_usec C)) (scope a))
  eval scope k (convert_hex a) =
      transpose (option_map (as_converted (convert_hex_to_uint C)) (scope a))
  eval scope k (convert_timestamp a) = transpose (option_map as_timestamp (scope a))
  eval scope k (convert_datetime a) = transpose (option_map as_datetime (scope a))
  eval scope k (or_expr e f) = eval scope k e >>= (λ x. map_ok (or x) (eval scope k f))
  eval scope k none_expr = ok none

  -- The struct literal: the fields' expressions in order.
  unfoldable pub build :
      (Accessor → Option Item)
      → Bool
      → List (Field × List FieldValueConversion)
      → Result (BuildError Error) Document
  unfolding eval constructor_expr
  build scope syslog [] = ok []
  build scope syslog ((f, sources) ∷ fs) =
      eval scope f.kind (constructor_expr sources syslog)
      >>= (λ c. map_ok (λ doc. (f.ident, c) ∷ doc) (build scope syslog fs))

  unfoldable pub gelf_scope : GelfMessage (Value Number Rest) → Accessor → Option Item
  unfolding lookup text_eq
  gelf_scope msg (gelf_string field) =
      if text_eq field (codes "version")
      then some (json (string msg.version))
      else if text_eq field (codes "host")
      then some (json (string msg.host))
      else if text_eq field (codes "short_message")
      then some (json (string msg.short_message))
      else none
  gelf_scope msg (gelf_other field) = option_map json (lookup field msg.other)
  gelf_scope msg (map_to_value a) = option_map (λ i. boxed) (gelf_scope msg a)
  gelf_scope msg (syslog_some field) = none
  gelf_scope msg (syslog_into field) = none

  module _ (Time : Type 0) (timestamp_nanos : Time → Option ℤ) where
    unfoldable pub some_field : SyslogMessage Time → Bytes → Option Item
    unfolding text_eq
    some_field msg field =
        if text_eq field (codes "priority")
        then some (cell (uint msg.priority))
        else if text_eq field (codes "facility")
        then some (cell (text msg.facility))
        else if text_eq field (codes "source_timestamp")
        then some (time (timestamp_nanos msg.source_timestamp))
        else if text_eq field (codes "message")
        then some (cell (text msg.message))
        else if text_eq field (codes "full_message")
        then some (cell (text msg.full_message))
        else none

    unfoldable pub optional_field : SyslogMessage Time → Bytes → Option Item
    unfolding text_eq
    optional_field msg field =
        if text_eq field (codes "hostname")
        then option_map (λ s. cell (text s)) msg.hostname
        else if text_eq field (codes "identifier")
        then option_map (λ s. cell (text s)) msg.identifier
        else if text_eq field (codes "pid")
        then option_map (λ n. cell (uint n)) msg.pid
        else none

    unfoldable pub syslog_scope : SyslogMessage Time → Accessor → Option Item
    unfolding some_field optional_field
    syslog_scope msg (syslog_some field) = some_field msg field
    syslog_scope msg (syslog_into field) = optional_field msg field
    syslog_scope msg (map_to_value a) = option_map (λ i. boxed) (syslog_scope msg a)
    syslog_scope msg (gelf_string field) = none
    syslog_scope msg (gelf_other field) = none
