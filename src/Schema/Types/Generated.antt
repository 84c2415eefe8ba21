-- ===== src/Schema/Types/Generated.antt =====
-- The generated `from_gelf` and `from_syslog` type check, and return columns of the fields' types.
use yaffle.Base.{
  ℕ, ◌≤◌, ◌≡◌, refl, ap, text_eq_iff, true, false, Option, none, some, Bytes, option_map, text_eq,
  codes, arith, bytes_eq,
}
use yaffle.Base.HashMap.{lookup}
use yaffle.Syslog.Number.{u64_max}
use yaffle.Gelf.Crates.{GelfMessage}
use yaffle.Syslog.Parsers.{SyslogMessage}
use yaffle.Macros.Attributes.{Kind, uint_kind, int_kind, string_kind}
use yaffle.Macros.Expr.{Accessor, gelf_string, gelf_other, syslog_some, syslog_into, map_to_value}
use yaffle.Schema.Convert.{Conversions, Value, uint, text, ℤ}
use yaffle.Schema.Build.{json, cell, gelf_scope, syslog_scope, some_field, optional_field}
use yaffle.Schema.Types.{
  IsI64, IsTyped, gives_value, is_field, is_datetime, all_type_check, DocumentResult,
}
use yaffle.Schema.Types.Converted.{AllOf}
use yaffle.Schema.Types.Sound.{IsJson, IsCell, IsTime, build-DocumentResult}
use yaffle.Schema.{from_gelf, from_syslog, document_schema}

gelf_types : all_type_check false document_schema.from_gelf_fields ≡ true
unfolding all_type_check document_schema
gelf_types = refl

syslog_types : all_type_check true document_schema.from_syslog_fields ≡ true
unfolding all_type_check document_schema
syslog_types = refl

-- the bounds of the number fields of `SyslogMessage`
pub record IsTypedMessage {Time : Type 0} (timestamp_nanos : Time → Option ℤ)
    (m : SyslogMessage Time) : Type 0 where
  pub priority_bound : m.priority ≤ u64_max
  pub pid_bound : (n : ℕ) → m.pid ≡ some n → n ≤ u64_max
  pub timestamp-IsI64 : AllOf IsI64 (timestamp_nanos m.source_timestamp)

-- a text is no other text
other_text : (f a b : Bytes) → text_eq f a ≡ true → text_eq f b ≡ text_eq a b
other_text f a b h = ap (λ s. text_eq s b) ((text_eq_iff f a).0 h)

AllOf-option_map :
    {A B : Type 0} (P : B → Type 0) (f : A → B) (o : Option A)
    → ((a : A) → o ≡ some a → P (f a))
    → AllOf P (option_map f o)
AllOf-option_map P f none h = tt
AllOf-option_map P f (some a) h = h a refl

module _ (C : Conversions) (W : IsTyped C) where
  open C use {Number, Rest}

  gelf-value :
      (msg : GelfMessage (Value Number Rest)) (a : Accessor)
      → gives_value a ≡ true
      → AllOf (IsJson C W) (gelf_scope C msg a)
  unfolding gelf_scope
  gelf-value msg (gelf_string f) h = ground arith
  gelf-value msg (gelf_other f) h =
      AllOf-option_map (IsJson C W) json (lookup f msg.other) (λ v e. tt)
  gelf-value msg (syslog_some f) h = tt
  gelf-value msg (syslog_into f) h = tt
  gelf-value msg (map_to_value a) h = cc h

  gelf-field :
      (msg : GelfMessage (Value Number Rest)) (k : Kind) (a : Accessor)
      → is_field k a ≡ true
      → AllOf (IsCell C W k) (gelf_scope C msg a)
  unfolding gelf_scope
  gelf-field msg k (gelf_string f) h = cc h
  gelf-field msg k (gelf_other f) h = cc h
  gelf-field msg k (syslog_some f) h = tt
  gelf-field msg k (syslog_into f) h = tt
  gelf-field msg k (map_to_value a) h = cc h

  gelf-datetime :
      (msg : GelfMessage (Value Number Rest)) (a : Accessor)
      → is_datetime a ≡ true
      → AllOf (IsTime C W) (gelf_scope C msg a)
  unfolding gelf_scope
  gelf-datetime msg (gelf_string f) h = cc h
  gelf-datetime msg (gelf_other f) h = cc h
  gelf-datetime msg (syslog_some f) h = tt
  gelf-datetime msg (syslog_into f) h = tt
  gelf-datetime msg (map_to_value a) h = cc h

  -- `from_gelf` returns a document in which every field of the struct has its column, in order and
  -- with a value of the field's type when it has one, or the error or panic of a conversion: none of the
  -- generated expressions is ill typed. The called conversions return values of their types.
  pub from_gelf-DocumentResult :
      (msg : GelfMessage (Value Number Rest))
      → DocumentResult document_schema.from_gelf_fields (from_gelf C msg)
  unfolding from_gelf
  from_gelf-DocumentResult msg =
      build-DocumentResult C W (gelf_scope C msg)
        (record {
          value-IsJson = gelf-value msg;
          field-IsCell = gelf-field msg;
          datetime-IsTime = gelf-datetime msg;
        })
        false document_schema.from_gelf_fields gelf_types

  module _ (Time : Type 0) (timestamp_nanos : Time → Option ℤ) (m : SyslogMessage Time)
      (T : IsTypedMessage timestamp_nanos m) where
    open T use {priority_bound, pid_bound, timestamp-IsI64}

    syslog-field :
        (k : Kind) (a : Accessor)
        → is_field k a ≡ true
        → AllOf (IsCell C W k) (syslog_scope C Time timestamp_nanos m a)
    unfolding syslog_scope some_field optional_field
    syslog-field k (gelf_string f) h = tt
    syslog-field k (gelf_other f) h = tt
    syslog-field k (map_to_value a) h = cc h
    syslog-field uint_kind (syslog_some f) h = ground (arith, priority_bound)
    syslog-field int_kind (syslog_some f) h = cc h
    syslog-field string_kind (syslog_some f) h = ground (
      arith,
      other_text f (codes "facility") (codes "priority"),
      other_text f (codes "message") (codes "priority"),
      other_text f (codes "message") (codes "facility"),
      other_text f (codes "message") (codes "source_timestamp"),
      other_text f (codes "full_message") (codes "priority"),
      other_text f (codes "full_message") (codes "facility"),
      other_text f (codes "full_message") (codes "source_timestamp"),
      other_text f (codes "full_message") (codes "message"),
    )
    syslog-field uint_kind (syslog_into f) h = ground (
      arith,
      other_text f (codes "pid") (codes "hostname"),
      other_text f (codes "pid") (codes "identifier"),
      AllOf-option_map (IsCell C W uint_kind) (λ n. cell (uint n)) m.pid (λ n e. pid_bound n e),
    )
    syslog-field int_kind (syslog_into f) h = cc h
    syslog-field string_kind (syslog_into f) h = ground (
      arith,
      AllOf-option_map (IsCell C W string_kind) (λ s. cell (text s)) m.hostname (λ s e. tt),
      AllOf-option_map (IsCell C W string_kind) (λ s. cell (text s)) m.identifier (λ s e. tt),
    )

    syslog-datetime :
        (a : Accessor)
        → is_datetime a ≡ true
        → AllOf (IsTime C W) (syslog_scope C Time timestamp_nanos m a)
    unfolding syslog_scope some_field
    syslog-datetime (gelf_string f) h = tt
    syslog-datetime (gelf_other f) h = tt
    syslog-datetime (syslog_some f) h = ground (
      arith,
      other_text f (codes "source_timestamp") (codes "priority"),
      other_text f (codes "source_timestamp") (codes "facility"),
      timestamp-IsI64,
    )
    syslog-datetime (syslog_into f) h = cc h
    syslog-datetime (map_to_value a) h = cc h

    syslog-value :
        (a : Accessor)
        → gives_value a ≡ true
        → AllOf (IsJson C W) (syslog_scope C Time timestamp_nanos m a)
    unfolding syslog_scope
    syslog-value (gelf_string f) h = tt
    syslog-value (gelf_other f) h = tt
    syslog-value (syslog_some f) h = cc h
    syslog-value (syslog_into f) h = cc h
    syslog-value (map_to_value a) h = cc h

    -- `from_syslog` returns a document in which every field of the struct has its column, in order
    -- and with a value of the field's type when it has one. The called conversions return values of
    -- their types, and the message's fields have theirs.
    pub from_syslog-DocumentResult :
        DocumentResult document_schema.from_syslog_fields (from_syslog C Time timestamp_nanos m)
    unfolding from_syslog
    from_syslog-DocumentResult =
        build-DocumentResult C W (syslog_scope C Time timestamp_nanos m)
          (record {
            value-IsJson = syslog-value;
            field-IsCell = syslog-field;
            datetime-IsTime = syslog-datetime;
          })
          true document_schema.from_syslog_fields syslog_types
