-- ===== src/Schema/Received.antt =====
-- Documents from received messages.
use yaffle.Base.{
  Option, ℕ, ◌≡◌, refl, sym, subst, ◌++◌, false, none, some, err, List, ◌∷◌, ok, option_map, codes,
  text_eq, bytes_eq,
}
use yaffle.Base.HashMap.{lookup}
use yaffle.Gelf.Crates.{GelfMessage}
use yaffle.Syslog.Parsers.{SyslogMessage}
use yaffle.Macros.Attributes.{derive_schema, Field, FieldValueConversion}
use yaffle.Macros.Expr.{constructor_expr, conversion_expr}
use yaffle.Schema.Fields.{document_fields}
use yaffle.Schema.Convert.{Conversions, Value, uint, text, ℤ, convert_datetime_to_usec}
use yaffle.Schema.Build.{
  Document, panicked, column, eval, build, syslog_scope, gelf_scope, transpose-text, transpose-uint,
}
use yaffle.Schema.Build.Sources.{Fails}
use yaffle.Schema.Build.Columns.{Filled, build-refused, build-Filled}
use yaffle.Schema.{from_gelf, from_syslog, document_schema}

module _ (C : Conversions) (Time : Type 0) (timestamp_nanos : Time → Option ℤ) where
  open C use {Error}

  -- Every syslog message whose time has a number of nanoseconds becomes a document: its time in
  -- microseconds, host, text, priority, whole text, facility, identifier and process id are in the
  -- columns with those names.
  pub from_syslog-total :
      (m : SyslogMessage Time) (usec : ℕ)
      → convert_datetime_to_usec (timestamp_nanos m.source_timestamp) ≡ some usec
      → (doc : Document) × (from_syslog C Time timestamp_nanos m ≡ ok doc)
        × (column (codes "source_timestamp") doc ≡ some (uint usec))
        × (column (codes "hostname") doc ≡ option_map text m.hostname)
        × (column (codes "message") doc ≡ some (text m.message))
        × (column (codes "priority") doc ≡ some (uint m.priority))
        × (column (codes "full_message") doc ≡ some (text m.full_message))
        × (column (codes "facility") doc ≡ some (text m.facility))
        × (column (codes "syslog_identifier") doc ≡ option_map text m.identifier)
        × (column (codes "syslog_pid") doc ≡ option_map uint m.pid)
  unfolding from_syslog document_schema derive_schema document_fields build eval constructor_expr
      syslog_scope lookup text_eq
  from_syslog-total m usec when = rw when (
      rw (transpose-text C m.hostname) (
        rw (transpose-text C m.identifier)
          (rw (transpose-uint C m.pid) (_, refl, refl, refl, refl, refl, refl, refl, refl, refl))))

  -- `timestamp_nanos` panics, and `from_syslog` with it.
  pub from_syslog-panics :
      (m : SyslogMessage Time)
      → convert_datetime_to_usec (timestamp_nanos m.source_timestamp) ≡ none
      → from_syslog C Time timestamp_nanos m ≡ err panicked
  unfolding from_syslog document_schema derive_schema document_fields build eval constructor_expr
      syslog_scope lookup text_eq
  from_syslog-panics m never = rw never refl

-- A GELF message becomes no document as soon as one source of one column is in it and its conversion
-- fails or panics, also if a source of that column before it is good.
pub from_gelf-refused :
    (C : Conversions) (msg : GelfMessage (Value C.Number C.Rest))
    (before after : List (Field × List FieldValueConversion)) (f : Field)
    (pre post : List FieldValueConversion) (s : FieldValueConversion)
    → document_schema.from_gelf_fields ≡ before ++ ((f, pre ++ (s ∷ post)) ∷ after)
    → Fails (eval C (gelf_scope C msg) f.kind (conversion_expr s false))
    → Fails (from_gelf C msg)
unfolding from_gelf
from_gelf-refused C msg before after f pre post s split bad =
    subst (λ fs. Fails (build C (gelf_scope C msg) false fs)) (sym split)
      (build-refused C (gelf_scope C msg) false before after f pre post s bad)

-- In a document from a GELF message each field of the struct has its column, in order, filled from
-- the first of its sources that is in the message; and every source that is there was converted.
pub from_gelf-Filled :
    (C : Conversions) (msg : GelfMessage (Value C.Number C.Rest)) (doc : Document)
    → from_gelf C msg ≡ ok doc
    → Filled C (gelf_scope C msg) false document_schema.from_gelf_fields doc
unfolding from_gelf
from_gelf-Filled C msg doc e =
    build-Filled C (gelf_scope C msg) false document_schema.from_gelf_fields doc e
