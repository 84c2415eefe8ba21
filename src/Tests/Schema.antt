-- ===== src/Tests/Schema.antt =====
-- The theorems on documents at a schema whose numbers are natural numbers.
use yaffle.Base.{
  ℕ, ◌≡◌, refl, false, [], ◌∷◌, ◌++◌, none, some, Result, ok, err, codes, bytes_eq, drop, get_or,
}
use yaffle.Gelf.Crates.{GelfMessage}
use yaffle.Syslog.Parsers.{SyslogMessage}
use yaffle.Macros.Attributes.{
  Kind, uint_kind, int_kind, string_kind, Field, float_sec_to_usec, no_conversion,
}
use yaffle.Macros.Expr.{conversion_expr}
use yaffle.Syslog.Number.{parse_uint}
use yaffle.Schema.Fields.{document_fields}
use yaffle.Schema.Convert.{Conversions, Value, number, string, Cell, uint, text, pos}
use yaffle.Schema.Build.{Document, BuildError, failed, eval, gelf_scope}
use yaffle.Schema.Build.Sources.{Fails}
use yaffle.Schema.Build.Columns.{Filled}
use yaffle.Schema.{from_gelf, document_schema}
use yaffle.Schema.Received.{from_gelf-refused, from_gelf-Filled}

abbrev pub from_number : Kind → Value ℕ Unit → Result ℕ Cell
from_number uint_kind (number n) = ok (uint n)
from_number int_kind (number n) = ok (Cell.int (pos n))
from_number string_kind (string s) = ok (text s)
from_number _ _ = err 1

abbrev pub naturals : Conversions
naturals = record {
  Number = ℕ;
  Rest = Unit;
  Float = ℕ;
  Error = ℕ;
  from_value = from_number;
  as_f64 = some;
  as_u64 = some;
  parse_f64 = λ s. err 2;
  usec = λ v. v;
  rfc3339_nanos = λ s. err 3;
  rfc2822_nanos = λ s. err 4;
  this_year_nanos = λ s. ok (some (pos 7000));
  trim = λ s. s;
  parse_error = λ e. 5;
  cannot_represent = λ n. 6;
  cannot_convert = λ v. 7;
}

abbrev pub heard : SyslogMessage ℕ
heard = record {
  priority = 3;
  facility = codes "mail";
  source_timestamp = 5000;
  hostname = none;
  identifier = some (codes "su");
  pid = none;
  message = codes "hi";
  full_message = codes "<3>hi";
}

-- a good `timestamp`, and a second source of the same column that is no number
abbrev pub two_stamps : GelfMessage (Value ℕ Unit)
two_stamps = record {
  version = codes "1.1";
  host = codes "web";
  short_message = codes "hi";
  other =
      (codes "timestamp", number 9) ∷ (codes "_SOURCE_REALTIME_TIMESTAMP", string (codes "?")) ∷ [];
}

abbrev stamp_field : Field
stamp_field = get_or document_fields 0 (record { ident = []; kind = uint_kind; attrs = [] })

stamp_sources :
    document_schema.from_gelf_fields
    ≡ []
      ++ ((
        stamp_field,
        (float_sec_to_usec (codes "timestamp") ∷ [])
            ++ (no_conversion (codes "_SOURCE_REALTIME_TIMESTAMP")
                ∷ no_conversion (codes "__SOURCE_REALTIME_TIMESTAMP")
                ∷ []),
      )
          ∷ drop 1 document_schema.from_gelf_fields)
unfolding document_schema document_fields
stamp_sources = refl

from_gelf-refused_example : Fails (from_gelf naturals two_stamps)
unfolding document_fields eval conversion_expr gelf_scope parse_uint
from_gelf-refused_example =
    from_gelf-refused naturals two_stamps [] (drop 1 document_schema.from_gelf_fields) stamp_field
      (float_sec_to_usec (codes "timestamp") ∷ [])
      (no_conversion (codes "__SOURCE_REALTIME_TIMESTAMP") ∷ [])
      (no_conversion (codes "_SOURCE_REALTIME_TIMESTAMP")) stamp_sources (failed 1, refl)

abbrev pub plain : GelfMessage (Value ℕ Unit)
plain = record {
  version = codes "1.1";
  host = codes "web";
  short_message = codes "hi";
  other = (codes "timestamp", number 9) ∷ [];
}

abbrev document_of : Result (BuildError ℕ) Document → Document
document_of (ok d) = d
document_of (err e) = []

from_gelf-Filled_example :
    Filled naturals
      (gelf_scope naturals plain)
      false
      document_schema.from_gelf_fields
      (document_of (from_gelf naturals plain))
unfolding from_gelf
from_gelf-Filled_example =
    from_gelf-Filled naturals plain (document_of (from_gelf naturals plain)) refl
