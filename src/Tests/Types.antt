-- ===== src/Tests/Types.antt =====
-- The types of the documents' columns, at conversions whose numbers are natural numbers.
use yaffle.Base.{
  ℕ, ◌≡◌, ◌^◌, ◌<◌, subst, [], Bytes, codes, none, some, Result, ok, err, arith, ltb, leb,
  if◌then◌else◌, min,
}
use yaffle.Syslog.Number.{u64_max}
use yaffle.Macros.Attributes.{Kind, uint_kind, int_kind, string_kind}
use yaffle.Schema.Convert.{
  Conversions, Value, number, string, other, Cell, uint, int, text, pos, convert_datetime_to_usec,
}
use yaffle.Schema.Types.{IsTyped, IsI64, HasKind, DocumentResult}
use yaffle.Schema.Types.Converted.{AllOf, Holds}
use yaffle.Schema.Types.Generated.{from_gelf-DocumentResult}
use yaffle.Schema.{from_gelf, from_syslog, document_schema}
use yaffle.Schema.Heard.{DocumentOutcome, parse_syslog-DocumentOutcome}
use yaffle.Syslog.Nom.{done}
use yaffle.Syslog.Parsers.{SyslogMessage, parse_syslog}
use yaffle.Tests.Nom.{readers, calendar}
use yaffle.Tests.Schema.{plain}

abbrev from_number : Kind → Value ℕ Unit → Result ℕ Cell
from_number uint_kind (number n) = if leb n u64_max then ok (uint n) else err 1
from_number int_kind (number n) = if ltb n (2 ^ 63) then ok (int (pos n)) else err 1
from_number string_kind (string s) = ok (text s)
from_number _ _ = err 1

abbrev pub clamped : Conversions
clamped = record {
  Number = ℕ;
  Rest = Unit;
  Float = ℕ;
  Error = ℕ;
  from_value = from_number;
  as_f64 = some;
  as_u64 = λ n. if leb n u64_max then some n else none;
  parse_f64 = λ s. err 2;
  usec = λ x. min x u64_max;
  rfc3339_nanos = λ s. err 3;
  rfc2822_nanos = λ s. err 4;
  this_year_nanos = λ s. ok (some (pos 7000));
  trim = λ s. s;
  parse_error = λ e. 5;
  cannot_represent = λ n. 6;
  cannot_convert = λ v. 7;
}

from_number-Holds : (k : Kind) (v : Value ℕ Unit) → Holds (HasKind k) (from_number k v)
from_number-Holds uint_kind (number n) = ground arith
from_number-Holds int_kind (number n) = ground arith
from_number-Holds string_kind (number n) = tt
from_number-Holds uint_kind (string s) = tt
from_number-Holds int_kind (string s) = tt
from_number-Holds string_kind (string s) = tt
from_number-Holds uint_kind (other r) = tt
from_number-Holds int_kind (other r) = tt
from_number-Holds string_kind (other r) = tt

pub clamped-IsTyped : IsTyped clamped
clamped-IsTyped = record {
  from_value-HasKind = λ k v c e. subst (Holds (HasKind k)) e (from_number-Holds k v);
  as_u64_bound = λ n m e. ground arith;
  usec_bound = λ x. omega arith;
  rfc3339-IsI64 = λ s t e. cc e;
  rfc2822-IsI64 = λ s t e. cc e;
  this_year-IsI64 = λ s t e. subst (Holds (AllOf IsI64)) e seven_thousand;
}
  where
    seven_thousand : 7000 < 2 ^ 63
    seven_thousand = omega arith

from_gelf-DocumentResult_example :
    DocumentResult document_schema.from_gelf_fields (from_gelf clamped plain)
from_gelf-DocumentResult_example = from_gelf-DocumentResult clamped clamped-IsTyped plain

parse_syslog-DocumentOutcome_example :
    (m : SyslogMessage Bytes) × (parse_syslog readers calendar 2024 2024 (codes "hello")
      ≡ done [] m)
    × DocumentOutcome
        (convert_datetime_to_usec (some (pos 5000)))
        (from_syslog clamped Bytes (λ t. some (pos 5000)) m)
parse_syslog-DocumentOutcome_example =
    parse_syslog-DocumentOutcome readers calendar clamped clamped-IsTyped (λ t. some (pos 5000))
      2024 2024 (codes "hello") (λ t. fits)
  where
    fits : 5000 < 2 ^ 63
    fits = omega arith
