-- ===== src/Macros/Mapping/Json.antt =====
-- The JSON object of a field mapping, by the serde attributes of quickwit.rs: which entries it has,
-- under which names.
pub mod Restored
use yaffle.Base.{
  Bool, true, false, Option, none, some, option_map, List, [], ◌∷◌, Bytes, codes, map,
  if◌then◌else◌,
}
use yaffle.Base.HashMap.{HashMap}
use yaffle.Macros.Mapping.{
  Tokenizer, default_tokenizer, raw, english_stem, chinese_compatible, RecordOption, basic,
  frequency, position, DatePrecision, seconds, milliseconds, microseconds, DateOutputFormat,
  unix_timestamp_secs, unix_timestamp_millis, unix_timestamp_micros, FieldMapping,
}

-- the values of the object's entries
pub data Entry : Type 0 where
  text : Bytes → Entry
  flag : Bool → Entry
  texts : List Bytes → Entry

abbrev pub tokenizer_name : Tokenizer → Bytes
tokenizer_name default_tokenizer = codes "default"
tokenizer_name raw = codes "raw"
tokenizer_name english_stem = codes "en_stem"
tokenizer_name chinese_compatible = codes "chinese_compatible"

abbrev pub record_name : RecordOption → Bytes
record_name basic = codes "basic"
record_name frequency = codes "freq"
record_name position = codes "position"

abbrev pub precision_name : DatePrecision → Bytes
precision_name seconds = codes "seconds"
precision_name milliseconds = codes "milliseconds"
precision_name microseconds = codes "microseconds"

abbrev pub format_name : DateOutputFormat → Bytes
format_name unix_timestamp_secs = codes "unix_timestamp_secs"
format_name unix_timestamp_millis = codes "unix_timestamp_millis"
format_name unix_timestamp_micros = codes "unix_timestamp_micros"

-- `skip_serializing_if` with `Option::is_none`, `Clone::clone`, `std::ops::Not::not` and
-- `Vec::is_empty`
abbrev pub unless_none : {A : Type 0} → (A → Bytes) → Option A → Option Entry
unless_none name = option_map (λ a. text (name a))

abbrev pub unless_true : Bool → Option Entry
unless_true b = if b then none else some (flag b)

abbrev pub unless_false : Bool → Option Entry
unless_false b = if b then some (flag b) else none

abbrev pub unless_empty : List Bytes → Option Entry
unless_empty [] = none
unless_empty (s ∷ l) = some (texts (s ∷ l))

abbrev pub entries : FieldMapping → List (Bytes × Option Entry)
entries m =
    (codes "name", some (text m.name))
    ∷ (codes "type", some (text m.type_))
    ∷ (codes "description", unless_none (λ s. s) m.description)
    ∷ (codes "stored", unless_true m.stored)
    ∷ (codes "indexed", unless_true m.indexed)
    ∷ (codes "tokenizer", unless_none tokenizer_name m.tokenizer)
    ∷ (codes "record", unless_none record_name m.index_record)
    ∷ (codes "fieldnorms", unless_false m.fieldnorms)
    ∷ (codes "fast", unless_false m.fast)
    ∷ (codes "input_formats", unless_empty m.input_formats)
    ∷ (codes "output_format", unless_none format_name m.output_format)
    ∷ (codes "precision", unless_none precision_name m.precision)
    ∷ []

-- the entries that are not skipped
abbrev pub present : List (Bytes × Option Entry) → HashMap Bytes Entry
present [] = []
present ((k, none) ∷ l) = present l
present ((k, some e) ∷ l) = (k, e) ∷ present l

unfoldable pub serialize : FieldMapping → HashMap Bytes Entry
serialize m = present (entries m)

-- `FieldMapping::default()`
abbrev pub default_mapping : FieldMapping
default_mapping = record {
  name = [];
  type_ = [];
  description = none;
  stored = true;
  indexed = true;
  tokenizer = none;
  index_record = none;
  fieldnorms = false;
  fast = false;
  input_formats = [];
  output_format = none;
  precision = none;
}
