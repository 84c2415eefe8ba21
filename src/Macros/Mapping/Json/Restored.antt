-- ===== src/Macros/Mapping/Json/Restored.antt =====
-- The JSON object of a field mapping of quickwit.rs, read back with `FieldMapping::default()` for what
-- it leaves out.
use yaffle.Base.{
  ◌≡◌, refl, ◌∙◌, Bool, true, false, not, ◌&&◌, Option, none, some, unwrap_or, List, [], ◌∷◌, Bytes,
  codes, text_eq, text_eq_iff, bytes_eq, arith, if◌then◌else◌,
}
use yaffle.Base.HashMap.{HashMap, lookup}
use yaffle.Macros.Mapping.{
  Tokenizer, default_tokenizer, raw, english_stem, chinese_compatible, RecordOption, basic,
  frequency, position, DatePrecision, seconds, milliseconds, microseconds, DateOutputFormat,
  unix_timestamp_secs, unix_timestamp_millis, unix_timestamp_micros, FieldMapping,
}
use yaffle.Macros.Mapping.Json.{
  Entry, text, flag, texts, tokenizer_name, record_name, precision_name, format_name, entries,
  unless_none, unless_true, unless_false, unless_empty, present, serialize, default_mapping,
}

-- A reader that takes the default for an entry that is missing, or that it does not know.
abbrev read_text : Bytes → Option Entry → Bytes
read_text d (some (text s)) = s
read_text d _ = d

abbrev read_flag : Bool → Option Entry → Bool
read_flag d (some (flag b)) = b
read_flag d _ = d

abbrev read_texts : List Bytes → Option Entry → List Bytes
read_texts d (some (texts l)) = l
read_texts d _ = d

-- the value of this name among `values`
abbrev named : {A : Type 0} → List (Bytes × A) → Option A → Bytes → Option A
named [] d s = d
named ((n, a) ∷ values) d s = if text_eq n s then some a else named values d s

abbrev read_name : {A : Type 0} → List (Bytes × A) → Option A → Option Entry → Option A
read_name values d (some (text s)) = named values d s
read_name values d _ = d

abbrev read_option : Option Bytes → Option Entry → Option Bytes
read_option d (some (text s)) = some s
read_option d _ = d

abbrev tokenizers : List (Bytes × Tokenizer)
tokenizers =
    (codes "default", default_tokenizer)
    ∷ (codes "raw", raw)
    ∷ (codes "en_stem", english_stem)
    ∷ (codes "chinese_compatible", chinese_compatible)
    ∷ []

abbrev records : List (Bytes × RecordOption)
records = (codes "basic", basic) ∷ (codes "freq", frequency) ∷ (codes "position", position) ∷ []

abbrev precisions : List (Bytes × DatePrecision)
precisions =
    (codes "seconds", seconds)
    ∷ (codes "milliseconds", milliseconds)
    ∷ (codes "microseconds", microseconds)
    ∷ []

abbrev formats : List (Bytes × DateOutputFormat)
formats =
    (codes "unix_timestamp_secs", unix_timestamp_secs)
    ∷ (codes "unix_timestamp_millis", unix_timestamp_millis)
    ∷ (codes "unix_timestamp_micros", unix_timestamp_micros)
    ∷ []

-- A mapping is read from what is found under each name.
abbrev read_by : (Bytes → Option Entry) → FieldMapping
read_by find = record {
  name = read_text default_mapping.name (find (codes "name"));
  type_ = read_text default_mapping.type_ (find (codes "type"));
  description = read_option default_mapping.description (find (codes "description"));
  stored = read_flag default_mapping.stored (find (codes "stored"));
  indexed = read_flag default_mapping.indexed (find (codes "indexed"));
  tokenizer = read_name tokenizers default_mapping.tokenizer (find (codes "tokenizer"));
  index_record = read_name records default_mapping.index_record (find (codes "record"));
  fieldnorms = read_flag default_mapping.fieldnorms (find (codes "fieldnorms"));
  fast = read_flag default_mapping.fast (find (codes "fast"));
  input_formats = read_texts default_mapping.input_formats (find (codes "input_formats"));
  output_format = read_name formats default_mapping.output_format (find (codes "output_format"));
  precision = read_name precisions default_mapping.precision (find (codes "precision"));
}

unfoldable pub restore : HashMap Bytes Entry → FieldMapping
unfolding lookup text_eq
restore object = read_by (λ name. lookup name object)

abbrev absent : Bytes → List (Bytes × Option Entry) → Bool
absent name [] = true
absent name ((k, e) ∷ l) = not (text_eq k name) && absent name l

distinct : List (Bytes × Option Entry) → Bool
distinct [] = true
distinct ((k, e) ∷ l) = absent k l && distinct l

-- what an entry is, whether it is skipped or not
abbrev find : List (Bytes × Option Entry) → Bytes → Option Entry
find l name = unwrap_or none (lookup name l)

lookup-absent :
    (name : Bytes) (l : List (Bytes × Option Entry))
    → absent name l ≡ true
    → lookup name (present l) ≡ none
unfolding lookup
lookup-absent name [] h = refl
lookup-absent name ((k, none) ∷ l) h = lookup-absent name l (ground arith)
lookup-absent name ((k, some e) ∷ l) h = ground (arith, lookup-absent name l)

lookup-present :
    (l : List (Bytes × Option Entry))
    → distinct l ≡ true
    → (name : Bytes) → lookup name (present l) ≡ find l name
unfolding lookup distinct
lookup-present [] h name = refl
lookup-present ((k, none) ∷ l) h name =
    ground (arith, text_eq_iff k name, lookup-present l (ground arith) name, lookup-absent name l)
lookup-present ((k, some e) ∷ l) h name = ground (arith, lookup-present l (ground arith) name)

entries-distinct : (m : FieldMapping) → distinct (entries m) ≡ true
unfolding distinct text_eq
entries-distinct m = refl

text-restored : (o : Option Bytes) → read_option none (unless_none (λ s. s) o) ≡ o
text-restored none = refl
text-restored (some s) = refl

true-restored : (b : Bool) → read_flag true (unless_true b) ≡ b
true-restored true = refl
true-restored false = refl

false-restored : (b : Bool) → read_flag false (unless_false b) ≡ b
false-restored true = refl
false-restored false = refl

texts-restored : (l : List Bytes) → read_texts [] (unless_empty l) ≡ l
texts-restored [] = refl
texts-restored (s ∷ l) = refl

tokenizer-restored :
    (o : Option Tokenizer) → read_name tokenizers none (unless_none tokenizer_name o) ≡ o
unfolding text_eq
tokenizer-restored none = refl
tokenizer-restored (some default_tokenizer) = refl
tokenizer-restored (some raw) = refl
tokenizer-restored (some english_stem) = refl
tokenizer-restored (some chinese_compatible) = refl

record-restored : (o : Option RecordOption) → read_name records none (unless_none record_name o) ≡ o
unfolding text_eq
record-restored none = refl
record-restored (some basic) = refl
record-restored (some frequency) = refl
record-restored (some position) = refl

precision-restored :
    (o : Option DatePrecision) → read_name precisions none (unless_none precision_name o) ≡ o
unfolding text_eq
precision-restored none = refl
precision-restored (some seconds) = refl
precision-restored (some milliseconds) = refl
precision-restored (some microseconds) = refl

format-restored :
    (o : Option DateOutputFormat) → read_name formats none (unless_none format_name o) ≡ o
unfolding text_eq
format-restored none = refl
format-restored (some unix_timestamp_secs) = refl
format-restored (some unix_timestamp_millis) = refl
format-restored (some unix_timestamp_micros) = refl

-- Reading the JSON object of a mapping with the default mapping's values for the entries that it does
-- not have gives the mapping back: the entries that are skipped are exactly at their defaults, and
-- the names of the choices are distinct.
pub restore-serialize : (m : FieldMapping) → restore (serialize m) ≡ m
unfolding restore serialize
restore-serialize m =
    (λ i. read_by (λ name. lookup-present (entries m) (entries-distinct m) name i)) ∙ (λ i.
      record m {
        description = text-restored m.description i;
        stored = true-restored m.stored i;
        indexed = true-restored m.indexed i;
        tokenizer = tokenizer-restored m.tokenizer i;
        index_record = record-restored m.index_record i;
        fieldnorms = false-restored m.fieldnorms i;
        fast = false-restored m.fast i;
        input_formats = texts-restored m.input_formats i;
        output_format = format-restored m.output_format i;
        precision = precision-restored m.precision i;
      })
