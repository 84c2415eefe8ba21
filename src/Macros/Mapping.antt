-- ===== src/Macros/Mapping.antt =====
-- `quickwit_mapping`, as the derive generates it, and the types of quickwit.rs that it fills.
pub mod Json
use yaffle.Base.{Bool, true, false, Option, none, some, List, [], ◌∷◌, Bytes, codes}
use yaffle.Macros.Attributes.{
  TantivyType, string, text, u64, i64, timestamp, fast_timestamp, json_object,
}

-- `enum Tokenizer`
pub data Tokenizer : Type 0 where
  default_tokenizer raw english_stem chinese_compatible : Tokenizer

-- `enum RecordOption`
pub data RecordOption : Type 0 where
  basic frequency position : RecordOption

-- `enum DatePrecision`
pub data DatePrecision : Type 0 where
  seconds milliseconds microseconds : DatePrecision

-- `enum DateOutputFormat`
pub data DateOutputFormat : Type 0 where
  unix_timestamp_secs unix_timestamp_millis unix_timestamp_micros : DateOutputFormat

-- `struct FieldMapping`
pub record FieldMapping : Type 0 where
  pub name : Bytes
  pub type_ : Bytes
  pub description : Option Bytes
  pub stored : Bool
  pub indexed : Bool
  pub tokenizer : Option Tokenizer
  pub index_record : Option RecordOption
  pub fieldnorms : Bool
  pub fast : Bool
  pub input_formats : List Bytes
  pub output_format : Option DateOutputFormat
  pub precision : Option DatePrecision

-- `FieldMapping::default` with the five fields that a mapping sets
unfoldable pub mapping_with :
    Bytes
    → Bytes
    → Option Tokenizer
    → Option RecordOption
    → Bool
    → List Bytes
    → Option DatePrecision
    → FieldMapping
mapping_with n t tok rec is_fast formats prec = record {
  name = n;
  type_ = t;
  description = none;
  stored = true;
  indexed = true;
  tokenizer = tok;
  index_record = rec;
  fieldnorms = false;
  fast = is_fast;
  input_formats = formats;
  output_format = none;
  precision = prec;
}

unfoldable pub quickwit_field : Bytes × TantivyType → FieldMapping
unfolding mapping_with
quickwit_field (n, string) = mapping_with n (codes "text") (some raw) none false [] none
quickwit_field (n, text) = mapping_with n (codes "text") none (some position) false [] none
quickwit_field (n, u64) = mapping_with n (codes "u64") none none false [] none
quickwit_field (n, i64) = mapping_with n (codes "i64") none none false [] none
quickwit_field (n, timestamp) =
    mapping_with n (codes "datetime") none none false (codes "unix_timestamp" ∷ [])
      (some microseconds)
quickwit_field (n, fast_timestamp) =
    mapping_with n (codes "datetime") none none true (codes "unix_timestamp" ∷ [])
      (some microseconds)
quickwit_field (n, json_object) = mapping_with n (codes "json") none none false [] none
