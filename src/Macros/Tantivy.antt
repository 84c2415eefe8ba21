-- ===== src/Macros/Tantivy.antt =====
-- `tantivy_schema`, as the derive generates it, beside `quickwit_mapping`.
use yaffle.Base.{
  ◌≡◌, refl, Bool, true, false, ◌&&◌, List, [], ◌∷◌, Option, none, some, Bytes, map, text_eq, codes,
  if◌then◌else◌,
}
use yaffle.Macros.Attributes.{
  TantivyType, string, text, u64, i64, timestamp, fast_timestamp, json_object,
}
use yaffle.Macros.Mapping.{
  FieldMapping, quickwit_field, mapping_with, Tokenizer, raw, RecordOption, position,
}

-- what is added to the schema builder
pub data FieldType : Type 0 where
  text_field u64_field i64_field date_field json_field : FieldType

-- `STRING`, `TEXT`, and `INDEXED` with `FAST` or without
pub data Indexing : Type 0 where
  as_string as_text indexed indexed_fast : Indexing

-- a field, which is `STORED`
pub record Entry : Type 0 where
  pub name : Bytes
  pub type_ : FieldType
  pub indexing : Indexing

unfoldable pub tantivy_field : Bytes × TantivyType → Entry
tantivy_field (field, string) = record { name = field; type_ = text_field; indexing = as_string }
tantivy_field (field, text) = record { name = field; type_ = text_field; indexing = as_text }
tantivy_field (field, u64) = record { name = field; type_ = u64_field; indexing = indexed }
tantivy_field (field, i64) = record { name = field; type_ = i64_field; indexing = indexed }
tantivy_field (field, timestamp) = record { name = field; type_ = date_field; indexing = indexed }
tantivy_field (field, fast_timestamp) = record {
  name = field;
  type_ = date_field;
  indexing = indexed_fast;
}
tantivy_field (field, json_object) = record { name = field; type_ = json_field; indexing = indexed }

unfoldable pub tantivy_schema : List (Bytes × TantivyType) → List Entry
unfolding tantivy_field
tantivy_schema tantivy_fields = map tantivy_field tantivy_fields

-- The entry that Quickwit's documentation gives a mapping: a text is one term under the tokenizer
-- `raw`, and is tokenized with positions under the record option `position`.
abbrev text_indexing : Option Tokenizer → Option RecordOption → Option Indexing
text_indexing (some raw) none = some as_string
text_indexing none (some position) = some as_text
text_indexing _ _ = none

abbrev number_indexing : Bool → Indexing
number_indexing true = indexed_fast
number_indexing false = indexed

abbrev entry_with : Bytes → FieldType → Option Indexing → Option Entry
entry_with name t none = none
entry_with name t (some i) = some (record { name = name; type_ = t; indexing = i })

unfoldable pub mapping_entry : FieldMapping → Option Entry
unfolding text_eq
mapping_entry m =
    if m.stored && m.indexed
    then (if text_eq m.type_ (codes "text")
        then entry_with m.name text_field (text_indexing m.tokenizer m.index_record)
        else if text_eq m.type_ (codes "u64")
        then entry_with m.name u64_field (some (number_indexing m.fast))
        else if text_eq m.type_ (codes "i64")
        then entry_with m.name i64_field (some (number_indexing m.fast))
        else if text_eq m.type_ (codes "datetime")
        then entry_with m.name date_field (some (number_indexing m.fast))
        else if text_eq m.type_ (codes "json")
        then entry_with m.name json_field (some (number_indexing m.fast))
        else none)
    else none

field_entry : (f : Bytes × TantivyType) → mapping_entry (quickwit_field f) ≡ some (tantivy_field f)
unfolding mapping_entry quickwit_field mapping_with tantivy_field
field_entry (field, string) = refl
field_entry (field, text) = refl
field_entry (field, u64) = refl
field_entry (field, i64) = refl
field_entry (field, timestamp) = refl
field_entry (field, fast_timestamp) = refl
field_entry (field, json_object) = refl

-- The two schemas that the derive generates agree: read as entries of a tantivy schema, the
-- mappings for Quickwit are the entries of the schema, field by field in the same order.
pub quickwit-tantivy_schema :
    (tantivy_fields : List (Bytes × TantivyType))
    → map mapping_entry (map quickwit_field tantivy_fields)
      ≡ map some (tantivy_schema tantivy_fields)
unfolding tantivy_schema
quickwit-tantivy_schema [] = refl
quickwit-tantivy_schema (f ∷ fields) = rw (field_entry f, quickwit-tantivy_schema fields) refl
