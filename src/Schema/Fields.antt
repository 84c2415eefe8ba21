-- ===== src/Schema/Fields.antt =====
-- `struct Document` of schema.rs: its fields, with the attributes that the derive reads.
mod Notation
pub mod Message
pub mod Journal
pub mod Object
use yaffle.Base.{List, [], ◌∷◌, ◌++◌, some, String, codes}
use yaffle.Macros.Attributes.{
  Field, Attribute, list_attr, value_attr, NestedMeta, path, name_value, Kind, uint_kind, int_kind,
  string_kind,
}
use Message.{message_fields}
use Journal.{journal_fields}
use Object.{object_fields}

unfoldable pub document_fields : List Field
unfolding message_fields journal_fields object_fields
document_fields = message_fields ++ (journal_fields ++ object_fields)
