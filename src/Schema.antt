-- ===== src/Schema.antt =====
-- schema.rs of yaffle-server: the fields of a document, and how a received message becomes one.
pub mod Fields
pub mod Convert
pub mod Build
pub mod Types
pub mod Received
pub mod Line
pub mod Mapped
pub mod Fits
pub mod Heard
use yaffle.Base.{
  List, [], ◌∷◌, ◌++◌, Option, Bool, true, false, Bytes, Result, unwrap_or, text_eq, bytes_eq, map,
}
use yaffle.Base.HashMap.{insert}
use yaffle.Gelf.Crates.{GelfMessage}
use yaffle.Syslog.Parsers.{SyslogMessage}
use yaffle.Macros.Attributes.{Derived, derive_schema}
use yaffle.Macros.Mapping.{FieldMapping, quickwit_field}
use Fields.{document_fields}
use Convert.{Conversions, Value, ℤ}
use Build.{Document, BuildError, build, gelf_scope, syslog_scope}

-- What the derive reads of `Document`; no fields stand for the derive's panic.
unfoldable pub document_schema : Derived
unfolding document_fields derive_schema insert text_eq
document_schema =
    unwrap_or
      (record {
        from_gelf_fields = [];
        from_syslog_fields = [];
        tantivy_fields = [];
        format_options = [];
      })
      (derive_schema document_fields)

unfoldable pub quickwit_mapping : List FieldMapping
unfolding document_schema quickwit_field
quickwit_mapping = map quickwit_field document_schema.tantivy_fields

module _ (C : Conversions) where
  open C use {Number, Rest, Error}

  unfoldable pub from_gelf : GelfMessage (Value Number Rest) → Result (BuildError Error) Document
  unfolding document_schema gelf_scope build
  from_gelf gelf_msg = build C (gelf_scope C gelf_msg) false document_schema.from_gelf_fields

  module _ (Time : Type 0) (timestamp_nanos : Time → Option ℤ) where
    unfoldable pub from_syslog : SyslogMessage Time → Result (BuildError Error) Document
    unfolding document_schema syslog_scope build
    from_syslog syslog_msg =
        build C (syslog_scope C Time timestamp_nanos syslog_msg) true
          document_schema.from_syslog_fields
