-- ===== src/Schema/Fits/Hostname.antt =====
-- `do_reverse_dns` of schema.rs beside the field mappings of the index.
use yaffle.Base.{
  ◌≡◌, refl, sym, ap, subst, ◌∙◌, Option, none, some, Bytes, text_eq, text_eq_iff, bytes_eq, codes,
  arith, Bool-cases, inl, inr, Option-cases,
}
use yaffle.Base.HashMap.{lookup, lookup-insert}
use yaffle.Macros.Attributes.{Kind, string_kind, TantivyType}
use yaffle.Macros.Mapping.{quickwit_field}
use yaffle.Schema.Convert.{Cell}
use yaffle.Schema.Build.{Document, column, do_reverse_dns}
use yaffle.Schema.Mapped.{quickwit_mapping_unique}
use yaffle.Schema.{document_schema}
use yaffle.Schema.Fits.{stored_kind, IsStored}

abbrev text_cell : Bytes → Cell
text_cell = Cell.text

abbrev column_kind : Bytes → Option TantivyType → Option Kind
column_kind n none = none
column_kind n (some t) = stored_kind (quickwit_field (n, t)).type_

hostname_kind :
    column_kind (codes "hostname") (lookup (codes "hostname") document_schema.tantivy_fields)
    ≡ some string_kind
unfolding document_schema quickwit_field lookup text_eq
hostname_kind = refl

hostname_stored :
    (n : Bytes) (t : TantivyType)
    → codes "hostname" ≡ n
    → lookup n document_schema.tantivy_fields ≡ some t
    → stored_kind (quickwit_field (n, t)).type_ ≡ some string_kind
hostname_stored n t id e =
    sym (ap (column_kind n) e)
    ∙ subst (λ x. column_kind x (lookup x document_schema.tantivy_fields) ≡ some string_kind) id
        hostname_kind

-- The name that reverse DNS puts in is stored too.
pub do_reverse_dns-IsStored :
    (source : Bytes) (doc : Document) → IsStored doc → IsStored (do_reverse_dns source doc)
unfolding do_reverse_dns
do_reverse_dns-IsStored source doc stored n t c there e =
    elim (Option-cases (column (codes "hostname") doc)) [
      | inr (old, named) ↦ stored n t c there (ground (arith, named, e))
      | inl missing ↦ elim (Bool-cases (text_eq (codes "hostname") n)) [
        | inr other ↦ stored n t c there (
            ground (
              arith,
              missing,
              e,
              other,
              lookup-insert (codes "hostname") n (some (text_cell source)) doc,
            ))
        | inl same ↦
            let id = (text_eq_iff (codes "hostname") n).0 same in
            let holds : c ≡ text_cell source = ground (
              arith,
              missing,
              e,
              same,
              lookup-insert (codes "hostname") n (some (text_cell source)) doc,
            ) in
            (
              quickwit_field (n, t),
              quickwit_mapping_unique n t there,
              (string_kind, hostname_stored n t id there, rw holds tt),
            )
      ]
    ]
