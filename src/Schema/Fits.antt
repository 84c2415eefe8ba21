-- ===== src/Schema/Fits.antt =====
-- The columns of a document of schema.rs beside the field mappings of the index: what a column holds,
-- and what its mapping stores.
pub mod Hostname
use yaffle.Base.{
  ◌≡◌, refl, sym, ap, subst, ◌∙◌, Bool, true, false, ◌&&◌, List, [], ◌∷◌, Option, none, some, Bytes,
  ok, text_eq, text_eq_iff, bytes_eq, codes, arith, Bool-cases, inl, inr, if◌then◌else◌,
  Option-cases,
}
use yaffle.Base.HashMap.{lookup, lookup-insert}
use yaffle.Gelf.Crates.{GelfMessage}
use yaffle.Syslog.Parsers.{SyslogMessage}
use yaffle.Macros.Attributes.{
  Kind, uint_kind, int_kind, string_kind, Field, FieldValueConversion, TantivyType,
}
use yaffle.Macros.Mapping.{FieldMapping, quickwit_field}
use yaffle.Schema.Convert.{Conversions, Value, Cell, ℤ}
use yaffle.Schema.Build.{Document, column, do_reverse_dns}
use yaffle.Schema.Types.{IsTyped, HasKind, OptionHasKind, HasColumns, DocumentResult}
use yaffle.Schema.Types.Generated.{
  IsTypedMessage, from_gelf-DocumentResult, from_syslog-DocumentResult,
}
use yaffle.Schema.Mapped.{mappings_of, quickwit_mapping_unique}
use yaffle.Schema.{document_schema, quickwit_mapping, from_gelf, from_syslog}

-- what Quickwit stores under a type of its mapping: a date is given as a Unix timestamp
abbrev pub stored_kind : Bytes → Option Kind
stored_kind type_ =
    if text_eq type_ (codes "text")
    then some string_kind
    else if text_eq type_ (codes "u64")
    then some uint_kind
    else if text_eq type_ (codes "i64")
    then some int_kind
    else if text_eq type_ (codes "datetime")
    then some uint_kind
    else none

-- The mapping `m` stores the value `c`.
abbrev pub Stores : FieldMapping → Cell → Type 0
Stores m c = (k : Kind) × (stored_kind m.type_ ≡ some k) × HasKind k c

same_kind : Kind → Kind → Bool
same_kind uint_kind uint_kind = true
same_kind uint_kind int_kind = false
same_kind uint_kind string_kind = false
same_kind int_kind uint_kind = false
same_kind int_kind int_kind = true
same_kind int_kind string_kind = false
same_kind string_kind uint_kind = false
same_kind string_kind int_kind = false
same_kind string_kind string_kind = true

same_kind_lem : (k l : Kind) → same_kind k l ≡ true → k ≡ l
unfolding same_kind
same_kind_lem uint_kind uint_kind h = refl
same_kind_lem uint_kind int_kind h = cc h
same_kind_lem uint_kind string_kind h = cc h
same_kind_lem int_kind uint_kind h = cc h
same_kind_lem int_kind int_kind h = refl
same_kind_lem int_kind string_kind h = cc h
same_kind_lem string_kind uint_kind h = cc h
same_kind_lem string_kind int_kind h = cc h
same_kind_lem string_kind string_kind h = refl

abbrev stores_kind : Option Kind → Kind → Bool
stores_kind none k = false
stores_kind (some l) k = same_kind l k

-- the field's column, if it is stored, is stored as what the field holds
abbrev field_fits : Field → Option TantivyType → Bool
field_fits f none = true
field_fits f (some t) = stores_kind (stored_kind (quickwit_field (f.ident, t)).type_) f.kind

all_fit : List (Field × List FieldValueConversion) → Bool
all_fit [] = true
all_fit ((f, sources) ∷ fs) =
    field_fits f (lookup f.ident document_schema.tantivy_fields) && all_fit fs

gelf_fits : all_fit document_schema.from_gelf_fields ≡ true
unfolding all_fit document_schema quickwit_field lookup text_eq same_kind
gelf_fits = refl

syslog_fits : all_fit document_schema.from_syslog_fields ≡ true
unfolding all_fit document_schema quickwit_field lookup text_eq same_kind
syslog_fits = refl

stored_kind_lem :
    (f : Field) (t : TantivyType) (c : Cell)
    → field_fits f (some t) ≡ true
    → HasKind f.kind c
    → Stores (quickwit_field (f.ident, t)) c
stored_kind_lem f t c fits has =
    elim (Option-cases (stored_kind (quickwit_field (f.ident, t)).type_)) [
      | inl none_stored ↦ cc (fits, ap (λ o. stores_kind o f.kind) none_stored)
      | inr (k, stored) ↦
          let same : same_kind k f.kind ≡ true = cc (fits, ap (λ o. stores_kind o f.kind) stored) in
          (k, stored, rw (same_kind_lem k f.kind same) has)
    ]

columns-Stores :
    (fs : List (Field × List FieldValueConversion)) (doc : Document) (n : Bytes) (t : TantivyType)
    (c : Cell)
    → HasColumns fs doc
    → all_fit fs ≡ true
    → lookup n document_schema.tantivy_fields ≡ some t
    → column n doc ≡ some c
    → Stores (quickwit_field (n, t)) c
unfolding all_fit lookup
columns-Stores [] [] n t c has fits there e = cc e
columns-Stores [] (x ∷ doc) n t c has fits there e = absurd has
columns-Stores (f ∷ fs) [] n t c has fits there e = absurd has
columns-Stores ((f, sources) ∷ fs) ((m, o) ∷ doc) n t c (name, holds, rest) fits there e =
    elim (Bool-cases (text_eq m n)) [
      | inl same ↦
          let id : f.ident ≡ n = sym name ∙ (text_eq_iff m n).0 same in
          let held : o ≡ some c = ground (arith, same, e) in
          let typed : lookup f.ident document_schema.tantivy_fields ≡ some t =
            ap (λ x. lookup x document_schema.tantivy_fields) id ∙ there in
          subst (λ x. Stores (quickwit_field (x, t)) c) id
            (stored_kind_lem f t c (ground (arith, ap (field_fits f) typed))
              (subst (OptionHasKind f.kind) held holds))
      | inr other ↦ columns-Stores fs doc n t c rest (ground arith) there (ground (arith, other))
    ]

-- A document that is received, and a column of it that has a storage type: the index has one mapping
-- for it, which stores the column's value.
abbrev pub IsStored : Document → Type 0
IsStored doc =
    (n : Bytes) (t : TantivyType) (c : Cell)
    → lookup n document_schema.tantivy_fields ≡ some t
    → column n doc ≡ some c
    → (m : FieldMapping) × (mappings_of n quickwit_mapping ≡ m ∷ []) × Stores m c

HasColumns-IsStored :
    (fs : List (Field × List FieldValueConversion)) (doc : Document)
    → all_fit fs ≡ true
    → HasColumns fs doc
    → IsStored doc
HasColumns-IsStored fs doc fits has n t c there e = (
  quickwit_field (n, t),
  quickwit_mapping_unique n t there,
  columns-Stores fs doc n t c has fits there e,
)

module _ (C : Conversions) (W : IsTyped C) where
  -- In a document that `from_gelf` returns, every column with a storage type and a value has exactly
  -- one mapping in the index that the server makes, and that mapping stores values of its type. The
  -- called conversions return values of their types.
  pub from_gelf-IsStored :
      (msg : GelfMessage (Value C.Number C.Rest)) (doc : Document)
      → from_gelf C msg ≡ ok doc
      → IsStored doc
  from_gelf-IsStored msg doc e =
      HasColumns-IsStored document_schema.from_gelf_fields doc gelf_fits (
        subst (DocumentResult document_schema.from_gelf_fields) e
          (from_gelf-DocumentResult C W msg))

  -- The same for a document that `from_syslog` returns of a message whose fields have their types.
  pub from_syslog-IsStored :
      (Time : Type 0) (timestamp_nanos : Time → Option ℤ) (m : SyslogMessage Time) (doc : Document)
      → IsTypedMessage timestamp_nanos m
      → from_syslog C Time timestamp_nanos m ≡ ok doc
      → IsStored doc
  from_syslog-IsStored Time timestamp_nanos m doc typed e =
      HasColumns-IsStored document_schema.from_syslog_fields doc syslog_fits (
        subst (DocumentResult document_schema.from_syslog_fields) e
          (from_syslog-DocumentResult C W Time timestamp_nanos m typed))
