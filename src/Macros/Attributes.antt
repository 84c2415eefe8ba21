-- ===== src/Macros/Attributes.antt =====
-- The attributes of a struct's fields, as yaffle-macros/src/lib.rs reads them.
use yaffle.Base.{
  Option, none, some, List, [], ◌∷◌, ◌++◌, Bytes, and_then, option_map, text_eq, if◌then◌else◌,
  codes, bytes_eq,
}
use yaffle.Base.HashMap.{HashMap, insert}

-- `enum FieldValueConversion`, each with the name of the source field
pub data FieldValueConversion : Type 0 where
  no_conversion float_sec_to_usec hex_to_uint syslog_timestamp datetime_to_usec :
      (field : Bytes) → FieldValueConversion

unfoldable pub conversion_from_attribute : Bytes → Bytes → Option FieldValueConversion
unfolding text_eq
conversion_from_attribute fieldname conversion =
    if text_eq conversion (codes "none")
    then some (no_conversion fieldname)
    else if text_eq conversion (codes "float_sec_to_usec")
    then some (float_sec_to_usec fieldname)
    else if text_eq conversion (codes "hex_to_uint")
    then some (hex_to_uint fieldname)
    else if text_eq conversion (codes "syslog_timestamp")
    then some (syslog_timestamp fieldname)
    else if text_eq conversion (codes "datetime_to_usec")
    then some (datetime_to_usec fieldname)
    else none

-- `enum TantivyType`
pub data TantivyType : Type 0 where
  string text u64 i64 timestamp fast_timestamp json_object : TantivyType

unfoldable pub type_from_attribute : Bytes → Option TantivyType
unfolding text_eq
type_from_attribute attr =
    if text_eq attr (codes "string")
    then some string
    else if text_eq attr (codes "text")
    then some text
    else if text_eq attr (codes "u64")
    then some u64
    else if text_eq attr (codes "i64")
    then some i64
    else if text_eq attr (codes "timestamp")
    then some timestamp
    else if text_eq attr (codes "fast_timestamp")
    then some fast_timestamp
    else none

-- `enum FormatOption`
pub data FormatOption : Type 0 where
  syslog_priority hex : FormatOption

unfoldable pub format_from_attribute : Bytes → Option FormatOption
unfolding text_eq
format_from_attribute attr =
    if text_eq attr (codes "syslog_priority")
    then some syslog_priority
    else if text_eq attr (codes "hex")
    then some hex
    else none

-- What `process_inner_attr` matches in `syn::NestedMeta`; a path that is one word has an ident.
pub data NestedMeta : Type 0 where
  path : Option Bytes → NestedMeta
  name_value : Option Bytes → (conv : Bytes) → NestedMeta
  lit : Bytes → NestedMeta
  other_meta : NestedMeta

unfoldable pub process_inner_attr : NestedMeta → Option FieldValueConversion
unfolding conversion_from_attribute
process_inner_attr (path i) = and_then i (λ n. conversion_from_attribute n (codes "none"))
process_inner_attr (name_value i conv) = and_then i (λ n. conversion_from_attribute n conv)
process_inner_attr (lit s) = conversion_from_attribute s (codes "none")
process_inner_attr other_meta = none

-- What the derive matches of a field's attributes.
pub data Attribute : Type 0 where
  list_attr : (name : Bytes) → List NestedMeta → Attribute
  value_attr : (name value : Bytes) → Attribute

-- The Rust type under the field's `Option`.
pub data Kind : Type 0 where
  uint_kind int_kind string_kind : Kind

pub record Field : Type 0 where
  pub ident : Bytes
  pub kind : Kind
  pub attrs : List Attribute

pub record Gathered : Type 0 where
  pub from_gelf : List FieldValueConversion
  pub from_syslog : List FieldValueConversion
  pub tantivy_fields : List (Bytes × TantivyType)
  pub format_options : HashMap Bytes FormatOption

-- `filter_map(process_inner_attr)`
abbrev cons_some : {A : Type 0} → Option A → List A → List A
cons_some none l = l
cons_some (some a) l = a ∷ l

abbrev pub inner_attrs : List NestedMeta → List FieldValueConversion
inner_attrs [] = []
inner_attrs (a ∷ l) = cons_some (process_inner_attr a) (inner_attrs l)

-- One attribute of the field `f`; `none` is the panic of `unwrap`.
unfoldable pub on_attr : Field → Attribute → Gathered → Option Gathered
unfolding process_inner_attr text_eq type_from_attribute format_from_attribute insert
on_attr f (list_attr name l) g =
    if text_eq name (codes "from_gelf")
    then some (record {
      from_gelf = g.from_gelf ++ inner_attrs l;
      from_syslog = g.from_syslog;
      tantivy_fields = g.tantivy_fields;
      format_options = g.format_options;
    })
    else if text_eq name (codes "from_syslog")
    then some (record {
      from_gelf = g.from_gelf;
      from_syslog = g.from_syslog ++ inner_attrs l;
      tantivy_fields = g.tantivy_fields;
      format_options = g.format_options;
    })
    else some g
on_attr f (value_attr name value) g =
    if text_eq name (codes "storage_type")
    then option_map
        (λ (t : TantivyType). record {
          from_gelf = g.from_gelf;
          from_syslog = g.from_syslog;
          tantivy_fields = g.tantivy_fields ++ ((f.ident, t) ∷ []);
          format_options = g.format_options;
        })
        (type_from_attribute value)
    else if text_eq name (codes "format")
    then option_map
        (λ (o : FormatOption). record {
          from_gelf = g.from_gelf;
          from_syslog = g.from_syslog;
          tantivy_fields = g.tantivy_fields;
          format_options = insert f.ident o g.format_options;
        })
        (format_from_attribute value)
    else some g

unfoldable pub on_attrs : Field → List Attribute → Gathered → Option Gathered
unfolding on_attr
on_attrs f [] g = some g
on_attrs f (a ∷ l) g = and_then (on_attr f a g) (on_attrs f l)

pub record Derived : Type 0 where
  pub from_gelf_fields : List (Field × List FieldValueConversion)
  pub from_syslog_fields : List (Field × List FieldValueConversion)
  pub tantivy_fields : List (Bytes × TantivyType)
  pub format_options : HashMap Bytes FormatOption

unfoldable pub derive_fields : List Field → Derived → Option Derived
unfolding on_attrs
derive_fields [] d = some d
derive_fields (f ∷ fs) d =
    and_then
      (on_attrs f f.attrs (record {
        from_gelf = [];
        from_syslog = [];
        tantivy_fields = d.tantivy_fields;
        format_options = d.format_options;
      }))
      (λ (g : Gathered). derive_fields fs (record {
        from_gelf_fields = d.from_gelf_fields ++ ((f, g.from_gelf) ∷ []);
        from_syslog_fields = d.from_syslog_fields ++ ((f, g.from_syslog) ∷ []);
        tantivy_fields = g.tantivy_fields;
        format_options = g.format_options;
      }))

unfoldable pub derive_schema : List Field → Option Derived
unfolding derive_fields
derive_schema named = derive_fields named (record {
  from_gelf_fields = [];
  from_syslog_fields = [];
  tantivy_fields = [];
  format_options = [];
})
