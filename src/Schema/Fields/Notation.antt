-- ===== src/Schema/Fields/Notation.antt =====
-- How the fields of `struct Document` and their attributes are written.
use yaffle.Base.{List, [], ◌∷◌, some, String, codes}
use yaffle.Macros.Attributes.{
  Field, Attribute, list_attr, value_attr, NestedMeta, path, name_value, Kind,
}

abbrev pub name : String → NestedMeta
name s = path (some (codes s))

abbrev pub convert : String → String → NestedMeta
convert s c = name_value (some (codes s)) (codes c)

abbrev pub from_gelf : List NestedMeta → Attribute
from_gelf = list_attr (codes "from_gelf")

abbrev pub from_syslog : List NestedMeta → Attribute
from_syslog = list_attr (codes "from_syslog")

abbrev pub storage_type : String → Attribute
storage_type t = value_attr (codes "storage_type") (codes t)

abbrev pub format : String → Attribute
format f = value_attr (codes "format") (codes f)

-- `serde(skip_serializing_if = "Option::is_none")`
abbrev pub skip_none : Attribute
skip_none =
    list_attr (codes "serde")
      (name_value (some (codes "skip_serializing_if")) (codes "Option::is_none") ∷ [])

abbrev pub field : String → Kind → List Attribute → Field
field s k l = record { ident = codes s; kind = k; attrs = l }
