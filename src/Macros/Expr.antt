-- ===== src/Macros/Expr.antt =====
-- The expressions that yaffle-macros generates for the columns of a document, as data.
use yaffle.Base.{
  Bool, true, false, ◌||◌, List, [], ◌∷◌, Option, none, some, Bytes, text_eq, if◌then◌else◌, codes,
}
use yaffle.Macros.Attributes.{
  FieldValueConversion, no_conversion, float_sec_to_usec, hex_to_uint, syslog_timestamp,
  datetime_to_usec,
}

pub data Accessor : Type 0 where
  -- `Some(Value::String(gelf_msg.field.to_owned()))`
  gelf_string : (field : Bytes) → Accessor
  -- `gelf_msg.other.get("field")`
  gelf_other : (field : Bytes) → Accessor
  -- `Some(syslog_msg.field.clone().into())`
  syslog_some : (field : Bytes) → Accessor
  -- `syslog_msg.field.clone().into()`
  syslog_into : (field : Bytes) → Accessor
  -- `acc.map(::serde_json::to_value)`
  map_to_value : Accessor → Accessor

pub data Expr : Type 0 where
  access : Accessor → Expr
  -- `acc.map(|val| from_value, or else parse).transpose()?`
  primitive : Accessor → Expr
  -- `acc.map(Self::convert_..).transpose()?`
  convert_float_sec convert_hex convert_timestamp : Accessor → Expr
  -- `acc.map(Self::convert_datetime_to_usec)`
  convert_datetime : Accessor → Expr
  -- `existing.or(accessor)`
  or_expr : (existing accessor : Expr) → Expr
  none_expr : Expr

unfoldable pub gelf_accessor : Bytes → Accessor
unfolding text_eq
gelf_accessor field =
    if text_eq field (codes "version")
      || text_eq field (codes "host")
      || text_eq field (codes "short_message")
    then gelf_string field
    else gelf_other field

unfoldable pub syslog_accessor : Bytes → Accessor
unfolding text_eq
syslog_accessor field =
    if text_eq field (codes "priority")
      || text_eq field (codes "facility")
      || text_eq field (codes "source_timestamp")
      || text_eq field (codes "message")
      || text_eq field (codes "full_message")
    then syslog_some field
    else syslog_into field

-- The accessor under a conversion that reads a `Value`.
unfoldable pub value_accessor : Bytes → Bool → Accessor
unfolding gelf_accessor syslog_accessor
value_accessor field true = map_to_value (syslog_accessor field)
value_accessor field false = gelf_accessor field

unfoldable pub conversion_expr : FieldValueConversion → Bool → Expr
unfolding value_accessor gelf_accessor syslog_accessor
conversion_expr (no_conversion field) true = access (syslog_accessor field)
conversion_expr (no_conversion field) false = primitive (gelf_accessor field)
conversion_expr (float_sec_to_usec field) syslog = convert_float_sec (value_accessor field syslog)
conversion_expr (hex_to_uint field) syslog = convert_hex (value_accessor field syslog)
conversion_expr (syslog_timestamp field) syslog = convert_timestamp (value_accessor field syslog)
conversion_expr (datetime_to_usec field) true = convert_datetime (syslog_accessor field)
conversion_expr (datetime_to_usec field) false = convert_datetime (gelf_accessor field)

-- `expr.map(|existing| existing.or(accessor)).or(Some(accessor))`
abbrev pub add_source : Option Expr → Expr → Option Expr
add_source none accessor = some accessor
add_source (some existing) accessor = some (or_expr existing accessor)

-- the loop over the source fields
abbrev pub chain_sources : Option Expr → List FieldValueConversion → Bool → Option Expr
chain_sources expr [] syslog = expr
chain_sources expr (s ∷ l) syslog =
    chain_sources (add_source expr (conversion_expr s syslog)) l syslog

abbrev or_none : Option Expr → Expr
or_none none = none_expr
or_none (some e) = e

unfoldable pub constructor_expr : List FieldValueConversion → Bool → Expr
unfolding conversion_expr
constructor_expr source_fields syslog = or_none (chain_sources none source_fields syslog)
