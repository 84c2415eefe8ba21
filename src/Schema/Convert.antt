-- ===== src/Schema/Convert.antt =====
-- The conversions of schema.rs, and what the generated code calls besides: serde_json, chrono and
-- floating point numbers are parameters.
use yaffle.Base.{
  ℕ, suc, ◌+◌, ◌-◌, ◌*◌, ◌/◌, ◌^◌, Bool, ◌||◌, [], ◌∷◌, Option, Bytes, Result, ok, err, map_ok,
  or_else, ok_or, none, some, option_map, all, within, leb, nat_eq, if◌then◌else◌,
}
use yaffle.Syslog.Number.{
  ParseIntError, empty, invalid_digit, pos_overflow, parse_uint, u64_max, is_dec,
}
use yaffle.Macros.Attributes.{Kind, uint_kind, int_kind, string_kind}

-- An `i64`: `negsuc n` is the number -(n + 1).
pub data ℤ : Type 0 where
  pos negsuc : ℕ → ℤ

-- What `serde_json::Value` is matched for.
pub data Value (Number Rest : Type 0) : Type 0 where
  number : Number → Value Number Rest
  string : Bytes → Value Number Rest
  other : Rest → Value Number Rest

-- the content of a column
pub data Cell : Type 0 where
  uint : ℕ → Cell
  int : ℤ → Cell
  text : Bytes → Cell

pub record Conversions : Type 1 where
  pub Number : Type 0
  pub Rest : Type 0
  pub Float : Type 0
  pub Error : Type 0
  -- `serde_json::value::from_value` at the types of the columns
  pub from_value : Kind → Value Number Rest → Result Error Cell
  pub as_f64 : Number → Option Float
  pub as_u64 : Number → Option ℕ
  pub parse_f64 : Bytes → Result Error Float
  -- `(v * 1_000_000f64) as u64`
  pub usec : Float → ℕ
  -- `DateTime::parse_from_rfc3339`, `parse_from_rfc2822` and, behind the year of the clock,
  -- `NaiveDateTime::parse_from_str`, each followed by `timestamp_nanos`; `none` is its panic, on a time
  -- whose nanoseconds no `i64` counts
  pub rfc3339_nanos : Bytes → Result Error (Option ℤ)
  pub rfc2822_nanos : Bytes → Result Error (Option ℤ)
  pub this_year_nanos : Bytes → Result Error (Option ℤ)
  -- `str::trim` on the UTF-8 bytes
  pub trim : Bytes → Bytes
  -- the errors' texts
  pub parse_error : ParseIntError → Error
  pub cannot_represent : Number → Error
  pub cannot_convert : Value Number Rest → Error

-- `as u64`
abbrev pub as_uint : ℤ → ℕ
as_uint (pos n) = n
as_uint (negsuc n) = u64_max - n

-- `/` on `i64`, which rounds towards zero
abbrev pub negated : ℕ → ℤ
negated n = if nat_eq n 0 then pos 0 else negsuc (n - 1)

abbrev pub int_div : ℤ → ℕ → ℤ
int_div (pos n) d = pos (n / d)
int_div (negsuc n) d = negated (suc n / d)

-- of what `timestamp_nanos` gives; `none` is its panic
unfoldable pub convert_datetime_to_usec : Option ℤ → Option ℕ
convert_datetime_to_usec = option_map (λ nanos. as_uint nanos / 1000)

-- hexadecimal digits
abbrev pub is_hex : ℕ → Bool
is_hex c = within b'0' b'9' c || within b'a' b'f' c || within b'A' b'F' c

abbrev pub hex_value : ℕ → ℕ
hex_value c =
    if within b'0' b'9' c
    then c - b'0'
    else if within b'a' b'f' c
    then c - b'a' + 10
    else c - b'A' + 10

abbrev pub hex_from : ℕ → Bytes → ℕ
hex_from acc [] = acc
hex_from acc (c ∷ s) = hex_from (acc * 16 + hex_value c) s

abbrev pub hex_digits : Bytes → Result ParseIntError ℕ
hex_digits [] = err invalid_digit
hex_digits (c ∷ s) =
    if all is_hex (c ∷ s)
    then (if leb (hex_from 0 (c ∷ s)) u64_max then ok (hex_from 0 (c ∷ s)) else err pos_overflow)
    else err invalid_digit

-- `u64::from_str_radix(s, 16)`
unfoldable pub parse_hex : Bytes → Result ParseIntError ℕ
parse_hex [] = err empty
parse_hex (c ∷ s) = if nat_eq c b'+' then hex_digits s else hex_digits (c ∷ s)

abbrev pub map_err : {A B C : Type 0} → (A → B) → Result A C → Result B C
map_err f (ok c) = ok c
map_err f (err a) = err (f a)

-- `str::parse::<i64>`
abbrev pub minus_digits : Bytes → Result ParseIntError ℤ
minus_digits s = if all is_dec s then map_ok negated (parse_uint (2 ^ 63) s) else err invalid_digit

unfoldable pub parse_int : Bytes → Result ParseIntError ℤ
parse_int [] = err empty
parse_int (c ∷ []) = map_ok pos (parse_uint (2 ^ 63 - 1) (c ∷ []))
parse_int (c ∷ d ∷ s) =
    if nat_eq c b'-' then minus_digits (d ∷ s) else map_ok pos (parse_uint (2 ^ 63 - 1) (c ∷ d ∷ s))

module _ (C : Conversions) where
  open C use {
    Number, Rest, Error, from_value, as_f64, as_u64, parse_f64, usec, rfc3339_nanos, rfc2822_nanos,
    this_year_nanos, trim, parse_error, cannot_represent, cannot_convert,
  }

  -- `str::parse` at the types of the columns
  unfoldable pub parse_cell : Kind → Bytes → Result Error Cell
  parse_cell uint_kind s = map_err parse_error (map_ok uint (parse_uint u64_max s))
  parse_cell int_kind s = map_err parse_error (map_ok int (parse_int s))
  parse_cell string_kind s = ok (text s)

  abbrev pub or_parsed : Kind → Value Number Rest → Result Error Cell → Result Error Cell
  or_parsed k v (ok c) = ok c
  or_parsed k (string s) (err e) = or_else (parse_cell k s) (err e)
  or_parsed k v (err e) = err e

  -- the closure that the macro generates for a field with no conversion
  unfoldable pub convert_primitive : Kind → Value Number Rest → Result Error Cell
  unfolding parse_cell
  convert_primitive k v = or_parsed k v (from_value k v)

  unfoldable pub convert_float_sec_to_usec : Value Number Rest → Result Error ℕ
  convert_float_sec_to_usec (number n) = ok_or (cannot_represent n) (option_map usec (as_f64 n))
  convert_float_sec_to_usec (string s) = map_ok usec (parse_f64 s)
  convert_float_sec_to_usec (other r) = err (cannot_convert (other r))

  unfoldable pub convert_hex_to_uint : Value Number Rest → Result Error ℕ
  convert_hex_to_uint (string s) = map_err parse_error (parse_hex s)
  convert_hex_to_uint (number n) = ok_or (cannot_represent n) (as_u64 n)
  convert_hex_to_uint (other r) = err (cannot_convert (other r))

  abbrev pub in_usec : Result Error (Option ℤ) → Result Error (Option ℤ)
  in_usec = map_ok (option_map (λ t. int_div t 1000))

  -- `as u64`, unless `timestamp_nanos` has panicked
  abbrev pub as_uint_or_panic : Result Error (Option ℤ) → Option (Result Error ℕ)
  as_uint_or_panic (ok none) = none
  as_uint_or_panic (ok (some t)) = some (ok (as_uint t))
  as_uint_or_panic (err e) = some (err e)

  -- `none` is a panic.
  unfoldable pub convert_syslog_timestamp : Value Number Rest → Option (Result Error ℕ)
  convert_syslog_timestamp (string s) = as_uint_or_panic (
      or_else (or_else (in_usec (rfc3339_nanos (trim s))) (in_usec (rfc2822_nanos (trim s))))
        (in_usec (this_year_nanos (trim s))))
  convert_syslog_timestamp (number n) = some (err (cannot_convert (number n)))
  convert_syslog_timestamp (other r) = some (err (cannot_convert (other r)))
