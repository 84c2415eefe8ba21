-- ===== src/Macros/Display.antt =====
-- The texts that the derive generates for the columns of a document, and Rust's formats for integers.
use yaffle.Base.{
  ℕ, zero, suc, ◌+◌, ◌-◌, ◌*◌, ◌/◌, ◌%◌, List, [], ◌∷◌, ◌++◌, Option, none, some, Bytes, ltb,
  if◌then◌else◌, codes, unwrap_or, get_or,
}
use yaffle.Macros.Attributes.{
  TantivyType, string, text, u64, i64, timestamp, fast_timestamp, json_object, FormatOption,
  syslog_priority, hex,
}
use yaffle.Schema.Convert.{Cell, uint, int, ℤ, pos, negsuc}

abbrev pub digit : ℕ → ℕ
digit d = if ltb d 10 then b'0' + d else b'a' + (d - 10)

-- The digits of a number, the first one first; 64 of them are enough for a `u64` in any base.
unfoldable pub digits : ℕ → ℕ → ℕ → Bytes
digits base zero n = []
digits base (suc fuel) n =
    let rest = digits base fuel (n / base) in
    if ltb n base then digit n ∷ [] else rest ++ (digit (n % base) ∷ [])

-- `{}` and `{:x}` on a `u64`, and `{}` on an `i64`
unfoldable pub show_uint : ℕ → Bytes
unfolding digits
show_uint n = digits 10 64 n

unfoldable pub show_hex : ℕ → Bytes
unfolding digits
show_hex n = codes "0x" ++ digits 16 64 n

unfoldable pub show_int : ℤ → Bytes
unfolding show_uint
show_int (pos n) = show_uint n
show_int (negsuc n) = b'-' ∷ show_uint (suc n)

abbrev pub priority_names : List Bytes
priority_names =
    codes "Emergency"
    ∷ codes "Alert"
    ∷ codes "Critical"
    ∷ codes "Error"
    ∷ codes "Warning"
    ∷ codes "Notice"
    ∷ codes "Informational"
    ∷ codes "Debug"
    ∷ []

unfoldable pub show_priority : ℕ → Bytes → Bytes
show_priority value shown =
    shown ++ (codes " (" ++ (get_or priority_names value (codes "Unknown") ++ codes ")"))

-- `show_time` is chrono's `Utc.timestamp_opt(secs, nanos).single().map(|dt| dt.to_string())` and
-- `debug` the format `{:?}`. A cell of another type than its column's does not occur.
module _ (show_time : ℕ → ℕ → Option Bytes) (debug : Cell → Bytes) where
  show_number : Option FormatOption → Cell → Bytes
  unfolding show_uint show_hex show_int show_priority
  show_number none (uint n) = show_uint n
  show_number (some hex) (uint n) = show_hex n
  show_number (some syslog_priority) (uint n) = show_priority n (show_uint n)
  show_number o (int i) = show_int i
  show_number o (Cell.text s) = []

  show_stamp : Cell → Bytes
  show_stamp (uint n) = unwrap_or [] (show_time (n / 1000000) (n % 1000000 * 1000))
  show_stamp (int i) = []
  show_stamp (Cell.text s) = []

  show_text : Cell → Bytes
  show_text (Cell.text s) = s
  show_text (uint n) = []
  show_text (int i) = []

  unfoldable pub to_display : TantivyType → Option FormatOption → Cell → Bytes
  unfolding show_number show_stamp show_text
  to_display string o c = show_text c
  to_display text o c = show_text c
  to_display u64 o c = show_number o c
  to_display i64 o c = show_number o c
  to_display timestamp o c = show_stamp c
  to_display fast_timestamp o c = show_stamp c
  to_display json_object o c = debug c
