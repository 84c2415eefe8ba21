-- ===== src/Syslog/Parsers.antt =====
-- The parsers of syslog.rs, in nom's combinators.
pub mod Spans
pub mod Total
pub mod Priority
pub mod Names
pub mod Fields
pub mod Versioned
pub mod Printed
pub mod Calendar
pub mod Stamp
use yaffle.Base.{
  ℕ, ◌+◌, ◌-◌, ◌/◌, ◌%◌, ◌≡◌, refl, Bool, true, false, not, ◌&&◌, ◌||◌, List, [], ◌∷◌, ◌++◌, Option,
  none, some, Bytes, Result, ok, err, map_ok, ok_or, option_map, and_then, unwrap_or, length,
  get_or, nat_eq, ltb, if◌then◌else◌, codes, from_utf8, from_utf8_lossy, get_elem?,
}
use yaffle.Syslog.Nom.{Nom, Parser, IResult}
use yaffle.Syslog.Chrono.{Chrono, LocalResult, no_time, single, ambiguous}
use yaffle.Syslog.Facility.{split_priority}
use yaffle.Syslog.Number.{parse_uint, u8_max, u64_max}

-- `struct SyslogMessage`
pub record SyslogMessage (Time : Type 0) : Type 0 where
  pub priority : ℕ
  pub facility : Bytes
  pub source_timestamp : Time
  pub hostname : Option Bytes
  pub identifier : Option Bytes
  pub pid : Option ℕ
  pub message : Bytes
  pub full_message : Bytes

-- the errors that the closures of `map_res` build
pub data DateError : Type 0 where
  invalid_utf8 invalid_date invalid_timestamp : DateError

abbrev pub utf8 : Bytes → Result DateError Bytes
utf8 s = ok_or invalid_utf8 (from_utf8 s)

module _ (N : Nom) where
  open N use {
    Error, is_digit, is_alphanumeric, is_space, char, tag, digit1, take_until, take_while1,
    take_while_m_n, rest, map, map_res, opt, alt, value, recognize, delimited, preceded, terminated,
    separated_pair, tuple2, tuple3, tuple5,
  }

  -- `map_res(.., std::str::from_utf8)`
  abbrev pub as_str : Parser Error Bytes → Parser Error Bytes
  as_str p = map_res DateError Bytes Bytes p utf8

  unfoldable pub prio_and_facility : Parser Error (ℕ × Bytes)
  unfolding split_priority
  prio_and_facility =
      map ℕ (ℕ × Bytes)
        (map_res _ Bytes ℕ (as_str (delimited ℕ Bytes ℕ (char b'<') digit1 (char b'>')))
          (parse_uint u8_max))
        split_priority

  unfoldable pub is_host_char : ℕ → Bool
  is_host_char c = is_alphanumeric c || nat_eq c b'.'

  unfoldable pub hostname : Parser Error Bytes
  unfolding is_host_char
  hostname = terminated Bytes Bytes (take_while1 is_host_char) (tag (codes " "))

  unfoldable pub is_ident_char : ℕ → Bool
  is_ident_char c = not (nat_eq c b':') && not (nat_eq c b'[') && not (is_space c)

  -- `preceded(tag("["), terminated(digit1, tag("]")))`
  abbrev pub bracketed : Parser Error Bytes
  bracketed =
      preceded Bytes Bytes (tag (codes "[")) (terminated Bytes Bytes digit1 (tag (codes "]")))

  unfoldable pub identifier_and_pid : Parser Error (Bytes × Option ℕ)
  unfolding is_ident_char
  identifier_and_pid =
      terminated (Bytes × Option ℕ) Bytes
        (tuple2 Bytes (Option ℕ) (take_while1 is_ident_char)
          (opt ℕ (map_res _ Bytes ℕ (as_str bracketed) (parse_uint u64_max))))
        (tag (codes ": "))

  unfoldable pub month_name : ℕ → Bytes → Parser Error ℕ
  month_name n name = value ℕ Bytes n (tag name)

  unfoldable pub month : Parser Error ℕ
  unfolding month_name
  month = alt ℕ (
      month_name 1 (codes "Jan ")
      ∷ month_name 2 (codes "Feb ")
      ∷ month_name 3 (codes "Mar ")
      ∷ month_name 4 (codes "Apr ")
      ∷ month_name 5 (codes "May ")
      ∷ month_name 6 (codes "Jun ")
      ∷ month_name 7 (codes "Jul ")
      ∷ month_name 8 (codes "Aug ")
      ∷ month_name 9 (codes "Sep ")
      ∷ month_name 10 (codes "Oct ")
      ∷ month_name 11 (codes "Nov ")
      ∷ month_name 12 (codes "Dec ")
      ∷ [])

  unfoldable pub day : Parser Error ℕ
  day =
      map_res _ Bytes ℕ
        (as_str (
          terminated Bytes Bytes
            (alt Bytes (
              preceded Bytes Bytes (tag (codes " ")) (take_while_m_n 1 1 is_digit)
              ∷ take_while_m_n 2 2 is_digit
              ∷ []))
            (tag (codes " "))))
        (parse_uint u8_max)

  abbrev two_digits : Parser Error Bytes
  two_digits = take_while_m_n 2 2 is_digit

  -- the text of `time`, before chrono reads it
  unfoldable pub time_text : Parser Error Bytes
  time_text = as_str (
      terminated Bytes Bytes
        (recognize ((Bytes × Bytes) × Bytes) (
          separated_pair (Bytes × Bytes) Bytes Bytes
            (separated_pair Bytes Bytes Bytes two_digits (tag (codes ":")) two_digits)
            (tag (codes ":")) two_digits))
        (tag (codes " ")))

  module _ (T : Chrono) where
    open T use {
      Time, LocalTime, NaiveTime, NaiveDateTime, ChronoError, parse_from_rfc3339, parse_time,
      from_ymd_opt, at_time, from_local_datetime, year, with_own_offset,
    }

    unfoldable pub rfc3339_timestamp : Parser Error Time
    rfc3339_timestamp =
        map_res ChronoError Bytes Time (as_str (take_until (codes " "))) parse_from_rfc3339

    unfoldable pub time : Parser Error NaiveTime
    unfolding time_text
    time = map_res ChronoError Bytes NaiveTime time_text (λ s. parse_time s (codes "%H:%M:%S"))

    -- the closure of `naive_ts`, at the clock's time `now`
    unfoldable pub this_year : LocalTime → ℕ × ℕ × NaiveTime → Result DateError NaiveDateTime
    this_year now (mon, d, naive_time) =
        ok_or invalid_date
          (option_map (λ date. at_time date naive_time) (from_ymd_opt (year now) mon d))

    chosen : LocalResult LocalTime → Result DateError LocalTime
    chosen no_time = err invalid_timestamp
    chosen (single ts) = ok ts
    chosen (ambiguous ts1 ts2) = ok ts1

    unfoldable pub zoned : NaiveDateTime → Result DateError Time
    unfolding chosen
    zoned naive = map_ok with_own_offset (chosen (from_local_datetime naive))

    unfoldable pub rfc3164_timestamp : LocalTime → Parser Error Time
    unfolding this_year zoned time
    rfc3164_timestamp now =
        map_res DateError NaiveDateTime Time
          (map_res DateError (ℕ × ℕ × NaiveTime) NaiveDateTime (tuple3 ℕ ℕ NaiveTime month day time)
            (this_year now))
          zoned

    -- `preceded(terminated(digit1, tag(" ")), rfc3339_timestamp)`, or the other format
    abbrev pub versioned : Parser Error Time
    versioned =
        preceded Bytes Time (terminated Bytes Bytes digit1 (tag (codes " "))) rfc3339_timestamp

    unfoldable pub timestamp : LocalTime → Parser Error Time
    timestamp now = alt Time (versioned ∷ rfc3164_timestamp now ∷ [])

    abbrev pub Parts : Type 0
    Parts = Option (ℕ × Bytes) × Option Time × Option Bytes × Option (Bytes × Option ℕ) × Bytes

    -- the text without one leading blank
    abbrev pub strip_blank : Bytes → Bytes
    strip_blank [] = []
    strip_blank (c ∷ s) = if nat_eq c b' ' then s else c ∷ s

    abbrev is_none : {A : Type 0} → Option A → Bool
    is_none none = true
    is_none (some a) = false

    -- the closure of `parse_syslog`; `now` is the clock's time if there is no timestamp
    unfoldable pub build_message : Bytes → LocalTime → Parts → SyslogMessage Time
    build_message input now (opt_prio_fac, opt_ts, opt_hostname, opt_ident_and_pid, msg) = record {
      priority = unwrap_or 5 (option_map (λ (p : ℕ × Bytes). p.0) opt_prio_fac);
      facility = unwrap_or (codes "user") (option_map (λ (p : ℕ × Bytes). p.1) opt_prio_fac);
      source_timestamp = unwrap_or (with_own_offset now) opt_ts;
      hostname = option_map from_utf8_lossy opt_hostname;
      identifier = option_map (λ (p : Bytes × Option ℕ). from_utf8_lossy p.0) opt_ident_and_pid;
      pid = and_then opt_ident_and_pid (λ (p : Bytes × Option ℕ). p.1);
      message =
          if is_none opt_ts && is_none opt_hostname && is_none opt_ident_and_pid
          then strip_blank (from_utf8_lossy msg)
          else from_utf8_lossy msg;
      full_message = from_utf8_lossy input;
    }

    unfoldable pub parse_syslog : LocalTime → LocalTime → Parser Error (SyslogMessage Time)
    unfolding build_message
    parse_syslog now later input =
        map Parts (SyslogMessage Time)
          (tuple5 (Option (ℕ × Bytes)) (Option Time) (Option Bytes) (Option (Bytes × Option ℕ))
            Bytes (opt (ℕ × Bytes) prio_and_facility) (opt Time (timestamp now))
            (opt Bytes hostname) (opt (Bytes × Option ℕ) identifier_and_pid) rest)
          (build_message input later) input
