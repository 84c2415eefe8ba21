-- ===== src/Syslog/Chrono.antt =====
-- What syslog.rs calls of the crate `chrono`.
use yaffle.Base.{ℕ, Bytes, Option, Result}

-- `LocalResult`
pub data LocalResult (T : Type 0) : Type 0 where
  no_time : LocalResult T
  single : T → LocalResult T
  ambiguous : (earliest latest : T) → LocalResult T

pub record Chrono : Type 1 where
  -- `DateTime<FixedOffset>`, `DateTime<Local>` and the times with no zone
  pub Time : Type 0
  pub LocalTime : Type 0
  pub NaiveDate : Type 0
  pub NaiveTime : Type 0
  pub NaiveDateTime : Type 0
  pub ChronoError : Type 0
  pub parse_from_rfc3339 : Bytes → Result ChronoError Time
  -- `NaiveTime::parse_from_str(s, format)`
  pub parse_time : (s format : Bytes) → Result ChronoError NaiveTime
  pub from_ymd_opt : (year month day : ℕ) → Option NaiveDate
  pub at_time : NaiveDate → NaiveTime → NaiveDateTime
  -- `Local.from_local_datetime`
  pub from_local_datetime : NaiveDateTime → LocalResult LocalTime
  pub year : LocalTime → ℕ
  -- `t.with_timezone(t.offset())`
  pub with_own_offset : LocalTime → Time
