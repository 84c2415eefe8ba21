-- ===== src/Syslog/Parsers/Stamp.antt =====
-- The timestamps of RFC 3164, as `rfc3164_timestamp` reads them.
use yaffle.Base.{
  ℕ, ◌<◌, ◌≡◌, refl, ◌∙◌, ◌∷◌, ◌++◌, Option, none, some, Bytes, Result, ok, err, map_ok, codes,
  get_elem?, Option-cases, inl, inr,
}
use yaffle.Syslog.Nom.{Nom, outcome}
use yaffle.Syslog.Nom.Reference.{Found, seq, read_res}
use yaffle.Syslog.Chrono.{Chrono, LocalResult, no_time, single, ambiguous}
use yaffle.Syslog.Parsers.{month, day, time_text, time, this_year, zoned, chosen, rfc3164_timestamp}
use yaffle.Syslog.Parsers.Printed.{months, clock, stamp, stamp_append, day_text}
use yaffle.Syslog.Parsers.Calendar.{month-read, day-day_text, clock-read}

module _ (N : Nom) where
  open N use {outcome-map_res, outcome-tuple3}

  module _ (T : Chrono) (now : T.LocalTime) where
    open T use {
      Time, LocalTime, NaiveDate, NaiveTime, NaiveDateTime, ChronoError, parse_time, from_ymd_opt,
      at_time, from_local_datetime, year, with_own_offset,
    }

    -- What a timestamp with a good time stands for: that date of the clock's year, in the local zone;
    -- the earlier one of two times, and nothing for a date or time that does not exist.
    abbrev in_zone : Bytes → LocalResult LocalTime → Found Time
    in_zone r no_time = none
    in_zone r (single t) = some (r, with_own_offset t)
    in_zone r (ambiguous earliest latest) = some (r, with_own_offset earliest)

    abbrev on_date : Bytes → NaiveTime → Option NaiveDate → Found Time
    on_date r t none = none
    on_date r t (some date) = in_zone r (from_local_datetime (at_time date t))

    abbrev pub stands_for : Bytes → ℕ → ℕ → Result ChronoError NaiveTime → Found Time
    stands_for r mon d (err e) = none
    stands_for r mon d (ok t) = on_date r t (from_ymd_opt (year now) mon d)

    chosen-in_zone :
        (r : Bytes) (o : LocalResult LocalTime)
        → read_res r (map_ok with_own_offset (chosen N T o)) ≡ in_zone r o
    unfolding chosen
    chosen-in_zone r no_time = refl
    chosen-in_zone r (single t) = refl
    chosen-in_zone r (ambiguous earliest latest) = refl

    zoned-in_zone :
        (r : Bytes) (naive : NaiveDateTime)
        → read_res r (zoned N T naive) ≡ in_zone r (from_local_datetime naive)
    unfolding zoned
    zoned-in_zone r naive = chosen-in_zone r (from_local_datetime naive)

    dated :
        (r : Bytes) (mon d : ℕ) (p : Result ChronoError NaiveTime)
        → seq
            (seq {B = NaiveDateTime}
              (seq {B = ℕ × ℕ × NaiveTime} (read_res r p) (λ r' t. some (r', (mon, d, t))))
              (λ r' q. read_res r' (this_year N T now q)))
            (λ r' naive. read_res r' (zoned N T naive))
          ≡ stands_for r mon d p
    unfolding this_year
    dated r mon d (err e) = refl
    dated r mon d (ok t) = elim (Option-cases (from_ymd_opt (year now) mon d)) [
      | inl no_date ↦ rw no_date refl
      | inr (date, found) ↦ rw found (zoned-in_zone r (at_time date t))
    ]

    outcome-rfc3164 :
        (i : Bytes)
        → outcome (rfc3164_timestamp N T now i)
          ≡ seq
              (seq
                (seq (outcome (month N i)) (λ r a. seq (outcome (day N r)) (λ r' b.
                  seq
                    (seq
                      (outcome (time_text N r'))
                      (λ q c. read_res q (parse_time c (codes "%H:%M:%S"))))
                    (λ r'' t. some (r'', (a, b, t))))))
                (λ r p. read_res r (this_year N T now p)))
              (λ r naive. read_res r (zoned N T naive))
    unfolding rfc3164_timestamp time
    outcome-rfc3164 i = simp (outcome-map_res, outcome-tuple3)

    time-clock :
        (h mi s : ℕ) (r : Bytes)
        → h < 100
        → mi < 100
        → s < 100
        → seq
            (outcome (time_text N (clock h mi s ++ (b' ' ∷ r))))
            (λ q c. read_res q (parse_time c (codes "%H:%M:%S")))
          ≡ read_res r (parse_time (clock h mi s) (codes "%H:%M:%S"))
    time-clock h mi s r hh hm hs = rw (clock-read N h mi s r hh hm hs) refl

    -- A timestamp `Mmm dd hh:mm:ss` is read up to the blank behind it, and stands for that day and
    -- month of the clock's year at the time that chrono reads, in the local zone: for the earlier of
    -- two times, and for nothing if the time, the date or the local time does not exist.
    pub rfc3164_timestamp-stands_for :
        (m : ℕ × Bytes) (i d h mi s : ℕ) (r : Bytes)
        → get_elem? months i ≡ some m
        → d < 100
        → h < 100
        → mi < 100
        → s < 100
        → outcome (rfc3164_timestamp N T now (stamp m.1 d h mi s ++ (b' ' ∷ r)))
          ≡ stands_for r m.0 d (parse_time (clock h mi s) (codes "%H:%M:%S"))
    rfc3164_timestamp-stands_for m i d h mi s r listed hd hh hm hs =
        outcome-rfc3164 _
        ∙ rw
            (
              stamp_append m.1 d h mi s r,
              month-read N m i (day_text d ++ (b' ' ∷ (clock h mi s ++ (b' ' ∷ r)))) listed,
            )
            (rw (day-day_text N d (clock h mi s ++ (b' ' ∷ r)) hd) (
              rw (time-clock h mi s r hh hm hs)
                (dated r m.0 d (parse_time (clock h mi s) (codes "%H:%M:%S")))))
