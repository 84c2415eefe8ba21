-- ===== src/Syslog/Facility.antt =====
-- A syslog priority: the facility and the severity in one byte.
use yaffle.Base.{
  ℕ, ◌+◌, ◌-◌, ◌/◌, ◌%◌, List, [], ◌∷◌, ◌++◌, Bytes, get_or, ltb, if◌then◌else◌, codes,
}

abbrev pub facility_names : List Bytes
facility_names =
    codes "kern"
    ∷ codes "user"
    ∷ codes "mail"
    ∷ codes "daemon"
    ∷ codes "auth"
    ∷ codes "syslog"
    ∷ codes "lpr"
    ∷ codes "news"
    ∷ codes "uucp"
    ∷ codes "cron"
    ∷ codes "authpriv"
    ∷ codes "ftp"
    ∷ codes "ntp"
    ∷ codes "audit"
    ∷ codes "alert"
    ∷ codes "clock"
    ∷ []

-- `format!("{}", n)` for a `u8` below 100
abbrev show_small : ℕ → Bytes
show_small n = if ltb n 10 then (b'0' + n) ∷ [] else (b'0' + n / 10) ∷ (b'0' + n % 10) ∷ []

-- `combined >> 3` and `combined & 0x7`
unfoldable pub facility_name : ℕ → Bytes
facility_name facility =
    if ltb facility 16
    then get_or facility_names facility []
    else codes "local" ++ show_small (facility - 16)

unfoldable pub split_priority : ℕ → ℕ × Bytes
unfolding facility_name
split_priority combined = (combined % 8, facility_name (combined / 8))
