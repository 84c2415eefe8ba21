-- ===== src/Syslog/Parsers/Fields.antt =====
-- The message that `parse_syslog` makes of `host ident[pid]: text` behind a timestamp.
use yaffle.Base.{ℕ, ◌≡◌, refl, ap, ◌∙◌, true, [], ◌∷◌, ◌++◌, some, Bytes, all, leb, from_utf8_lossy}
use yaffle.Syslog.Nom.{Nom, done, outcome}
use yaffle.Syslog.Nom.Reference.{read_opt}
use yaffle.Syslog.Chrono.{Chrono}
use yaffle.Syslog.Number.{is_dec, decimal, u64_max}
use yaffle.Syslog.Parsers.{
  SyslogMessage, Parts, prio_and_facility, timestamp, is_host_char, is_ident_char, build_message,
  parse_syslog,
}
use yaffle.Syslog.Parsers.Total.{parts, parse_syslog_lem}
use yaffle.Syslog.Parsers.Names.{hostname-row, blank_stops_host, identifier-pid, after_priority}

module _ (N : Nom) where
  open N use {
    is_digit, is_alphanumeric, is_space, is_alphanumeric_lem, is_space_lem, outcome-map,
    outcome-map_res, outcome-opt, outcome-alt, outcome-preceded, outcome-terminated, outcome-tag,
    outcome-digit1, outcome-take_while1, outcome-take_until, outcome-tuple2,
  }

  module _ (T : Chrono) (now later : T.LocalTime) where
    open T use {Time, parse_from_rfc3339}

    -- If a timestamp is found behind the priority, and what it leaves is `host ident[pid]: text` in
    -- the characters of host names and identifiers and with a number that fits a `u64`, the message
    -- has that time and those four fields.
    pub parse_syslog-fields :
        (i : Bytes) (ts : Time) (x : ℕ) (h : Bytes) (y : ℕ) (s : Bytes) (d : ℕ) (ds msg : Bytes)
        → outcome (timestamp N T now (after_priority N i))
          ≡ some (
            (x ∷ h) ++ (b' ' ∷ ((y ∷ s) ++ (b'[' ∷ ((d ∷ ds) ++ (b']' ∷ b':' ∷ b' ' ∷ msg))))),
            ts,
          )
        → all (is_host_char N) (x ∷ h) ≡ true
        → all (is_ident_char N) (y ∷ s) ≡ true
        → all is_dec (d ∷ ds) ≡ true
        → leb (decimal (d ∷ ds)) u64_max ≡ true
        → (m : SyslogMessage Time) × (parse_syslog N T now later i ≡ done [] m)
          × (m.source_timestamp ≡ ts)
          × (m.hostname ≡ some (from_utf8_lossy (x ∷ h)))
          × (m.identifier ≡ some (from_utf8_lossy (y ∷ s)))
          × (m.pid ≡ some (decimal (d ∷ ds)))
          × (m.message ≡ from_utf8_lossy msg)
    unfolding build_message
    parse_syslog-fields i ts x h y s d ds msg stamp host ident digits fits = (
      build_message N T i later read,
      parse_syslog_lem N T now later i ∙ ap (λ q. done [] (build_message N T i later q)) all_parts,
      refl,
      refl,
      refl,
      refl,
      refl,
    )
      where
        read : Parts N T
        read = (
          (read_opt i (outcome (prio_and_facility N i))).1,
          some ts,
          some (x ∷ h),
          some (y ∷ s, some (decimal (d ∷ ds))),
          msg,
        )

        all_parts : parts N T now later i ≡ read
        all_parts = rw stamp (
            rw (hostname-row N x h b' ' _ host (blank_stops_host N))
              (rw (identifier-pid N y s d ds msg ident digits fits) refl))
