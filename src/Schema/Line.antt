-- ===== src/Schema/Line.antt =====
-- A line of syslog text, from `parse_syslog` to its document.
use yaffle.Base.{
  Option, ℕ, ◌≡◌, refl, ap, ◌∙◌, Bool, true, false, ◌&&◌, [], ◌∷◌, ◌++◌, some, Bytes, all, leb, ltb,
  option_map, codes, from_utf8_lossy, ok, bytes_eq,
}
use yaffle.Syslog.Nom.{Nom, done, outcome}
use yaffle.Syslog.Chrono.{Chrono}
use yaffle.Syslog.Number.{is_dec, decimal, u64_max}
use yaffle.Syslog.Parsers.{SyslogMessage, timestamp, is_host_char, is_ident_char, parse_syslog}
use yaffle.Syslog.Parsers.Names.{after_priority}
use yaffle.Syslog.Parsers.Fields.{parse_syslog-fields}
use yaffle.Schema.Convert.{Conversions, uint, text, ℤ, convert_datetime_to_usec}
use yaffle.Schema.Build.{Document, column, is_valid}
use yaffle.Schema.Received.{from_syslog-total}
use yaffle.Schema.{from_syslog}

abbrev pub not_empty : Bytes → Bool
not_empty [] = false
not_empty (c ∷ s) = true

valid-columns :
    (doc : Document) (usec : ℕ) (s : Bytes)
    → column (codes "source_timestamp") doc ≡ some (uint usec)
    → column (codes "message") doc ≡ some (text s)
    → is_valid doc ≡ (ltb 0 usec && not_empty s)
unfolding is_valid
valid-columns doc usec [] e f = rw (e, f) refl
valid-columns doc usec (c ∷ s) e f = rw (e, f) refl

module _ (N : Nom) (T : Chrono) (now later : T.LocalTime) (C : Conversions)
    (timestamp_nanos : T.Time → Option ℤ) where
  open T use {Time}

  -- If a timestamp with a number of nanoseconds is found behind the priority of a packet, and what it leaves is
  -- `host ident[pid]: text` in the characters of host names and identifiers and with a number that
  -- fits a `u64`, the packet becomes a document with that time in microseconds, host, identifier,
  -- number and text; and it is valid exactly if the time is positive and the text, as it is decoded,
  -- is not empty.
  pub parse_syslog-document :
      (i : Bytes) (ts : Time) (usec : ℕ) (x : ℕ) (h : Bytes) (y : ℕ) (s : Bytes) (d : ℕ)
      (ds msg : Bytes)
      → outcome (timestamp N T now (after_priority N i))
        ≡ some
            ((x ∷ h) ++ (b' ' ∷ ((y ∷ s) ++ (b'[' ∷ ((d ∷ ds) ++ (b']' ∷ b':' ∷ b' ' ∷ msg))))), ts)
      → convert_datetime_to_usec (timestamp_nanos ts) ≡ some usec
      → all (is_host_char N) (x ∷ h) ≡ true
      → all (is_ident_char N) (y ∷ s) ≡ true
      → all is_dec (d ∷ ds) ≡ true
      → leb (decimal (d ∷ ds)) u64_max ≡ true
      → (m : SyslogMessage Time) × (doc : Document) × (parse_syslog N T now later i ≡ done [] m)
        × (from_syslog C Time timestamp_nanos m ≡ ok doc)
        × (column (codes "source_timestamp") doc ≡ some (uint usec))
        × (column (codes "hostname") doc ≡ some (text (from_utf8_lossy (x ∷ h))))
        × (column (codes "syslog_identifier") doc ≡ some (text (from_utf8_lossy (y ∷ s))))
        × (column (codes "syslog_pid") doc ≡ some (uint (decimal (d ∷ ds))))
        × (column (codes "message") doc ≡ some (text (from_utf8_lossy msg)))
        × (is_valid doc ≡ (ltb 0 usec && not_empty (from_utf8_lossy msg)))
  parse_syslog-document i ts usec x h y s d ds msg stamp nanos host ident digits fits =
      let (m, parsed, when, has_host, has_ident, has_pid, has_text) =
        parse_syslog-fields N T now later i ts x h y s d ds msg stamp host ident digits fits in
      let (doc, made, at, from_host, is_text, _, _, _, from_ident, from_pid) =
        from_syslog-total C Time timestamp_nanos m usec
          (ap (λ t. convert_datetime_to_usec (timestamp_nanos t)) when ∙ nanos) in
      let is_text' = is_text ∙ ap (λ t. some (text t)) has_text in
      (
        m,
        doc,
        parsed,
        made,
        at,
        from_host ∙ ap (option_map text) has_host,
        from_ident ∙ ap (option_map text) has_ident,
        from_pid ∙ ap (option_map uint) has_pid,
        is_text',
        valid-columns doc _ _ at is_text',
      )
