-- ===== src/Syslog/Parsers/Priority.antt =====
-- The priority field `<n>`: read exactly for n up to 255, and split into severity and facility.
use yaffle.Base.{
  ℕ, ◌≤◌, ◌/◌, ◌%◌, ◌≡◌, refl, ◌∙◌, true, [], ◌∷◌, ◌++◌, Option, none, some, Bytes, all, arith, leb,
  if◌then◌else◌, Bool-cases, inl, inr, from_utf8_lossy, unwrap_or, option_map,
}
use yaffle.Syslog.Nom.{Nom, done, outcome}
use yaffle.Syslog.Nom.Reference.{Found, seq, read_char, read_while1, read_opt, read_res}
use yaffle.Syslog.Chrono.{Chrono}
use yaffle.Syslog.Number.{is_dec, decimal, parse_uint, parse_uint_lem, u8_max}
use yaffle.Syslog.Facility.{split_priority, facility_name}
use yaffle.Syslog.Parsers.{SyslogMessage, prio_and_facility, utf8, build_message, parse_syslog}
use yaffle.Syslog.Parsers.Spans.{span-append, utf8-digits}
use yaffle.Syslog.Parsers.Total.{parts, parse_syslog_lem}

module _ (N : Nom) where
  open N use {outcome-map, outcome-map_res, outcome-delimited, outcome-char, outcome-digit1}

  -- between `<` and `>`
  abbrev number_part : Bytes → Found Bytes
  number_part i =
      seq (read_char b'<' i) (λ r a.
        seq (read_while1 is_dec r) (λ r' b. seq (read_char b'>' r') (λ r'' c. some (r'', b))))

  outcome-prio :
      (i : Bytes)
      → outcome (prio_and_facility N i)
        ≡ seq
            (seq
              (seq (number_part i) (λ r a. read_res r (utf8 a)))
              (λ r a. read_res r (parse_uint u8_max a)))
            (λ r a. some (r, split_priority a))
  unfolding prio_and_facility
  outcome-prio i =
      simp (outcome-map, outcome-map_res, outcome-delimited, outcome-char, outcome-digit1)

  -- A row of digits in brackets is accepted exactly if its value fits a `u8`, with leading zeros or
  -- without; then severity and facility are the value modulo and divided by eight.
  pub prio-digits :
      (d : ℕ) (ds rest : Bytes)
      → all is_dec (d ∷ ds) ≡ true
      → outcome (prio_and_facility N (b'<' ∷ ((d ∷ ds) ++ (b'>' ∷ rest)))) ≡ (
          if leb (decimal (d ∷ ds)) u8_max
          then some (rest, (decimal (d ∷ ds) % 8, facility_name (decimal (d ∷ ds) / 8)))
          else none)
  prio-digits d ds rest digits =
      outcome-prio _
      ∙ rw (span-append is_dec (d ∷ ds) b'>' rest digits refl) (
          rw (utf8-digits (d ∷ ds) digits) (
            rw (parse_uint_lem u8_max d ds digits) (
              unfold split_priority in
              elim (Bool-cases (leb (decimal (d ∷ ds)) u8_max)) [
                | inl fits ↦ rw fits
                | inr big ↦ rw big
              ])))

  abbrev severity_of : Bytes × Option (ℕ × Bytes) → ℕ
  severity_of o = unwrap_or 5 (option_map (λ (p : ℕ × Bytes). p.0) o.1)

  severity-split :
      (i : Bytes) (o : Found ℕ)
      → severity_of (read_opt i (seq o (λ r a. some (r, split_priority a)))) ≤ 7
  unfolding split_priority
  severity-split i none = omega arith
  severity-split i (some (r, n)) = omega arith

  pub severity_bound : (i : Bytes) → severity_of (read_opt i (outcome (prio_and_facility N i))) ≤ 7
  severity_bound i = rw (outcome-prio i) (severity-split i _)

  module _ (T : Chrono) (now later : T.LocalTime) where
    -- Every packet gives a message and leaves nothing over. The message keeps the packet's whole
    -- text, and its severity is at most 7.
    pub parse_syslog-total :
        (i : Bytes)
        → (m : SyslogMessage T.Time) × (parse_syslog N T now later i ≡ done [] m)
          × (m.full_message ≡ from_utf8_lossy i)
          × (m.priority ≤ 7)
    unfolding build_message
    parse_syslog-total i = (
      build_message N T i later (parts N T now later i),
      parse_syslog_lem N T now later i,
      refl,
      severity_bound i,
    )
