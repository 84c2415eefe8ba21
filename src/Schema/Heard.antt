-- ===== src/Schema/Heard.antt =====
-- The types of the fields of a message that `parse_syslog` of syslog.rs gives.
use yaffle.Base.{
  refl, subst, Result, err, [], bytes_eq, ℕ, ◌≤◌, ◌≡◌, sym, ap, ◌∙◌, Option, none, some, Bytes, ok,
  and_then, arith, Result-cases, inl, inr, codes,
}
use yaffle.Syslog.Nom.{Nom, done, outcome}
use yaffle.Syslog.Nom.Reference.{Found, seq, read_opt, read_res, read_tag, read_while1}
use yaffle.Syslog.Chrono.{Chrono}
use yaffle.Syslog.Number.{u64_max, parse_uint, parse_uint-le}
use yaffle.Syslog.Parsers.{
  SyslogMessage, parse_syslog, build_message, identifier_and_pid, is_ident_char,
}
use yaffle.Syslog.Parsers.Names.{pid_part, outcome-identifier}
use yaffle.Syslog.Parsers.Priority.{severity_bound}
use yaffle.Syslog.Parsers.Total.{parts, parse_syslog_lem}
use yaffle.Schema.Convert.{Conversions, ℤ, uint, convert_datetime_to_usec}
use yaffle.Schema.Build.{Document, BuildError, panicked, column}
use yaffle.Schema.{from_syslog, document_schema}
use yaffle.Schema.Received.{from_syslog-total, from_syslog-panics}
use yaffle.Schema.Types.{IsI64, IsTyped, HasColumns, DocumentResult}
use yaffle.Schema.Types.Converted.{AllOf}
use yaffle.Schema.Types.Generated.{IsTypedMessage, from_syslog-DocumentResult}

-- a number that was read fits
uint_read :
    (i : Bytes) (o : Found Bytes) (n : ℕ)
    → (read_opt i (seq o (λ r a. read_res r (parse_uint u64_max a)))).1 ≡ some n
    → n ≤ u64_max
uint_read i none n e = cc e
uint_read i (some (r, a)) n e = elim (Result-cases (parse_uint u64_max a)) [
  | inl (x, bad) ↦ absurd (ground (arith, bad, e))
  | inr (m, good) ↦
      let same : m ≡ n = ground (arith, good, e) in parse_uint-le u64_max a n (good ∙ ap ok same)
]

abbrev pid_of : Bytes × Option (Bytes × Option ℕ) → Option ℕ
pid_of o = and_then o.1 (λ (p : Bytes × Option ℕ). p.1)

-- the process id that is kept when the text behind it is as expected
pid_kept :
    (i a : Bytes) (p : Option ℕ) (o : Found Bytes) (n : ℕ)
    → pid_of (read_opt i (seq o (λ r b. some (r, (a, p))))) ≡ some n
    → p ≡ some n
pid_kept i a p none n e = cc e
pid_kept i a p (some (r, b)) n e = e

-- What `from_syslog` gives for a message by its time in microseconds, if that has a number: a
-- document with this time and with a column for each field, or a panic.
abbrev pub DocumentOutcome : {E : Type 0} → Option ℕ → Result (BuildError E) Document → Type 0
DocumentOutcome none r = r ≡ err panicked
DocumentOutcome (some usec) r =
    (doc : Document) × (r ≡ ok doc)
    × HasColumns document_schema.from_syslog_fields doc
    × (column (codes "source_timestamp") doc ≡ some (uint usec))

module _ (C : Conversions) (W : IsTyped C) (Time : Type 0) (timestamp_nanos : Time → Option ℤ)
    (m : SyslogMessage Time) (typed : IsTypedMessage timestamp_nanos m) where
  from_syslog-DocumentOutcome :
      (o : Option ℕ)
      → convert_datetime_to_usec (timestamp_nanos m.source_timestamp) ≡ o
      → DocumentOutcome o (from_syslog C Time timestamp_nanos m)
  from_syslog-DocumentOutcome none never = from_syslog-panics C Time timestamp_nanos m never
  from_syslog-DocumentOutcome (some usec) when =
      let (doc, made, at, _, _, _, _, _, _, _) =
        from_syslog-total C Time timestamp_nanos m usec when in
      let columns =
        subst (DocumentResult document_schema.from_syslog_fields) made
          (from_syslog-DocumentResult C W Time timestamp_nanos m typed) in
      (doc, made, columns, at)

module _ (N : Nom) where
  pid_part-le : (i : Bytes) (n : ℕ) → (pid_part N i).1 ≡ some n → n ≤ u64_max
  unfolding pid_part
  pid_part-le i n e = uint_read i _ n e

  pid_found :
      (i : Bytes) (o : Found Bytes) (n : ℕ)
      → pid_of (
          read_opt i (
            seq
              (seq o (λ r a. seq (some (pid_part N r)) (λ r' b. some (r', (a, b)))))
              (λ r a. seq (read_tag (codes ": ") r) (λ r' b. some (r', a)))))
        ≡ some n
      → n ≤ u64_max
  pid_found i none n e = cc e
  pid_found i (some (r, a)) n e =
      pid_part-le r n (pid_kept i a (pid_part N r).1 (read_tag (codes ": ") (pid_part N r).0) n e)

  pid_bound :
      (i : Bytes) (n : ℕ)
      → pid_of (read_opt i (outcome (identifier_and_pid N i))) ≡ some n
      → n ≤ u64_max
  pid_bound i n e =
      pid_found i (read_while1 (is_ident_char N) i) n
        (ap (λ o. pid_of (read_opt i o)) (sym (outcome-identifier N i)) ∙ e)

  -- The message that `parse_syslog` gives for any packet has fields of their types, if `timestamp_nanos`
  -- gives 64-bit numbers.
  pub parse_syslog-IsTypedMessage :
      (T : Chrono) (timestamp_nanos : T.Time → Option ℤ) (now later : T.LocalTime) (i left : Bytes)
      (m : SyslogMessage T.Time)
      → ((t : T.Time) → AllOf IsI64 (timestamp_nanos t))
      → parse_syslog N T now later i ≡ done left m
      → IsTypedMessage timestamp_nanos m
  unfolding build_message
  parse_syslog-IsTypedMessage T timestamp_nanos now later i left m times e =
      let same : build_message N T i later (parts N T now later i) ≡ m =
        cc (e, parse_syslog_lem N T now later i) in
      rw (sym same) (record {
        priority_bound = omega (arith, severity_bound N i);
        pid_bound = λ n h. pid_bound _ n h;
        timestamp-IsI64 = times _;
      })

  -- Every packet becomes a message, whatever it contains. If the time that was found in it, or the
  -- clock's, has a number of nanoseconds, the message becomes a document with that time in
  -- microseconds, in which every field of the struct has its column, in order and with a value of the
  -- field's type when it has one; and if not, `from_syslog` panics. The called conversions return
  -- values of their types, and `timestamp_nanos` gives 64-bit numbers.
  pub parse_syslog-DocumentOutcome :
      (T : Chrono) (C : Conversions) (W : IsTyped C) (timestamp_nanos : T.Time → Option ℤ)
      (now later : T.LocalTime) (i : Bytes)
      → ((t : T.Time) → AllOf IsI64 (timestamp_nanos t))
      → (m : SyslogMessage T.Time) × (parse_syslog N T now later i ≡ done [] m)
        × DocumentOutcome
            (convert_datetime_to_usec (timestamp_nanos m.source_timestamp))
            (from_syslog C T.Time timestamp_nanos m)
  parse_syslog-DocumentOutcome T C W timestamp_nanos now later i times =
      let parsed = parse_syslog_lem N T now later i in
      let m = build_message N T i later (parts N T now later i) in
      (
        m,
        parsed,
        from_syslog-DocumentOutcome C W T.Time timestamp_nanos m
            (parse_syslog-IsTypedMessage T timestamp_nanos now later i [] m times parsed) _ refl,
      )
