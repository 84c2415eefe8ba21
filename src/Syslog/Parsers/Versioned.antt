-- ===== src/Syslog/Parsers/Versioned.antt =====
-- What `parse_syslog` makes of a message behind a version and an RFC 3339 timestamp.
use yaffle.Base.{
  ◌≡◌, refl, sym, ap, ◌∙◌, [], ◌∷◌, none, some, Bytes, arith, nat_eq, Result, ok, err, Bool-cases,
  Option-cases, inl, inr, codes, from_utf8_lossy,
}
use yaffle.Syslog.Nom.{Nom, done, outcome}
use yaffle.Syslog.Nom.Reference.{Found, seq, read_tag, read_while1, read_until, read_opt, read_res}
use yaffle.Syslog.Chrono.{Chrono}
use yaffle.Syslog.Number.{is_dec}
use yaffle.Syslog.Parsers.{
  SyslogMessage, Parts, prio_and_facility, timestamp, versioned, rfc3339_timestamp, utf8,
  build_message, parse_syslog,
}
use yaffle.Syslog.Parsers.Total.{parts, parse_syslog_lem}
use yaffle.Syslog.Parsers.Names.{
  outcome-hostname, blank_stops_host, blank_stops_ident, outcome-identifier, after_priority,
}

module _ (N : Nom) where
  open N use {
    is_digit, is_alphanumeric, is_space, is_alphanumeric_lem, is_space_lem, outcome-map,
    outcome-map_res, outcome-opt, outcome-alt, outcome-preceded, outcome-terminated, outcome-tag,
    outcome-digit1, outcome-take_while1, outcome-take_until, outcome-tuple2,
  }

  module _ (T : Chrono) (now later : T.LocalTime) where
    open T use {Time, parse_from_rfc3339}

    read_until_blank :
        (i r s : Bytes) → read_until (codes " ") i ≡ some (r, s) → (t : Bytes) × (r ≡ b' ' ∷ t)
    read_until_blank [] r s e = cc e
    read_until_blank (c ∷ i) r s e = elim (Bool-cases (nat_eq b' ' c)) [
      | inl blank ↦ (i, ground arith)
      | inr other ↦ elim (Option-cases (read_until (codes " ") i)) [
        | inl stuck ↦ absurd (ground (arith, stuck))
        | inr ((r', s'), found) ↦
            let (t, back) = read_until_blank i r' s' found in (t, ground (arith, found, back))
      ]
    ]

    outcome-versioned :
        (i : Bytes)
        → outcome (versioned N T i)
          ≡ seq
              (seq
                (read_while1 is_dec i)
                (λ r a. seq (read_tag (codes " ") r) (λ r' b. some (r', a))))
              (λ r a.
                seq
                  (seq (read_until (codes " ") r) (λ r' b. read_res r' (utf8 b)))
                  (λ r' b. read_res r' (parse_from_rfc3339 b)))
    unfolding rfc3339_timestamp
    outcome-versioned i = simp (
      outcome-preceded, outcome-terminated, outcome-digit1, outcome-tag, outcome-map_res,
      outcome-take_until,
    )

    -- what a parse in steps says of its steps
    seq-some :
        {A B : Type 0} (o : Found A) (f : Bytes → A → Found B) (q : Bytes × B)
        → seq o f ≡ some q
        → (r : Bytes) × (a : A) × (o ≡ some (r, a)) × (f r a ≡ some q)
    seq-some none f q e = cc e
    seq-some (some (r, a)) f q e = (r, a, refl, e)

    read_res-rest :
        {X B : Type 0} (r : Bytes) (x : Result X B) (r' : Bytes) (b : B)
        → read_res r x ≡ some (r', b)
        → r ≡ r'
    read_res-rest r (ok b') r' b e = ground arith
    read_res-rest r (err x) r' b e = cc e

    up_to_blank : Bytes → Found Time
    up_to_blank i =
        seq (seq (read_until (codes " ") i) (λ r' b. read_res r' (utf8 b)))
          (λ r' b. read_res r' (parse_from_rfc3339 b))

    up_to_blank_lem :
        (i r : Bytes) (ts : Time) → up_to_blank i ≡ some (r, ts) → (t : Bytes) × (r ≡ b' ' ∷ t)
    unfolding up_to_blank
    up_to_blank_lem i r ts e =
        let (r2, a2, e2, e3) =
          seq-some (seq (read_until (codes " ") i) (λ r' b. read_res r' (utf8 b)))
            (λ r' b. read_res r' (parse_from_rfc3339 b)) (r, ts) e in
        let (r3, a3, found, e4) =
          seq-some (read_until (codes " ") i) (λ r' b. read_res r' (utf8 b)) (r2, a2) e2 in
        let (t, blank) = read_until_blank i r3 a3 found in
        (
          t,
          sym (
                read_res-rest r3 (utf8 a3) r2 a2 e4
                ∙ read_res-rest r2 (parse_from_rfc3339 a2) r ts e3)
              ∙ blank,
        )

    -- The version and RFC 3339 timestamp stop before the blank behind them.
    versioned-blank :
        (i r : Bytes) (ts : Time)
        → outcome (versioned N T i) ≡ some (r, ts)
        → (t : Bytes) × (r ≡ b' ' ∷ t)
    unfolding up_to_blank
    versioned-blank i r ts e =
        let (r1, a1, _, e1) =
          seq-some
            (seq (read_while1 is_dec i)
              (λ r a. seq (read_tag (codes " ") r) (λ r' b. some (r', a))))
            (λ r' a. up_to_blank r') (r, ts) (sym (outcome-versioned i) ∙ e) in
        up_to_blank_lem r1 r ts e1

    stamp_lem :
        (i : Bytes) {q : Bytes × Time}
        → outcome (versioned N T i) ≡ some q
        → outcome (timestamp N T now i) ≡ some q
    unfolding timestamp
    stamp_lem i e = outcome-alt _ _ i ∙ rw e

    -- Behind a version and an RFC 3339 timestamp a blank is left, so neither host nor identifier
    -- nor process id is found: they stay in the message's text, behind that blank.
    pub parse_syslog-versioned :
        (i r : Bytes) (ts : Time)
        → outcome (versioned N T (after_priority N i)) ≡ some (r, ts)
        → (m : SyslogMessage Time) × (t : Bytes) × (parse_syslog N T now later i ≡ done [] m)
          × (r ≡ b' ' ∷ t)
          × (m.source_timestamp ≡ ts)
          × (m.hostname ≡ none)
          × (m.identifier ≡ none)
          × (m.pid ≡ none)
          × (m.message ≡ from_utf8_lossy (b' ' ∷ t))
    unfolding build_message
    parse_syslog-versioned i r ts e =
        let (t, blank) = versioned-blank (after_priority N i) r ts e in
        (
          build_message N T i later (read t),
          t,
          parse_syslog_lem N T now later i
              ∙ ap (λ q. done [] (build_message N T i later q)) (all_parts t blank),
          blank,
          refl,
          refl,
          refl,
          refl,
          refl,
        )
      where
        read : Bytes → Parts N T
        read t = ((read_opt i (outcome (prio_and_facility N i))).1, some ts, none, none, b' ' ∷ t)

        stamp : outcome (timestamp N T now (after_priority N i)) ≡ some (r, ts)
        stamp = stamp_lem (after_priority N i) e

        all_parts : (t : Bytes) → r ≡ b' ' ∷ t → parts N T now later i ≡ read t
        all_parts t blank = rw stamp (
            rw blank (
              rw (outcome-hostname N (b' ' ∷ t)) (
                rw (blank_stops_host N)
                  (rw (outcome-identifier N (b' ' ∷ t)) (rw (blank_stops_ident N) refl)))))
