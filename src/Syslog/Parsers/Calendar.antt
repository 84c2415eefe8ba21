-- ===== src/Syslog/Parsers/Calendar.antt =====
-- The parts of a timestamp of RFC 3164, `Mmm dd hh:mm:ss`: month, day and time.
use yaffle.Base.{
  ℕ, ◌+◌, ◌/◌, ◌%◌, ◌<◌, ◌≡◌, refl, ap, ◌∙◌, true, false, [], ◌∷◌, ◌++◌, some, Bytes, All, all,
  arith, leb, ltb, nat_eq, codes, get_elem?, Bool-cases, inl, inr,
}
use yaffle.Syslog.Nom.{Nom, outcome}
use yaffle.Syslog.Nom.Reference.{
  Found, seq, read_tag, read_res, read_while_m_n, first_of_all, consumed,
}
use yaffle.Syslog.Number.{is_dec, decimal, parse_uint, parse_uint_lem, u8_max}
use yaffle.Syslog.Parsers.{month, month_name, day, time_text, utf8}
use yaffle.Syslog.Parsers.Printed.{
  months, two, day_text, clock, All-get_elem?, two-digits, two-decimal, consumed-append, utf8-clock,
}
use yaffle.Syslog.Parsers.Spans.{utf8-digits}

module _ (N : Nom) where
  open N use {
    is_digit, is_digit_lem, outcome-tag, outcome-alt, outcome-value, outcome-map_res,
    outcome-preceded, outcome-terminated, outcome-take_while_m_n, outcome-recognize,
    outcome-separated_pair, outcome-tuple3,
  }

  outcome-month :
      (i : Bytes)
      → outcome (month N i)
        ≡ first_of_all (
            seq (read_tag (codes "Jan ") i) (λ r b. some (r, 1))
            ∷ seq (read_tag (codes "Feb ") i) (λ r b. some (r, 2))
            ∷ seq (read_tag (codes "Mar ") i) (λ r b. some (r, 3))
            ∷ seq (read_tag (codes "Apr ") i) (λ r b. some (r, 4))
            ∷ seq (read_tag (codes "May ") i) (λ r b. some (r, 5))
            ∷ seq (read_tag (codes "Jun ") i) (λ r b. some (r, 6))
            ∷ seq (read_tag (codes "Jul ") i) (λ r b. some (r, 7))
            ∷ seq (read_tag (codes "Aug ") i) (λ r b. some (r, 8))
            ∷ seq (read_tag (codes "Sep ") i) (λ r b. some (r, 9))
            ∷ seq (read_tag (codes "Oct ") i) (λ r b. some (r, 10))
            ∷ seq (read_tag (codes "Nov ") i) (λ r b. some (r, 11))
            ∷ seq (read_tag (codes "Dec ") i) (λ r b. some (r, 12))
            ∷ [])
  unfolding month month_name
  outcome-month i = simp (outcome-alt, outcome-value, outcome-tag)

  months-read :
      All (λ m. (r : Bytes) → outcome (month N (m.1 ++ (b' ' ∷ r))) ≡ some (r, m.0)) months
  months-read = (
    λ r. outcome-month _,
    (
      λ r. outcome-month _,
      (
        λ r. outcome-month _,
        (
          λ r. outcome-month _,
          (
            λ r. outcome-month _,
            (
              λ r. outcome-month _,
              (
                λ r. outcome-month _,
                (
                  λ r. outcome-month _,
                  (
                    λ r. outcome-month _,
                    (λ r. outcome-month _, (λ r. outcome-month _, (λ r. outcome-month _, tt))),
                  ),
                ),
              ),
            ),
          ),
        ),
      ),
    ),
  )

  pub month-read :
      (m : ℕ × Bytes) (i : ℕ) (r : Bytes)
      → get_elem? months i ≡ some m
      → outcome (month N (m.1 ++ (b' ' ∷ r))) ≡ some (r, m.0)
  month-read m i r listed =
      All-get_elem?
        (λ (m : ℕ × Bytes). (r : Bytes) → outcome (month N (m.1 ++ (b' ' ∷ r))) ≡ some (r, m.0))
        months i m months-read listed r

  two_read :
      (n : ℕ) (c : ℕ) (r : Bytes)
      → n < 100
      → read_while_m_n 2 2 is_digit (two n ++ (c ∷ r)) ≡ some (c ∷ r, two n)
  two_read n c r h = ground (arith, is_digit_lem (b'0' + n / 10), is_digit_lem (b'0' + n % 10))

  outcome-day :
      (i : Bytes)
      → outcome (day N i)
        ≡ seq
            (seq
              (seq
                (first_of_all (
                  seq (read_tag (codes " ") i) (λ r b. read_while_m_n 1 1 is_digit r)
                  ∷ read_while_m_n 2 2 is_digit i
                  ∷ []))
                (λ r a. seq (read_tag (codes " ") r) (λ r' b. some (r', a))))
              (λ r a. read_res r (utf8 a)))
            (λ r a. read_res r (parse_uint u8_max a))
  unfolding day
  outcome-day i = simp (
    outcome-map_res, outcome-terminated, outcome-alt, outcome-preceded, outcome-tag,
    outcome-take_while_m_n,
  )

  one_read :
      (d c : ℕ) (r : Bytes)
      → d < 10
      → read_while_m_n 1 1 is_digit ((b'0' + d) ∷ c ∷ r) ≡ some (c ∷ r, (b'0' + d) ∷ [])
  one_read d c r h = ground (arith, is_digit_lem (b'0' + d))

  digits_number :
      (c : ℕ) (s r : Bytes)
      → all is_dec (c ∷ s) ≡ true
      → decimal (c ∷ s) < 100
      → seq (read_res r (utf8 (c ∷ s))) (λ r a. read_res r (parse_uint u8_max a))
        ≡ some (r, decimal (c ∷ s))
  digits_number c s r digits small =
      rw (utf8-digits (c ∷ s) digits)
        (rw (parse_uint_lem u8_max c s digits) (rw (fits (decimal (c ∷ s)) small) refl))
    where
      fits : (n : ℕ) → n < 100 → leb n u8_max ≡ true
      fits n h = ground arith

  not_blank : (n : ℕ) → nat_eq b' ' (b'0' + n) ≡ false
  not_blank n = ground arith

  -- A day below 100 is read back, up to the blank behind it.
  pub day-day_text :
      (d : ℕ) (r : Bytes) → d < 100 → outcome (day N (day_text d ++ (b' ' ∷ r))) ≡ some (r, d)
  day-day_text d r h = outcome-day _ ∙ elim (Bool-cases (ltb d 10)) [
    | inl small ↦
        let below : d < 10 = ground arith in
        rw small (
          rw (one_read d b' ' r below) (
            digits_number (b'0' + d) [] r (ground arith) (omega arith)
            ∙ ap (λ n. some (r, n)) (omega arith)))
    | inr large ↦ rw large (
        rw (not_blank (d / 10)) (
          rw (two_read d b' ' r h) (
            digits_number (b'0' + d / 10) ((b'0' + d % 10) ∷ []) r (two-digits d h)
              (omega (arith, two-decimal d h))
            ∙ ap (λ n. some (r, n)) (two-decimal d h))))
  ]

  -- two digits, and those behind a colon
  abbrev pair_read : Bytes → Found (Bytes × Bytes)
  pair_read i = seq (read_while_m_n 2 2 is_digit i) (λ r a.
      seq (read_tag (codes ":") r)
        (λ r' b. seq (read_while_m_n 2 2 is_digit r') (λ r'' c. some (r'', (a, c)))))

  abbrev triple_read : Bytes → Found ((Bytes × Bytes) × Bytes)
  triple_read i = seq (pair_read i) (λ r a.
      seq (read_tag (codes ":") r)
        (λ r' b. seq (read_while_m_n 2 2 is_digit r') (λ r'' c. some (r'', (a, c)))))

  outcome-time_text :
      (i : Bytes)
      → outcome (time_text N i)
        ≡ seq
            (seq
              (seq (triple_read i) (λ r a. some (r, consumed i r)))
              (λ r a. seq (read_tag (codes " ") r) (λ r' b. some (r', a))))
            (λ r a. read_res r (utf8 a))
  unfolding time_text
  outcome-time_text i = simp (
    outcome-map_res, outcome-terminated, outcome-recognize, outcome-separated_pair, outcome-tag,
    outcome-take_while_m_n,
  )

  pub clock-read :
      (h m s : ℕ) (r : Bytes)
      → h < 100
      → m < 100
      → s < 100
      → outcome (time_text N (clock h m s ++ (b' ' ∷ r))) ≡ some (r, clock h m s)
  clock-read h m s r hh hm hs =
      outcome-time_text _
      ∙ rw (two_read h b':' (two m ++ (b':' ∷ (two s ++ (b' ' ∷ r)))) hh) (
          rw (two_read m b':' (two s ++ (b' ' ∷ r)) hm) (
            rw (two_read s b' ' r hs) (
              rw (consumed-append (clock h m s) (b' ' ∷ r)) (rw (utf8-clock h m s hh hm hs) refl))))
