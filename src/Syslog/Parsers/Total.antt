-- ===== src/Syslog/Parsers/Total.antt =====
-- `parse_syslog` accepts every packet and leaves nothing over.
use yaffle.Base.{ℕ, ◌≡◌, ◌∙◌, [], Option, some, Bytes, arith}
use yaffle.Syslog.Nom.{Nom, IResult, done, error, outcome}
use yaffle.Syslog.Nom.Reference.{read_opt}
use yaffle.Syslog.Chrono.{Chrono}
use yaffle.Syslog.Parsers.{
  Parts, build_message, parse_syslog, prio_and_facility, timestamp, hostname, identifier_and_pid,
}

-- a parser that leaves and reads something is done with just that
pub done_of_outcome :
    {E A : Type 0} (x : IResult E A) (r : Bytes) (a : A) → outcome x ≡ some (r, a) → x ≡ done r a
done_of_outcome (done r' a') r a h = ground arith
done_of_outcome (error e) r a h = cc h

module _ (N : Nom) (T : Chrono) (now later : T.LocalTime) where
  open N use {
    Error, rest, opt, outcome-map, outcome-tuple5, outcome-opt, outcome-rest, outcome-map_res,
    outcome-delimited,
  }
  open T use {Time, LocalTime}

  abbrev prio_part : Bytes → Bytes × Option (ℕ × Bytes)
  prio_part i = read_opt i (outcome (prio_and_facility N i))

  abbrev time_part : Bytes → Bytes × Option Time
  time_part i = read_opt i (outcome (timestamp N T now i))

  abbrev host_part : Bytes → Bytes × Option Bytes
  host_part i = read_opt i (outcome (hostname N i))

  abbrev ident_part : Bytes → Bytes × Option (Bytes × Option ℕ)
  ident_part i = read_opt i (outcome (identifier_and_pid N i))

  -- what the optional parts read, one after another, and the text behind them
  abbrev pub parts : Bytes → Parts N T
  parts i =
      let (r1, p) = prio_part i in
      let (r2, t) = time_part r1 in
      let (r3, h) = host_part r2 in let (r4, d) = ident_part r3 in (p, t, h, d, r4)

  outcome-parse_syslog :
      (i : Bytes)
      → outcome (parse_syslog N T now later i) ≡ some ([], build_message N T i later (parts i))
  unfolding parse_syslog
  outcome-parse_syslog i = outcome-map _ _ _ _ i ∙ simp (outcome-tuple5, outcome-opt, outcome-rest)

  pub parse_syslog_lem :
      (i : Bytes) → parse_syslog N T now later i ≡ done [] (build_message N T i later (parts i))
  parse_syslog_lem i = done_of_outcome _ [] _ (outcome-parse_syslog i)
