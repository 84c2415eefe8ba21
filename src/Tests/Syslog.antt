-- ===== src/Tests/Syslog.antt =====
-- The syslog parser's theorems at texts.
use yaffle.Base.{
  ℕ, map, List, ◌≤◌, ◌≡◌, refl, [], ◌∷◌, none, some, Bytes, codes, from_utf8_lossy, from_utf8,
}
use yaffle.Syslog.Nom.{done, outcome}
use yaffle.Syslog.Number.{parse_uint}
use yaffle.Syslog.Facility.{split_priority}
use yaffle.Syslog.Parsers.{
  SyslogMessage, parse_syslog, prio_and_facility, timestamp, versioned, rfc3164_timestamp,
  rfc3339_timestamp, month, month_name, day, time, time_text, this_year, zoned,
}
use yaffle.Syslog.Parsers.Priority.{prio-digits, parse_syslog-total}
use yaffle.Syslog.Parsers.Names.{after_priority}
use yaffle.Syslog.Parsers.Versioned.{parse_syslog-versioned}
use yaffle.Syslog.RecvLoop.{
  Received, packet, receive_error, run_recv_loop, run_recv_loop-texts, texts, full_text,
}
use yaffle.Tests.Nom.{readers, calendar}

prio-digits_example :
    outcome (prio_and_facility readers (codes "<165>x")) ≡ some (codes "x", (5, codes "local4"))
unfolding split_priority
prio-digits_example = prio-digits readers b'1' (codes "65") (codes "x") refl

abbrev pub old_line : Bytes
old_line = codes "<30>Mar  7 10:20:30 web sshd[42]: hi"

parse_syslog-total_example :
    (m : SyslogMessage Bytes) × (parse_syslog readers calendar 2024 2024 old_line ≡ done [] m)
    × (m.full_message ≡ from_utf8_lossy old_line)
    × (m.priority ≤ 7)
parse_syslog-total_example = parse_syslog-total readers calendar 2024 2024 old_line

pub old_stamp :
    outcome (timestamp readers calendar 2024 (after_priority readers old_line))
    ≡ some (codes "web sshd[42]: hi", 2024 ∷ [])
unfolding from_utf8 timestamp prio_and_facility split_priority parse_uint rfc3164_timestamp month
    day time month_name this_year zoned time_text
old_stamp = refl

abbrev new_line : Bytes
new_line = codes "<165>1 2003-10-11 web su - x"

new_stamp :
    outcome (versioned readers calendar (after_priority readers new_line))
    ≡ some (codes " web su - x", codes "2003-10-11")
unfolding from_utf8 prio_and_facility split_priority parse_uint rfc3339_timestamp
new_stamp = refl

parse_syslog-versioned_example :
    (m : SyslogMessage Bytes) × (t : Bytes) × (parse_syslog readers calendar 2024 2024 new_line
      ≡ done [] m)
    × (codes " web su - x" ≡ b' ' ∷ t)
    × (m.source_timestamp ≡ codes "2003-10-11")
    × (m.hostname ≡ none)
    × (m.identifier ≡ none)
    × (m.pid ≡ none)
    × (m.message ≡ from_utf8_lossy (b' ' ∷ t))
parse_syslog-versioned_example =
    parse_syslog-versioned readers calendar 2024 2024 new_line (codes " web su - x")
      (codes "2003-10-11") new_stamp

abbrev arrived : List (Received readers calendar ℕ)
arrived = packet old_line 36 1 2024 2024 ∷ receive_error ∷ packet (codes "hello") 2 2 2024 2024 ∷ []

run_recv_loop-texts_example :
    map (full_text readers calendar ℕ) (run_recv_loop readers calendar ℕ arrived)
    ≡ texts readers calendar ℕ arrived
run_recv_loop-texts_example = run_recv_loop-texts readers calendar ℕ arrived
