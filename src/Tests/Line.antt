-- ===== src/Tests/Line.antt =====
-- A line of syslog text, its timestamp and its document.
use yaffle.Base.{
  ◌≡◌, refl, [], ◌∷◌, ◌++◌, none, some, Option, Bytes, codes, from_utf8_lossy, ok, bytes_eq, arith,
  ltb, ◌&&◌,
}
use yaffle.Syslog.Nom.{done, outcome}
use yaffle.Syslog.Parsers.{
  SyslogMessage, parse_syslog, rfc3164_timestamp, is_host_char, is_ident_char,
}
use yaffle.Syslog.Parsers.Printed.{stamp, clock}
use yaffle.Syslog.Parsers.Stamp.{stands_for, rfc3164_timestamp-stands_for}
use yaffle.Schema.Convert.{uint, text, ℤ, pos, convert_datetime_to_usec}
use yaffle.Schema.Build.{Document, column, is_valid}
use yaffle.Schema.{from_syslog}
use yaffle.Schema.Line.{not_empty, parse_syslog-document}
use yaffle.Tests.Nom.{readers, calendar}
use yaffle.Tests.Syslog.{old_line, old_stamp}
use yaffle.Tests.Schema.{naturals}

rfc3164_timestamp-stands_for_example :
    outcome (
      rfc3164_timestamp readers calendar 2024
        (stamp (codes "Mar") 7 10 20 30 ++ (b' ' ∷ codes "web")))
    ≡ stands_for readers calendar 2024
        (codes "web")
        3
        7
        (calendar.parse_time (clock 10 20 30) (codes "%H:%M:%S"))
rfc3164_timestamp-stands_for_example =
    rfc3164_timestamp-stands_for readers calendar 2024 (3, codes "Mar") 2 7 10 20 30 (codes "web")
      refl (omega arith) (omega arith) (omega arith) (omega arith)

stamp_text : stamp (codes "Mar") 7 10 20 30 ≡ codes "Mar  7 10:20:30"
stamp_text = refl

abbrev nanos : Bytes → Option ℤ
nanos [] = none
nanos (n ∷ s) = some (pos n)

parse_syslog-document_example :
    (m : SyslogMessage Bytes) × (doc : Document) × (parse_syslog readers calendar 2024 2024 old_line
      ≡ done [] m)
    × (from_syslog naturals Bytes nanos m ≡ ok doc)
    × (column (codes "source_timestamp") doc ≡ some (uint 2))
    × (column (codes "hostname") doc ≡ some (text (from_utf8_lossy (codes "web"))))
    × (column (codes "syslog_identifier") doc ≡ some (text (from_utf8_lossy (codes "sshd"))))
    × (column (codes "syslog_pid") doc ≡ some (uint 42))
    × (column (codes "message") doc ≡ some (text (from_utf8_lossy (codes "hi"))))
    × (is_valid doc ≡ (ltb 0 2 && not_empty (from_utf8_lossy (codes "hi"))))
unfolding is_host_char is_ident_char convert_datetime_to_usec
parse_syslog-document_example =
    parse_syslog-document readers calendar 2024 2024 naturals nanos old_line (2024 ∷ []) 2 b'w'
      (codes "eb") b's' (codes "shd") b'4' (codes "2") (codes "hi") old_stamp refl refl refl refl
      refl
