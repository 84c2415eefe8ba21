-- ===== src/Tests/Lines.antt =====
-- One syslog message through the whole server.
use yaffle.Base.{
  false, some, ℕ, ◌≡◌, refl, true, [], ◌∷◌, ◌++◌, inr, Bytes, ok, codes, map, concat, arith,
  from_utf8_lossy,
}
use yaffle.Schema.Convert.{number, pos}
use yaffle.Schema.Build.{Document, is_valid, do_reverse_dns}
use yaffle.Schema.{from_syslog}
use yaffle.Syslog.Parsers.{
  SyslogMessage, build_message, hostname, timestamp, prio_and_facility, rfc3164_timestamp, month,
  identifier_and_pid,
}
use yaffle.Syslog.Parsers.Total.{parts, parse_syslog_lem}
use yaffle.Server.Ingest.{Incoming, syslog, decode}
use yaffle.Server.Ingest.{ingest_loop, answered}
use yaffle.Server.Index.{get_or_create_index, hyper_client}
use yaffle.Server.Pipeline.{
  Pipeline, syslog_sends, takes_syslog, gives_at_timeout, initial, from_syslog_pipe,
}
use yaffle.Server.Pipeline.Delivered.{IsDrained}
use yaffle.Server.Run.{
  Server, ingesting, Reach, here, next, retries, connects, ingests, attempt, ingested,
}
use yaffle.Server.Run.Lines.{line_of, Reach-line}
use yaffle.Tests.Buffers.{crates}
use yaffle.Tests.Run.{world}
use yaffle.Tests.Server.{refuse}
use yaffle.Tests.Nom.{readers, calendar}
use yaffle.Tests.Schema.{naturals}

abbrev hello : SyslogMessage Bytes
hello =
    build_message readers calendar (codes "hello") 2024
      (parts readers calendar 2024 2024 (codes "hello"))

abbrev sent : Incoming naturals Bytes ℕ (λ t. some (pos 5000))
sent = syslog hello

hello_document :
    (doc : Document) × (decode naturals Bytes ℕ (λ t. some (pos 5000)) sent ≡ ok doc)
    × (is_valid doc ≡ true)
unfolding decode from_syslog build_message from_utf8_lossy hostname timestamp prio_and_facility
    rfc3164_timestamp month identifier_and_pid is_valid
hello_document = (_, refl, refl)

abbrev Pipe : Type 0
Pipe = Pipeline crates readers calendar naturals ℕ (λ t. some (pos 5000)) number

abbrev heard_hello : Pipe
heard_hello = record (initial crates readers calendar naturals ℕ (λ t. some (pos 5000)) number) {
  syslog_sent = (3, hello) ∷ [];
  syslog_pipe = (3, hello) ∷ [];
}

abbrev took_hello : Pipe
took_hello = record heard_hello {
  syslog_pipe = [];
  chunk =
      from_syslog_pipe crates readers calendar naturals ℕ (λ t. some (pos 5000)) number (3, hello)
      ∷ [];
}

abbrev gave_hello : Pipe
gave_hello = record took_hello { chunk = []; batches = took_hello.chunk ∷ [] }

abbrev hello_server : Server (world refuse)
hello_server = record {
  connect_wait = 2;
  attempts = 1;
  warned = hyper_client 7 ∷ [];
  slept = 1 ∷ [];
  asked = (attempt (world refuse) 0).0 ++ (attempt (world refuse) 1).0;
  poisoned = false;
  phase = ingesting gave_hello;
}

hello_server-Reach : Reach (world refuse) hello_server
unfolding get_or_create_index ingest_loop answered from_syslog_pipe from_syslog build_message
    hostname timestamp prio_and_facility rfc3164_timestamp month identifier_and_pid is_valid
    from_utf8_lossy
hello_server-Reach =
    next
      (next
        (next (next (next here (retries (hyper_client 7) refl refl refl)) (connects refl refl refl))
          (ingests _ heard_hello refl
            (syslog_sends (codes "hello") 5 3 2024 2024 [] hello
              (parse_syslog_lem readers calendar 2024 2024 (codes "hello")) (omega arith))
            refl))
        (ingests heard_hello took_hello refl (takes_syslog (3, hello) [] refl (omega arith)) refl))
      (ingests took_hello gave_hello refl (gives_at_timeout (λ e. cc e)) refl)

gave_hello-IsDrained :
    IsDrained crates readers calendar naturals ℕ (λ t. some (pos 5000)) number gave_hello
gave_hello-IsDrained = record { no_gelf = refl; no_syslog = refl; no_chunk = refl }

Reach-line_example :
    (before : Bytes) × (after : Bytes) × (concat
        (map (λ (q : Bytes × Bytes). q.1) (ingested (world refuse) gave_hello).0)
      ≡ before ++ (line_of (world refuse) (do_reverse_dns (3 ∷ []) hello_document.0) ++ after))
unfolding from_syslog_pipe
Reach-line_example =
    Reach-line (world refuse) gave_hello 3 sent hello_document.0 hello_server-Reach refl
      gave_hello-IsDrained (inr ([], [], refl)) hello_document.1 hello_document.2
