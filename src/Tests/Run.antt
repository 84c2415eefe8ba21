-- ===== src/Tests/Run.antt =====
-- The whole server: its second attempt finds Quickwit, and one GELF message goes through it.
use yaffle.Base.{
  none, some, ℕ, zero, suc, ◌++◌, refl, true, false, [], ◌∷◌, Bytes, Result, ok, err, codes, arith,
  nat_eq, if◌then◌else◌,
}
use yaffle.Gelf.Chunks.Size.{partials_size}
use yaffle.Gelf.Packet.{classify}
use yaffle.Gelf.Parse.{parse_packet, parse_type}
use yaffle.Gelf.RecvLoop.{on_packet, forwarded}
use yaffle.Schema.Convert.{number, pos}
use yaffle.Server.Index.{Request, Response, uri_build, hyper_client, get_or_create_index}
use yaffle.Server.Ingest.{error, panic, ingest_loop, answered}
use yaffle.Server.Main.{Main, with_args, draining, returned}
use yaffle.Server.Main as Main
use yaffle.Schema.{from_gelf}
use yaffle.Schema.Build.{is_valid}
use yaffle.Server.Pipeline.{from_gelf_pipe, gelf_sends, takes_gelf, gives_at_timeout}
use yaffle.Server.Run.{
  World, Server, ingesting, ended, Reach, here, next, retries, connects, ingests, attempt,
}
use yaffle.Tests.Service.{requests}
use yaffle.Server.Run.Delivered.{Records, ArePosted, Reach-ArePosted}
use yaffle.Server.Setup.{Arg}
use yaffle.Tests.Buffers.{crates}
use yaffle.Tests.Nom.{readers, calendar}
use yaffle.Tests.Pipeline.{hi, packet, sent_hi, took_hi, gave_hi, gave_hi-IsDrained}
use yaffle.Tests.Schema.{naturals}
use yaffle.Tests.Server.{quickwit, empty_store, refuse}

-- Nobody answers the first attempt.
abbrev late : ℕ → Request → Result ℕ (Response ℕ)
late zero r = err 7
late (suc n) r = empty_store r

abbrev arguments : Arg → Bytes
arguments a = if nat_eq a.short b'q' then codes "q/" else codes "i"

-- Quickwit answers each batch by `post`.
abbrev pub world : (ℕ → Bytes → Bytes → Result ℕ (Response ℕ)) → World
world post =
    with_args
      (record {
        gelf_crates = crates;
        nom = readers;
        chrono = calendar;
        conversions = naturals;
        Addr = ℕ;
        timestamp_nanos = λ t. some (pos 5000);
        match_value = number;
        lookup_addr = λ a. a ∷ [];
        to_writer = λ d. codes "{}";
        client = quickwit;
        answers = late;
        post = post;
        settings = record { quickwit_url = []; quickwit_index = [] };
        requests = requests;
      })
      arguments

abbrev before_gave : (post : ℕ → Bytes → Bytes → Result ℕ (Response ℕ)) → Server (world post)
before_gave post = record {
  connect_wait = 2;
  attempts = 1;
  warned = hyper_client 7 ∷ [];
  slept = 1 ∷ [];
  asked = (attempt (world post) 0).0 ++ (attempt (world post) 1).0;
  poisoned = false;
  phase = ingesting took_hi;
}

before_gave-Reach :
    (post : ℕ → Bytes → Bytes → Result ℕ (Response ℕ)) → Reach (world post) (before_gave post)
unfolding on_packet parse_packet classify parse_type partials_size get_or_create_index ingest_loop
before_gave-Reach post =
    next
      (next (next (next here (retries (hyper_client 7) refl refl refl)) (connects refl refl refl)) (
        ingests _ sent_hi refl
          (gelf_sends (4, hi) (forwarded packet 3 4 hi refl) refl (omega arith)) refl))
      (ingests sent_hi took_hi refl (takes_gelf (4, hi) [] refl (omega arith)) refl)

-- Quickwit refuses the batch, and says why.
abbrev gave_server : Server (world refuse)
gave_server = record (before_gave refuse) { phase = ingesting gave_hi }

gave_server-Reach : Reach (world refuse) gave_server
unfolding ingest_loop answered from_gelf_pipe from_gelf is_valid
gave_server-Reach =
    next (before_gave-Reach refuse)
      (ingests took_hi gave_hi refl (gives_at_timeout (λ e. cc e)) refl)

Reach-ArePosted_example :
    (records : Records (world refuse)) × ArePosted (world refuse) gave_hi records
Reach-ArePosted_example =
    Reach-ArePosted (world refuse) gave_hi gave_server-Reach refl gave_hi-IsDrained

-- Quickwit refuses the batch, and the reason cannot be read.
abbrev break_off : ℕ → Bytes → Bytes → Result ℕ (Response ℕ)
break_off n uri body = ok (record { status = 500; body = err 9 })

abbrev ended_server : Server (world break_off)
ended_server = record (before_gave break_off) { phase = ended (err (error 9)) }

abbrev closed : Main (world break_off) ℕ
closed = record { receiver = ended_server; shutdown = true; http = returned (ok tt) }

-- No URI can be read, and the URL is no base of others.
abbrev lost : World
lost = record (world refuse) {
  client = record quickwit { parse_uri = λ u. err 3 };
  requests = record requests { with_segments = λ u segments. none };
}

-- Two attempts, a search, and the end at the lock.
abbrev lost_server : Server lost
lost_server = record {
  connect_wait = 4;
  attempts = 2;
  warned = uri_build 3 ∷ uri_build 3 ∷ [];
  slept = 1 ∷ 2 ∷ [];
  asked = [];
  poisoned = true;
  phase = ended (err panic);
}
