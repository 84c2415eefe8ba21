-- ===== src/Server/Run.antt =====
-- `run_server`: it waits for the index, and then receives and ingests messages until the ingest loop
-- fails or panics. The receive loops end only when their channel does, so the ingest loop's stream has no end.
pub mod Ready
pub mod Delivered
pub mod Lines
use yaffle.Base.{
  Option, ℕ, suc, ◌+◌, ◌*◌, ◌≡◌, List, [], ◌∷◌, ◌++◌, Bytes, Result, ok, err, min, Bool, true,
  false, ◌&&◌, Option, none, leb, length,
}
use yaffle.Gelf.Crates.{Crates}
use yaffle.Syslog.Nom.{Nom}
use yaffle.Syslog.Chrono.{Chrono}
use yaffle.Schema.Convert.{Conversions, Value, ℤ}
use yaffle.Schema.Build.{Document}
use yaffle.Server.Index.{Client, Request, Response, YaffleError, Done, get_or_create_index}
use yaffle.App.{SearchOptions}
use yaffle.Server.Ingest.{Stop, panic, ingest_loop}
use yaffle.Server.Search.Service.{Requests, build_search_uri}
use yaffle.Server.Pipeline.{Pipeline, initial}
use yaffle.Server.Pipeline as Pipeline
use yaffle.Server.Setup.{Settings}

-- Everything the server calls that is not its own, and its settings. Quickwit may answer each attempt
-- to make sure of the index in another way: `answers n` are its answers to attempt `n`, and `post n` is its answer to batch `n`.
pub record World : Type 1 where
  pub gelf_crates : Crates
  pub nom : Nom
  pub chrono : Chrono
  pub conversions : Conversions
  pub Addr : Type 0
  pub timestamp_nanos : chrono.Time → Option ℤ
  pub match_value : gelf_crates.Value → Value conversions.Number conversions.Rest
  pub lookup_addr : Addr → Bytes
  pub to_writer : Document → Bytes
  pub client : Client
  pub answers : ℕ → Request → Result client.Error (Response client.Error)
  pub post : ℕ → Bytes → Bytes → Result client.Error (Response client.Error)
  pub settings : Settings
  -- what the searches of the HTTP server call
  pub requests : Requests

module _ (W : World) where
  open W use {
    gelf_crates, nom, chrono, conversions, Addr, timestamp_nanos, match_value, lookup_addr,
    to_writer, client, answers, post, settings, requests,
  }

  abbrev pub Pipe : Type 0
  Pipe = Pipeline gelf_crates nom chrono conversions Addr timestamp_nanos match_value

  abbrev pub empty_pipe : Pipe
  empty_pipe = initial gelf_crates nom chrono conversions Addr timestamp_nanos match_value

  abbrev pub PipeStep : Pipe → Pipe → Type 0
  PipeStep = Pipeline.Step gelf_crates nom chrono conversions Addr timestamp_nanos match_value

  -- attempt `n`: its requests, and what it returns
  abbrev pub attempt : ℕ → List Request × Result (YaffleError client.Error) Unit
  attempt n =
      get_or_create_index (record client { send = answers n }) settings.quickwit_url
        settings.quickwit_index

  -- the requests for the batches that the loop has got, and whether it goes on; `poisoned n` is
  -- whether it finds the lock poisoned at batch `n`
  abbrev pub ingested_under :
      (ℕ → Bool) → Pipe → List (Bytes × Bytes) × Result (Stop client.Error) Unit
  ingested_under poisoned p =
      ingest_loop conversions chrono.Time Addr timestamp_nanos lookup_addr to_writer client.Error
        client.parse_uri poisoned post 0 settings.quickwit_url settings.quickwit_index p.batches

  -- while the lock is in order
  abbrev pub ingested : Pipe → List (Bytes × Bytes) × Result (Stop client.Error) Unit
  ingested = ingested_under (λ n. false)

  -- A lock that is poisoned now is so for the batches that `p` has not given yet.
  abbrev pub from_now : Bool → Pipe → ℕ → Bool
  from_now poisoned p n = poisoned && leb (length p.batches) n

  pub data Phase : Type 0 where
    connecting : Phase
    ingesting : Pipe → Phase
    ended : Result (Stop client.Error) Unit → Phase

  -- `warned` are the errors of the attempts that failed, `slept` the seconds between the attempts.
  -- `poisoned` is the lock of the settings, which the receiver shares with the HTTP server: a panic
  -- poisons the lock that it holds.
  pub record Server : Type 0 where
    pub connect_wait : ℕ
    pub attempts : ℕ
    pub warned : List (YaffleError client.Error)
    pub slept : List ℕ
    pub asked : List Request
    pub poisoned : Bool
    pub phase : Phase

  abbrev pub fresh_server : Server
  fresh_server = record {
    connect_wait = 1;
    attempts = 0;
    warned = [];
    slept = [];
    asked = [];
    poisoned = false;
    phase = connecting;
  }

  pub data Step (s : Server) : Server → Type 0 where
    -- a search of the HTTP server panics in `build_search_uri`, with the lock
    search_panics :
        (sp : SearchOptions)
        → build_search_uri requests settings.quickwit_url settings.quickwit_index sp ≡ none
        → Step s (record s { poisoned = true })
    -- `settings.lock().unwrap()` before an attempt
    lock_panics :
        s.phase ≡ connecting → s.poisoned ≡ true → Step s (record s { phase = ended (err panic) })
    -- `Err(err)`: a warning, a sleep, and the next attempt waits longer
    retries :
        (e : YaffleError client.Error)
        → s.phase ≡ connecting
        → s.poisoned ≡ false
        → (attempt s.attempts).1 ≡ err e
        → Step s (record s {
          connect_wait = min (s.connect_wait * 2) 10;
          attempts = suc s.attempts;
          warned = s.warned ++ e ∷ [];
          slept = s.slept ++ s.connect_wait ∷ [];
          asked = s.asked ++ (attempt s.attempts).0;
        })
    -- `Ok(_) => break`; the channels are made and the receive loops spawned
    connects :
        s.phase ≡ connecting
        → s.poisoned ≡ false
        → (attempt s.attempts).1 ≡ ok tt
        → Step s
            (record s { asked = s.asked ++ (attempt s.attempts).0; phase = ingesting empty_pipe })
    -- a step of the receive loops and the channels; a batch that it gives is posted
    ingests :
        (p q : Pipe)
        → s.phase ≡ ingesting p
        → PipeStep p q
        → (ingested_under (from_now s.poisoned p) q).1 ≡ ok tt
        → Step s (record s { phase = ingesting q })
    -- `?` in `ingest_loop`, or a panic there
    fails :
        (p q : Pipe) (x : Stop client.Error)
        → s.phase ≡ ingesting p
        → PipeStep p q
        → (ingested_under (from_now s.poisoned p) q).1 ≡ err x
        → Step s (record s { phase = ended (err x) })

  pub data Reach : Server → Type 0 where
    here : Reach fresh_server
    next : {s t : Server} → Reach s → Step s t → Reach t
