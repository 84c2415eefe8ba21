-- ===== src/Server/Pipeline.antt =====
-- `run_server` behind its set-up: the two receive loops, the channels that they send into, and the
-- stream that `ingest_loop` takes its batches from. Each thing that can happen is a step.
pub mod InOrder
pub mod Posted
pub mod Delivered
pub mod Stored
use yaffle.Base.{
  Option, ℕ, ◌+◌, ◌≤◌, ◌<◌, ◌≡◌, ◌≢◌, List, [], ◌∷◌, ◌++◌, Bytes, length, take, map, concat,
}
use yaffle.Gelf.Crates.{Crates, GelfMessage}
use yaffle.Gelf.RecvLoop.{Loop, start}
use yaffle.Gelf.RecvLoop as RecvLoop
use yaffle.Syslog.Nom.{Nom, done}
use yaffle.Syslog.Chrono.{Chrono}
use yaffle.Syslog.Parsers.{SyslogMessage, parse_syslog}
use yaffle.Schema.Convert.{Conversions, Value, ℤ}
use yaffle.Server.Ingest.{Incoming, gelf, syslog}

-- `mpsc::channel(10)` and `BATCH_SIZE`
abbrev pub channel_capacity : ℕ
channel_capacity = 10

abbrev pub batch_size : ℕ
batch_size = 10

-- `match_value` is how schema.rs sees a `serde_json::Value` of a GELF message.
module _ (G : Crates) (N : Nom) (T : Chrono) (C : Conversions) (Addr : Type 0)
    (timestamp_nanos : T.Time → Option ℤ) (match_value : G.Value → Value C.Number C.Rest) where
  abbrev pub Record : Type 0
  Record = Addr × Incoming C T.Time Addr timestamp_nanos

  abbrev pub GelfSent : Type 0
  GelfSent = Addr × GelfMessage G.Value

  abbrev pub SyslogSent : Type 0
  SyslogSent = Addr × SyslogMessage T.Time

  abbrev match_values : List (Bytes × G.Value) → List (Bytes × Value C.Number C.Rest)
  match_values = map (λ (f : Bytes × G.Value). (f.0, match_value f.1))

  -- `.map(|(src, x)| (src, Incoming::Gelf(x)))`, and the same for syslog
  unfoldable pub from_gelf_pipe : GelfSent → Record
  from_gelf_pipe (src, x) = (
    src,
    gelf (record {
      version = x.version;
      host = x.host;
      short_message = x.short_message;
      other = match_values x.other;
    }),
  )

  unfoldable pub from_syslog_pipe : SyslogSent → Record
  from_syslog_pipe (src, y) = (src, syslog y)

  pub record Pipeline : Type 0 where
    pub gelf_loop : Loop G Addr
    pub gelf_pipe : List GelfSent
    -- what the syslog loop has sent so far, and what is still in its channel
    pub syslog_sent : List SyslogSent
    pub syslog_pipe : List SyslogSent
    -- the items that `chunks_timeout` has collected, and the batches that it has given
    pub chunk : List Record
    pub batches : List (List Record)

  pub data Step (s : Pipeline) : Pipeline → Type 0 where
    -- a step of the GELF loop that sends nothing
    gelf_quiet :
        {l : Loop G Addr}
        → RecvLoop.Step G Addr s.gelf_loop l
        → l.sent ≡ s.gelf_loop.sent
        → Step s (record s { gelf_loop = l })
    -- one that sends a message: it waits while the channel is full
    gelf_sends :
        {l : Loop G Addr} (m : GelfSent)
        → RecvLoop.Step G Addr s.gelf_loop l
        → l.sent ≡ s.gelf_loop.sent ++ m ∷ []
        → length s.gelf_pipe < channel_capacity
        → Step s (record s { gelf_loop = l; gelf_pipe = s.gelf_pipe ++ m ∷ [] })
    syslog_sends :
        (buffer : Bytes) (size : ℕ) (source : Addr) (now later : T.LocalTime) (rest : Bytes)
        (m : SyslogMessage T.Time)
        → parse_syslog N T now later (take size buffer) ≡ done rest m
        → length s.syslog_pipe < channel_capacity
        → Step s (record s {
          syslog_sent = s.syslog_sent ++ (source, m) ∷ [];
          syslog_pipe = s.syslog_pipe ++ (source, m) ∷ [];
        })
    -- the merged stream takes from either channel, until the batch is full
    takes_gelf :
        (m : GelfSent) (rest : List GelfSent)
        → s.gelf_pipe ≡ m ∷ rest
        → length s.chunk < batch_size
        → Step s (record s { gelf_pipe = rest; chunk = s.chunk ++ from_gelf_pipe m ∷ [] })
    takes_syslog :
        (m : SyslogSent) (rest : List SyslogSent)
        → s.syslog_pipe ≡ m ∷ rest
        → length s.chunk < batch_size
        → Step s (record s { syslog_pipe = rest; chunk = s.chunk ++ from_syslog_pipe m ∷ [] })
    -- a full batch is given, or after the timeout one that has an item
    gives_full :
        length s.chunk ≡ batch_size
        → Step s (record s { chunk = []; batches = s.batches ++ s.chunk ∷ [] })
    gives_at_timeout :
        s.chunk ≢ [] → Step s (record s { chunk = []; batches = s.batches ++ s.chunk ∷ [] })

  abbrev pub initial : Pipeline
  initial = record {
    gelf_loop = start G Addr;
    gelf_pipe = [];
    syslog_sent = [];
    syslog_pipe = [];
    chunk = [];
    batches = [];
  }

  pub data Reach : Pipeline → Type 0 where
    here : Reach initial
    next : {s t : Pipeline} → Reach s → Step s t → Reach t
