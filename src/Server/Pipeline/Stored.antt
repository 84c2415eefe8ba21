-- ===== src/Server/Pipeline/Stored.antt =====
-- The batches of main.rs beside the field mappings of the index.
use yaffle.Base.{Option, ◌≡◌, List, [], ◌∷◌, ◌++◌, Bytes, All, All-append, concat, map}
use yaffle.Gelf.Crates.{Crates}
use yaffle.Syslog.Nom.{Nom}
use yaffle.Syslog.Chrono.{Chrono}
use yaffle.Syslog.Parsers.{SyslogMessage}
use yaffle.Schema.Convert.{Conversions, Value, ℤ}
use yaffle.Schema.Build.{Document}
use yaffle.Schema.Types.{IsTyped, IsI64}
use yaffle.Schema.Types.Converted.{AllOf}
use yaffle.Schema.Types.Generated.{IsTypedMessage}
use yaffle.Schema.Heard.{parse_syslog-IsTypedMessage}
use yaffle.Schema.Fits.{IsStored}
use yaffle.Server.Ingest.{fill}
use yaffle.Server.Ingest.Batch.{line, if_survives, all_survive}
use yaffle.Server.Ingest.Stored.{IsTypedIncoming, fill-IsStored}
use yaffle.Server.Pipeline.{
  Record, Pipeline, Step, gelf_quiet, gelf_sends, syslog_sends, takes_gelf, takes_syslog,
  gives_full, gives_at_timeout, Reach, here, next, from_gelf_pipe, from_syslog_pipe,
}

module _ (G : Crates) (N : Nom) (T : Chrono) (C : Conversions) (W : IsTyped C) (Addr : Type 0)
    (timestamp_nanos : T.Time → Option ℤ) (times : (t : T.Time) → AllOf IsI64 (timestamp_nanos t))
    (match_value : G.Value → Value C.Number C.Rest) (lookup_addr : Addr → Bytes)
    (to_writer : Document → Bytes) where
  abbrev Rec : Type 0
  Rec = Record G N T C Addr timestamp_nanos match_value

  abbrev Pipe : Type 0
  Pipe = Pipeline G N T C Addr timestamp_nanos match_value

  abbrev HasTypes : Rec → Type 0
  HasTypes m = IsTypedIncoming C W T.Time Addr timestamp_nanos lookup_addr to_writer m.1

  abbrev Heard : Addr × SyslogMessage T.Time → Type 0
  Heard m = IsTypedMessage timestamp_nanos m.1

  record AreTyped (s : Pipe) : Type 0 where
    waiting : All Heard s.syslog_pipe
    collected : All HasTypes s.chunk
    given : All (All HasTypes) s.batches

  given-AreTyped :
      (s : Pipe)
      → AreTyped s
      → AreTyped (record s { chunk = []; batches = s.batches ++ s.chunk ∷ [] })
  given-AreTyped s h = record {
    waiting = h.waiting;
    collected = tt;
    given = All-append (All HasTypes) s.batches (s.chunk ∷ []) h.given (h.collected, tt);
  }

  Step-AreTyped :
      {s t : Pipe} → Step G N T C Addr timestamp_nanos match_value s t → AreTyped s → AreTyped t
  unfolding from_gelf_pipe from_syslog_pipe
  Step-AreTyped (gelf_quiet st same) h = record {
    waiting = h.waiting;
    collected = h.collected;
    given = h.given;
  }
  Step-AreTyped (gelf_sends m st more room) h = record {
    waiting = h.waiting;
    collected = h.collected;
    given = h.given;
  }
  Step-AreTyped {s} (syslog_sends buffer size source now later rest m parsed room) h = record {
    waiting =
        All-append Heard s.syslog_pipe ((source, m) ∷ []) h.waiting
          (parse_syslog-IsTypedMessage N T timestamp_nanos now later _ rest m times parsed, tt);
    collected = h.collected;
    given = h.given;
  }
  Step-AreTyped {s} (takes_gelf m rest e room) h = record {
    waiting = h.waiting;
    collected = All-append HasTypes s.chunk _ h.collected (tt, tt);
    given = h.given;
  }
  Step-AreTyped {s} (takes_syslog m rest e room) h =
      let (typed, others) : All Heard (m ∷ rest) = rw e at h.waiting in
      record {
        waiting = others;
        collected = All-append HasTypes s.chunk _ h.collected (typed, tt);
        given = h.given;
      }
  Step-AreTyped {s} (gives_full full) h = given-AreTyped s h
  Step-AreTyped {s} (gives_at_timeout some_item) h = given-AreTyped s h

  Reach-AreTyped : {s : Pipe} → Reach G N T C Addr timestamp_nanos match_value s → AreTyped s
  Reach-AreTyped here = record { waiting = tt; collected = tt; given = tt }
  Reach-AreTyped (next r step) = Step-AreTyped step (Reach-AreTyped r)

  -- The body for the batch `chunk` is the lines of documents that all fit the index.
  abbrev pub PostsStored : List Rec → Type 0
  PostsStored chunk =
      (docs : List Document) × (fill C T.Time Addr timestamp_nanos lookup_addr to_writer [] chunk
        ≡ if_survives (all_survive C T.Time Addr timestamp_nanos lookup_addr to_writer chunk)
            (concat (map (line C T.Time Addr timestamp_nanos lookup_addr to_writer) docs)))
      × All IsStored docs

  all_stored : (chunks : List (List Rec)) → All (All HasTypes) chunks → All PostsStored chunks
  all_stored [] h = tt
  all_stored (c ∷ chunks) (typed, h) = (
    fill-IsStored C W T.Time Addr timestamp_nanos lookup_addr to_writer c typed,
    all_stored chunks h,
  )

  -- Whatever packets the receive loops have got, the body for every batch in which the decoding of no
  -- message panics is the lines of documents that fit the index which the server makes: each column
  -- with a storage type and a value has exactly one mapping, and that mapping stores values of its
  -- type; and a batch in which one panics has no body. The called conversions return values of their
  -- types, and `timestamp_nanos` gives 64-bit numbers.
  pub Reach-PostsStored :
      {s : Pipe} → Reach G N T C Addr timestamp_nanos match_value s → All PostsStored s.batches
  Reach-PostsStored {s} r = all_stored s.batches (Reach-AreTyped r).given
