-- ===== src/Server/Run/Delivered.antt =====
-- What `run_server` of main.rs has posted, and how it ends.
use yaffle.Base.{
  ℕ, Bool, true, false, refl, sym, subst, inl, inr, ok, ◌∷◌, ◌++◌, ◌≡◌, ◌⊎◌, List, Bytes, Result,
  err, map, concat,
}
use yaffle.Server.Ingest.{Stop, error, panic, ingest_uri}
use yaffle.Server.Ingest.Batch.{all_survive, fill-none}
use yaffle.Server.Ingest.Ends.{ingest_loop-ok, Unreadable}
use yaffle.Server.Pipeline.{Record, from_gelf_pipe, from_syslog_pipe}
use yaffle.Server.Pipeline.InOrder.{Reach-IsInOrder, of_gelf, of_syslog}
use yaffle.Server.Pipeline.Posted.{lines, concat-bodies}
use yaffle.Server.Pipeline.Delivered.{IsDrained, emptied}
use yaffle.Server.Run.{World, Server, Reach, Pipe, Phase, ingesting, ended, ingested}
use yaffle.Server.Run.Ready.{PhaseOf, Reach-PhaseOf, ReachPipe, HasPoisoned, EndsAt}

module _ (W : World) where
  open W use {
    gelf_crates, nom, chrono, conversions, Addr, timestamp_nanos, match_value, lookup_addr,
    to_writer, client, post, settings,
  }

  abbrev pub Records : Type 0
  Records = List (Record gelf_crates nom chrono conversions Addr timestamp_nanos match_value)

  -- `records` are the messages that the receive loops of `p` have sent, each source in its order, and
  -- the bodies posted are their lines.
  pub record ArePosted (p : Pipe W) (records : Records) : Type 0 where
    pub posted :
        concat (map (λ (q : Bytes × Bytes). q.1) (ingested W p).0)
        ≡ lines conversions chrono.Time Addr timestamp_nanos lookup_addr to_writer records
    pub gelf_order :
        of_gelf gelf_crates nom chrono conversions Addr timestamp_nanos match_value records
        ≡ map
            (from_gelf_pipe gelf_crates nom chrono conversions Addr timestamp_nanos match_value)
            p.gelf_loop.sent
    pub syslog_order :
        of_syslog gelf_crates nom chrono conversions Addr timestamp_nanos match_value records
        ≡ map
            (from_syslog_pipe gelf_crates nom chrono conversions Addr timestamp_nanos match_value)
            p.syslog_sent

  phase_at : {s : Server W} (ph : Phase W) → s.phase ≡ ph → Reach W s → PhaseOf W ph
  phase_at ph now r = rw now at (Reach-PhaseOf W r)

  -- Whenever the server ingests and nothing waits in the channels or for a batch, the bodies it has
  -- posted are together the lines of all messages that the two receive loops have sent, those of each
  -- source in their order: each that decodes to a valid document has its line.
  pub Reach-ArePosted :
      {s : Server W} (p : Pipe W)
      → Reach W s
      → s.phase ≡ ingesting p
      → IsDrained gelf_crates nom chrono conversions Addr timestamp_nanos match_value p
      → (records : Records) × ArePosted p records
  Reach-ArePosted {s} p reached now drained =
      let (piped, goes_on) = phase_at (ingesting p) now reached in
      let order =
        Reach-IsInOrder gelf_crates nom chrono conversions Addr timestamp_nanos match_value piped in
      (
        concat p.batches,
        record {
          posted =
              concat-bodies conversions chrono.Time Addr timestamp_nanos lookup_addr to_writer
                (map (λ (q : Bytes × Bytes). q.1) (ingested W p).0) p.batches
                (ingest_loop-ok conversions chrono.Time Addr timestamp_nanos lookup_addr to_writer
                  client.Error client.parse_uri (λ n. false) post settings.quickwit_url
                  settings.quickwit_index 0 p.batches goes_on).0;
          gelf_order =
              emptied (of_gelf gelf_crates nom chrono conversions Addr timestamp_nanos match_value)
                _ (concat p.batches) p.chunk p.gelf_pipe _ drained.no_chunk drained.no_gelf
                order.gelf_order;
          syslog_order =
              emptied
                (of_syslog gelf_crates nom chrono conversions Addr timestamp_nanos match_value) _
                (concat p.batches) p.chunk p.syslog_pipe _ drained.no_chunk drained.no_syslog
                order.syslog_order;
        },
      )

  -- The decoding of a message in a batch of `p` panics.
  abbrev pub HasUndecodable : Pipe W → Type 0
  HasUndecodable p =
      (before : List Records) × (c : Records) × (after : List Records) × (p.batches
        ≡ before ++ (c ∷ after))
      × (all_survive conversions chrono.Time Addr timestamp_nanos lookup_addr to_writer c ≡ false)

  -- Why the receiver has ended: the URI for the batches is none, or Quickwit has answered a batch with
  -- an error status and a body that could not be read; or it has panicked, at the lock that a panic of
  -- a search has poisoned or at a message.
  abbrev pub Why : Stop client.Error → Type 0
  Why (error e) =
      (client.parse_uri (ingest_uri settings.quickwit_url settings.quickwit_index) ≡ err e)
      ⊎ ((p : Pipe W) × (poisoned : ℕ → Bool) × ReachPipe W p
          × Unreadable conversions chrono.Time Addr timestamp_nanos lookup_addr to_writer
              client.Error client.parse_uri poisoned post settings.quickwit_url
              settings.quickwit_index 0 p.batches e)
  Why panic = HasPoisoned W ⊎ ((p : Pipe W) × ReachPipe W p × HasUndecodable p)

  -- the phase of a receiver that has ended
  abbrev pub HasFailed : Phase W → Type 0
  HasFailed phase = (x : Stop client.Error) × (phase ≡ ended (err x)) × Why x

  why :
      (x : Stop client.Error) (p : Pipe W) (poisoned : ℕ → Bool)
      → ReachPipe W p
      → ((n : ℕ) → poisoned n ≡ true → HasPoisoned W)
      → EndsAt W poisoned p x
      → Why x
  why (error e) p poisoned reached by (inl bad) = inl bad
  why (error e) p poisoned reached by (inr unread) = inr (p, poisoned, reached, unread)
  why panic p poisoned reached by (before, c, after, there, inl late) = inl (by _ late)
  why panic p poisoned reached by (before, c, after, there, inr nothing) =
      let stuck =
        fill-none conversions chrono.Time Addr timestamp_nanos lookup_addr to_writer c nothing in
      inr (p, reached, (before, c, after, there, stuck))

  failed_at : (r : Result (Stop client.Error) Unit) → PhaseOf W (ended r) → HasFailed (ended r)
  failed_at (ok tt) h = absurd h
  failed_at (err x) (inl (same, poisoned)) = (x, refl, subst Why (sym same) (inl poisoned))
  failed_at (err x) (inr (p, poisoned, reached, by, ends)) =
      (x, refl, why x p poisoned reached by ends)

  -- The receiver ends only with an error or a panic, and only for one of the reasons above.
  pub Reach-HasFailed :
      {s : Server W} (r : Result (Stop client.Error) Unit)
      → Reach W s
      → s.phase ≡ ended r
      → HasFailed s.phase
  Reach-HasFailed {s} r reached now =
      subst HasFailed (sym now) (failed_at r (phase_at (ended r) now reached))
