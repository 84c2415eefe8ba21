-- ===== src/Server/Run/Ready.antt =====
-- The phases of `run_server` of main.rs, and the lock of the settings.
use yaffle.Base.{
  ℕ, ◌≡◌, refl, sym, ap, ◌∙◌, ◌⊎◌, inl, inr, Bool, true, false, ◌&&◌, List, none, Bytes, Result, ok,
  err, leb, length,
}
use yaffle.App.{SearchOptions}
use yaffle.Server.Ingest.{Stop, panic, ingest_loop}
use yaffle.Server.Ingest.Ends.{Ends, ingest_loop-ok, ingest_loop-err}
use yaffle.Server.Pipeline as Pipeline
use yaffle.Server.Search.Service.{build_search_uri}
use yaffle.Server.Run.{
  World, Server, Step, Reach, here, next, Phase, connecting, ingesting, ended, ingested,
  ingested_under, from_now, Pipe, search_panics, lock_panics, retries, connects, ingests, fails,
}

module _ (W : World) where
  open W use {
    gelf_crates, nom, chrono, conversions, Addr, timestamp_nanos, match_value, lookup_addr,
    to_writer, client, post, settings, requests,
  }

  abbrev pub ReachPipe : Pipe W → Type 0
  ReachPipe = Pipeline.Reach gelf_crates nom chrono conversions Addr timestamp_nanos match_value

  -- A search has panicked while it held the lock.
  abbrev pub HasPoisoned : Type 0
  HasPoisoned =
      (sp : SearchOptions) × (build_search_uri requests settings.quickwit_url
          settings.quickwit_index sp
        ≡ none)

  -- why the ingest loop has ended at the batches of `p`
  abbrev pub EndsAt : (ℕ → Bool) → Pipe W → Stop client.Error → Type 0
  EndsAt poisoned p x =
      Ends conversions chrono.Time Addr timestamp_nanos lookup_addr to_writer client.Error
        client.parse_uri poisoned post settings.quickwit_url settings.quickwit_index 0 p.batches x

  -- What each phase promises.
  abbrev pub PhaseOf : Phase W → Type 0
  PhaseOf connecting = Unit
  PhaseOf (ingesting p) = ReachPipe p × ((ingested W p).1 ≡ ok tt)
  PhaseOf (ended (ok tt)) = ⊥
  PhaseOf (ended (err x)) =
      ((x ≡ panic) × HasPoisoned)
      ⊎ ((p : Pipe W) × (poisoned : ℕ → Bool) × ReachPipe p
          × ((n : ℕ) → poisoned n ≡ true → HasPoisoned)
          × EndsAt poisoned p x)

  record Kept (s : Server W) : Type 0 where
    poisoner : s.poisoned ≡ true → HasPoisoned
    phase_lem : PhaseOf s.phase

  left_true : (a b : Bool) → (a && b) ≡ true → a ≡ true
  left_true true b h = refl
  left_true false b h = h

  piped : {s : Server W} (p : Pipe W) → s.phase ≡ ingesting p → Kept s → ReachPipe p
  piped p now h = let (reached, _) : PhaseOf (ingesting p) = rw now at h.phase_lem in reached

  -- a loop that goes on has found the lock in order
  goes_on :
      (poisoned : ℕ → Bool) (p : Pipe W)
      → (ingested_under W poisoned p).1 ≡ ok tt
      → (ingested W p).1 ≡ ok tt
  goes_on poisoned p h =
      let (_, same) =
        ingest_loop-ok conversions chrono.Time Addr timestamp_nanos lookup_addr to_writer
          client.Error client.parse_uri poisoned post settings.quickwit_url settings.quickwit_index
          0 p.batches h in
      sym (ap (λ (r : List (Bytes × Bytes) × Result (Stop client.Error) Unit). r.1) same) ∙ h

  Step-Kept : {s t : Server W} → Step W s t → Kept s → Kept t
  unfolding ingest_loop
  Step-Kept (search_panics sp never) h = record {
    poisoner = λ _. (sp, never);
    phase_lem = h.phase_lem;
  }
  Step-Kept (lock_panics trying bad) h = record {
    poisoner = h.poisoner;
    phase_lem = inl (refl, h.poisoner bad);
  }
  Step-Kept (retries e trying free failed) h = record {
    poisoner = h.poisoner;
    phase_lem = h.phase_lem;
  }
  Step-Kept (connects trying free made) h = record {
    poisoner = h.poisoner;
    phase_lem = (Pipeline.here, refl);
  }
  Step-Kept {s} (ingests p q now step good) h = record {
    poisoner = h.poisoner;
    phase_lem = (Pipeline.next (piped p now h) step, goes_on (from_now W s.poisoned p) q good);
  }
  Step-Kept {s} (fails p q x now step bad) h = record {
    poisoner = h.poisoner;
    phase_lem = inr (
      q,
      from_now W s.poisoned p,
      Pipeline.next (piped p now h) step,
      λ n late. h.poisoner (left_true s.poisoned (leb (length p.batches) n) late),
      ingest_loop-err conversions chrono.Time Addr timestamp_nanos lookup_addr to_writer
          client.Error client.parse_uri (from_now W s.poisoned p) post settings.quickwit_url
          settings.quickwit_index 0 q.batches x bad,
    );
  }

  Reach-Kept : {s : Server W} → Reach W s → Kept s
  Reach-Kept here = record { poisoner = λ e. cc e; phase_lem = tt }
  Reach-Kept (next r step) = Step-Kept step (Reach-Kept r)

  pub Reach-PhaseOf : {s : Server W} → Reach W s → PhaseOf s.phase
  Reach-PhaseOf r = (Reach-Kept r).phase_lem

  -- It still tries, or a search has poisoned the lock and it has panicked there.
  abbrev pub IsStuck : Phase W → Type 0
  IsStuck phase = (phase ≡ connecting) ⊎ ((phase ≡ ended (err panic)) × HasPoisoned)
