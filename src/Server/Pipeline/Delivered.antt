-- ===== src/Server/Pipeline/Delivered.antt =====
-- The pipeline of main.rs when nothing waits in it any more.
use yaffle.Base.{Option, ◌≡◌, sym, ap, ◌∙◌, List, [], ◌++◌, append-nil, map}
use yaffle.Gelf.Crates.{Crates}
use yaffle.Syslog.Nom.{Nom}
use yaffle.Syslog.Chrono.{Chrono}
use yaffle.Schema.Convert.{Conversions, Value, ℤ}
use yaffle.Server.Pipeline.{Record, Pipeline}

-- behind what was kept of the batches there is nothing
pub emptied :
    {A B : Type 0} (kept : List A → List A) (f : B → A) (batches chunk : List A) (pipe : List B)
    (sent : List A)
    → chunk ≡ []
    → pipe ≡ []
    → kept (batches ++ chunk) ++ map f pipe ≡ sent
    → kept batches ≡ sent
emptied kept f batches chunk pipe sent no_chunk no_pipe h =
    sym (append-nil (kept batches))
    ∙ ap (λ l. kept l ++ []) (sym (append-nil batches))
    ∙ ap (λ c. kept (batches ++ c) ++ []) (sym no_chunk)
    ∙ ap (λ q. kept (batches ++ chunk) ++ map f q) (sym no_pipe)
    ∙ h

module _ (G : Crates) (N : Nom) (T : Chrono) (C : Conversions) (Addr : Type 0)
    (timestamp_nanos : T.Time → Option ℤ) (match_value : G.Value → Value C.Number C.Rest) where
  abbrev Rec : Type 0
  Rec = Record G N T C Addr timestamp_nanos match_value

  abbrev Pipe : Type 0
  Pipe = Pipeline G N T C Addr timestamp_nanos match_value

  -- nothing waits in a channel or for a batch
  pub record IsDrained (s : Pipe) : Type 0 where
    pub no_gelf : s.gelf_pipe ≡ []
    pub no_syslog : s.syslog_pipe ≡ []
    pub no_chunk : s.chunk ≡ []
