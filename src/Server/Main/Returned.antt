-- ===== src/Server/Main/Returned.antt =====
-- The end of `main` of main.rs.
use yaffle.Base.{◌≡◌, true, Result, ok, err}
use yaffle.Server.Ingest.{Stop}
use yaffle.Server.Run.{World, Server, Phase, Pipe, fresh_server, ended}
use yaffle.Server.Run as Run
use yaffle.Server.Main.{Main, Http, serving, draining, returned, Reach}

module _ (W : World) (HttpError : Type 0) where
  open W use {client}

  abbrev HasEnded : Main W HttpError → Type 0
  HasEnded m = (r : Result (Stop client.Error) Unit) × (m.receiver.phase ≡ ended r)

  abbrev Stops : Http HttpError → Type 0 → Type 0
  Stops serving A = Unit
  Stops draining A = A
  Stops (returned (ok tt)) A = A
  Stops (returned (err e)) A = Unit

  record IsOrderly (m : Main W HttpError) : Type 0 where
    reached : Run.Reach W m.receiver
    signalled : m.shutdown ≡ true → HasEnded m
    stopped : Stops m.http (HasEnded m)
