-- ===== src/Server/Main.antt =====
-- `main` behind the set-up: the task of the receiver, the channel by which it ends the HTTP server,
-- and the HTTP server, whose end is the end of `main`.
pub mod Returned
pub mod Poisoned
use yaffle.Base.{◌≡◌, Bool, true, false, Bytes, Result, ok, err}
use yaffle.Server.Ingest.{Stop}
use yaffle.Server.Setup.{Arg, settings_from}
use yaffle.Server.Run.{World, Server, Phase, Pipe, fresh_server, ended}
use yaffle.Server.Run as Run
use yaffle.Server.Run.Delivered.{HasFailed, Reach-HasFailed}

-- what `main` is given: its arguments replace the settings
abbrev pub with_args : World → (Arg → Bytes) → World
with_args W parse = record W { settings = settings_from parse }

-- The HTTP server answers requests, or finishes those it has, or `main` has returned. `HttpError` is
-- hyper's.
pub data Http (HttpError : Type 0) : Type 0 where
  serving draining : Http HttpError
  returned : Result HttpError Unit → Http HttpError

module _ (W : World) (HttpError : Type 0) where
  open W use {client}

  pub record Main : Type 0 where
    pub receiver : Server W
    -- `shutdown_tx.send(())` is done, or `shutdown_tx` is dropped.
    pub shutdown : Bool
    pub http : Http HttpError

  abbrev pub started : Main
  started = record { receiver = fresh_server W; shutdown = false; http = serving }

  -- `main` has not returned: a task runs no further once it has.
  abbrev pub running : Http HttpError → Bool
  running serving = true
  running draining = true
  running (returned r) = false

  pub data Step (m : Main) : Main → Type 0 where
    receives :
        (s : Server W)
        → running m.http ≡ true
        → Run.Step W m.receiver s
        → Step m (record m { receiver = s })
    -- `run_server` has returned, and the channel is used, behind the log of an error; or it has
    -- panicked, and the task has dropped `shutdown_tx`, which ends the wait of `shutdown_rx` too.
    signals :
        (r : Result (Stop client.Error) Unit)
        → running m.http ≡ true
        → m.receiver.phase ≡ ended r
        → Step m (record m { shutdown = true })
    -- `with_graceful_shutdown`
    drains : m.http ≡ serving → m.shutdown ≡ true → Step m (record m { http = draining })
    -- no request is open any more
    finishes : m.http ≡ draining → Step m (record m { http = returned (ok tt) })
    -- an error of the HTTP server, `?`
    breaks : (e : HttpError) → running m.http ≡ true → Step m (record m { http = returned (err e) })

  pub data Reach : Main → Type 0 where
    here : Reach started
    next : {m n : Main} → Reach m → Step m n → Reach n
