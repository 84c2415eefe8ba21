-- ===== src/Syslog/RecvLoop.antt =====
-- `run_recv_loop` of syslog.rs, on an explicit sequence of what `recv_from` gives, while the other end
-- of the channel is open.
use yaffle.Base.{ℕ, ◌≡◌, refl, List, [], ◌∷◌, Bytes, map, take, from_utf8_lossy}
use yaffle.Syslog.Nom.{Nom, IResult, done, error}
use yaffle.Syslog.Chrono.{Chrono}
use yaffle.Syslog.Parsers.{SyslogMessage, parse_syslog}
use yaffle.Syslog.Parsers.Priority.{parse_syslog-total}

module _ (N : Nom) (T : Chrono) (Addr : Type 0) where
  -- `size` bytes from `source` in the buffer, at the clock's times `now` and `later`
  pub data Received : Type 0 where
    packet : (buffer : Bytes) (size : ℕ) (source : Addr) (now later : T.LocalTime) → Received
    receive_error : Received

  abbrev pub Sent : Type 0
  Sent = List (Addr × SyslogMessage T.Time)

  abbrev send : Addr → IResult N.Error (SyslogMessage T.Time) → Sent → Sent
  send source (done remaining syslog_msg) sent = (source, syslog_msg) ∷ sent
  send source (error e) sent = sent

  -- what goes down the channel
  unfoldable pub run_recv_loop : List Received → Sent
  run_recv_loop [] = []
  run_recv_loop (packet buffer size source now later ∷ l) =
      send source (parse_syslog N T now later (take size buffer)) (run_recv_loop l)
  run_recv_loop (receive_error ∷ l) = run_recv_loop l

  -- the sources of the packets, with their texts
  abbrev pub texts : List Received → List (Addr × Bytes)
  texts [] = []
  texts (packet buffer size source now later ∷ l) =
      (source, from_utf8_lossy (take size buffer)) ∷ texts l
  texts (receive_error ∷ l) = texts l

  abbrev pub full_text : Addr × SyslogMessage T.Time → Addr × Bytes
  full_text (source, m) = (source, m.full_message)

  -- Every packet is sent on as one message, in order, with its whole text, whatever is in it.
  pub run_recv_loop-texts : (l : List Received) → map full_text (run_recv_loop l) ≡ texts l
  unfolding run_recv_loop
  run_recv_loop-texts [] = refl
  run_recv_loop-texts (packet buffer size source now later ∷ l) =
      let (m, parsed, whole, _) = parse_syslog-total N T now later (take size buffer) in
      rw parsed (λ i. (source, whole i) ∷ run_recv_loop-texts l i)
  run_recv_loop-texts (receive_error ∷ l) = run_recv_loop-texts l
