-- ===== src/Gelf/RecvLoop.antt =====
-- `run_recv_loop` of gelf.rs: a step for each thing that can happen to the loop and to the expiry
-- tasks, in any order.
pub mod Expiry
pub mod Delivery
pub mod Stale
pub mod Apart
use yaffle.Base.{
  ℕ, ◌+◌, ◌≤◌, ◌<◌, ◌≡◌, List, [], ◌∷◌, ◌++◌, Option, none, some, Bytes, length, ℕ_eq,
}
use yaffle.Base.HashMap.{HashMap, remove}
use yaffle.Gelf.Crates.{Crates, GelfMessage}
use yaffle.Gelf.Chunks.{Receiver}
use yaffle.Gelf.Chunks.Size.{held}
use yaffle.Gelf.Parse.{Outcome, done, failed, panic, out_of_fuel, Parsed, parse_packet}

-- the capacity of the channel of ids to expire
abbrev pub expiry_capacity : ℕ
expiry_capacity = 10

-- `Addr` is `SocketAddr`.
module _ (C : Crates) (Addr : Type 0) where
  open C use {Buf, Value, to_bytes, from_bytes, limit}

  abbrev pub Message : Type 0
  Message = Addr × GelfMessage Value

  -- The loop's state: `partials` with the sleeping tasks, the ids in the expiry channel, and what
  -- has been sent into `gelf_pipe`.
  pub record Loop : Type 0 where
    pub receiver : Receiver
    pub expiry : List ℕ
    pub sent : List Message

  -- `.unwrap_or_else(|e| { warn!(..); None })`
  abbrev pub parsed : Parsed C → Option (GelfMessage Value)
  parsed (done m) = m
  parsed (failed e) = none
  parsed panic = none
  parsed out_of_fuel = none

  -- `&mut buf.take(size)`: the first `size` bytes of the loop's buffer
  abbrev pub datagram : Bytes → ℕ → Buf
  datagram buffer size = limit (from_bytes buffer) size

  -- enough fuel for the datagram
  abbrev pub fuel_for : Receiver → Buf → ℕ
  fuel_for r buf = held r + length (to_bytes buf) + 1

  abbrev pub outcome : Receiver → Bytes → ℕ → Parsed C × Receiver
  outcome r buffer size = let buf = datagram buffer size in parse_packet C (fuel_for r buf) r buf

  -- `Ok((size, src))` of `recv_from`, before the message is sent
  unfoldable pub on_packet : Loop → Bytes → ℕ → Option (GelfMessage Value) × Loop
  on_packet s buffer size =
      let (out, r) = outcome s.receiver buffer size in (parsed out, record s { receiver = r })

  -- `Some(to_expire)` of `expiry_rx.recv()`
  unfoldable pub on_expiry : Loop → ℕ → List ℕ → Loop
  on_expiry s to_expire rest =
      let r = s.receiver in
      record s { receiver = record r { partials = remove to_expire r.partials }; expiry = rest }

  pub data Step (s : Loop) : Loop → Type 0 where
    -- a packet that gives no message
    absorbed :
        (buffer : Bytes) (size : ℕ)
        → (on_packet s buffer size).0 ≡ none
        → Step s (on_packet s buffer size).1
    -- a packet that gives a message, and the message is sent
    forwarded :
        (buffer : Bytes) (size : ℕ) (src : Addr) (m : GelfMessage Value)
        → (on_packet s buffer size).0 ≡ some m
        → Step s (record (on_packet s buffer size).1 { sent = s.sent ++ (src, m) ∷ [] })
    -- an error of `recv_from`
    recv_failed : Step s s
    -- an expiry task wakes and sends its id; it waits while the channel is full
    woken :
        (before after : List ℕ) (id : ℕ) (r : Receiver)
        → s.receiver.timers ≡ before ++ (id ∷ after)
        → length s.expiry < expiry_capacity
        → r ≡ record { partials = s.receiver.partials; timers = before ++ after }
        → Step s (record s { receiver = r; expiry = s.expiry ++ id ∷ [] })
    -- the loop takes an id from the channel
    expired : (id : ℕ) (rest : List ℕ) → s.expiry ≡ id ∷ rest → Step s (on_expiry s id rest)

  abbrev pub start : Loop
  start = record { receiver = record { partials = []; timers = [] }; expiry = []; sent = [] }

  -- The states in which the loop can stand; it ends only by an error of the pipe.
  pub data Reach : Loop → Type 0 where
    here : Reach start
    next : {s t : Loop} → Reach s → Step s t → Reach t
