-- ===== src/Gelf/RecvLoop/Delivery.antt =====
-- A chunked message on its way through `run_recv_loop` of gelf.rs: its chunks in any order, in between
-- other packets, receive errors and expiries of other messages.
use yaffle.Base.{
  ℕ, suc, ◌+◌, ◌-◌, ◌≤◌, ◌<◌, ◌^◌, ◌≡◌, ◌≢◌, refl, sym, ap, ◌∙◌, Bool, false, true, ◌&&◌, List, [],
  ◌∷◌, none, some, Bytes, length, take, get_elem?, set, replicate, concat, unwrap_or, arith, nat_eq,
  nat_eq_iff, ℕ_eq, length-replicate,
}
use mathlib.Core.List.{foldl}
use yaffle.Base.HashMap.{lookup}
use yaffle.Gelf.Crates.{Crates}
use yaffle.Gelf.Packet.Header.{chunk_packet}
use yaffle.Gelf.Chunks.{Receiver, waiting}
use yaffle.Gelf.Chunks.Size.{held}
use yaffle.Gelf.Chunks.Steps.{entry_of}
use yaffle.Gelf.Chunks.Masks.{slots}
use yaffle.Gelf.Chunks.Progress.{
  Arrival, assemble, FromMessage, progress, assemble-progress, length-progress,
}
use yaffle.Gelf.Chunks.Reassembly.{
  arrived, last_piece, entry_start, get_elem?-set, not-full, get_elem?-replicate, mask_step,
}
use yaffle.Gelf.Parse.{parse_packet, parse_assembled, done}
use yaffle.Gelf.Parse.Chunked.{parse_packet-chunk_packet, parse_packet-complete, parse_packet-plain}
use yaffle.Gelf.RecvLoop.{
  Loop, Step, Reach, next, absorbed, on_packet, parsed, datagram, fuel_for, outcome,
}

-- The first `size` bytes of the buffer are chunk packet `a`, by the GELF format.
pub record IsChunk (a : Arrival) (buffer : Bytes) (size : ℕ) : Type 0 where
  pub id_small : a.id < 2 ^ 64
  pub count_many : 2 ≤ a.count
  pub layout : take size buffer ≡ chunk_packet a.id a.seqno a.count a.content

module _ (C : Crates) (Addr : Type 0) where
  open C use {bytes, to_bytes, from_bytes, limit, laws}
  open laws use {to_bytes-limit, bytes-limit, to_bytes-from_bytes, bytes-from_bytes}

  -- The loop gathers message `id`, the pieces `ps`, but not yet piece `k`: the chunks of the message
  -- among the packets are listed, and every other step leaves its entry as it is.
  pub data Gathers (id k : ℕ) (ps : List Bytes)
      : Loop C Addr → List Arrival → Loop C Addr → Type 0 where
    begun : {s : Loop C Addr} → Gathers id k ps s [] s
    piece :
        {s t : Loop C Addr} {rest : List Arrival} (a : Arrival) (buffer : Bytes) (size : ℕ)
        → IsChunk a buffer size
        → a.id ≡ id
        → a.seqno ≢ k
        → FromMessage id ps a
        → Gathers id k ps (on_packet C Addr s buffer size).1 rest t
        → Gathers id k ps s (a ∷ rest) t
    other :
        {s u t : Loop C Addr} {rest : List Arrival}
        → Step C Addr s u
        → lookup id u.receiver.partials ≡ lookup id s.receiver.partials
        → Gathers id k ps u rest t
        → Gathers id k ps s rest t

  pub chunk_bytes :
      (a : Arrival) (buffer : Bytes) (size : ℕ)
      → IsChunk a buffer size
      → (to_bytes (datagram C Addr buffer size) ≡ chunk_packet a.id a.seqno a.count a.content)
        × (2 ≤ length (bytes (datagram C Addr buffer size)))
        × (2 ≤ length (to_bytes (datagram C Addr buffer size)))
  unfolding chunk_packet
  chunk_bytes a buffer size c =
      let all =
        to_bytes-limit (from_bytes buffer) size
        ∙ ap (take size) (to_bytes-from_bytes buffer)
        ∙ c.layout in
      let front =
        bytes-limit (from_bytes buffer) size
        ∙ ap (take size) (bytes-from_bytes buffer)
        ∙ c.layout in
      (all, omega (arith, ap length front), omega (arith, ap length all))

  -- the loop's fuel leaves room for the parse of the completed message
  pub fuel_more :
      (r : Receiver) (a : Arrival) (buffer : Bytes) (size : ℕ)
      → IsChunk a buffer size
      → (f : ℕ) × (fuel_for C Addr r (datagram C Addr buffer size) ≡ suc (suc f))
  fuel_more r a buffer size c =
      let (_, _, long) = chunk_bytes a buffer size c in
      (held r + length (to_bytes (datagram C Addr buffer size)) - 1, omega (arith))

  -- A chunk that completes nothing is stored, and gives no message.
  pub chunk_waits :
      (s : Loop C Addr) (a : Arrival) (buffer : Bytes) (size : ℕ)
      → IsChunk a buffer size
      → (assemble s.receiver a).0 ≡ waiting
      → ((on_packet C Addr s buffer size).0 ≡ none)
        × ((on_packet C Addr s buffer size).1.receiver ≡ (assemble s.receiver a).1)
  unfolding on_packet parse_assembled
  chunk_waits s a buffer size c waits =
      let (f, fuel) = fuel_more s.receiver a buffer size c in
      let (all, front, _) = chunk_bytes a buffer size c in
      let e : outcome C Addr s.receiver buffer size ≡ (done none, (assemble s.receiver a).1) =
        ap (λ n. parse_packet C n s.receiver (datagram C Addr buffer size)) fuel
        ∙ parse_packet-chunk_packet C (suc f) s.receiver a (datagram C Addr buffer size) c.id_small
            c.count_many all front
        ∙ ap (λ o. parse_assembled C (parse_packet C (suc f)) (o, (assemble s.receiver a).1))
            waits in
      (ap (λ o. parsed C Addr o.0) e, ap (λ o. o.1) e)

  -- With piece `k` missing, another piece leaves the message incomplete and `k` missing.
  piece_waits :
      (id k : ℕ) (ps : List Bytes) (r : Receiver) (m : List Bool) (a : Arrival)
      → length m ≡ length ps
      → entry_of r id (length ps) ≡ slots ps m
      → get_elem? m k ≡ some false
      → a.id ≡ id
      → a.seqno ≢ k
      → FromMessage id ps a
      → ((assemble r a).0 ≡ waiting)
        × (entry_of (assemble r a).1 id (length ps) ≡ slots ps (progress id m a))
        × (get_elem? (progress id m a) k ≡ some false)
  piece_waits id k ps r m a lm e gap own ne from =
      let (after, out) = assemble-progress id ps r m a lm e from in
      let still : get_elem? (set m a.seqno true) k ≡ some false =
        ground (arith, get_elem?-set m a.seqno k) in
      let apart : (nat_eq a.id id && nat_eq a.seqno k) ≡ false = ground arith in
      (
        out ((nat_eq_iff a.id id).1 own) ∙ rw (not-full (set m a.seqno true) k still),
        after,
        mask_step id k a m gap apart k ∙ rw (gap, apart),
      )

  -- The state that has gathered `arrivals` holds their pieces, and is reached like any other.
  Gathers-entry :
      (id k : ℕ) (ps : List Bytes) {s t : Loop C Addr} {arrivals : List Arrival} (m : List Bool)
      → length m ≡ length ps
      → entry_of s.receiver id (length ps) ≡ slots ps m
      → get_elem? m k ≡ some false
      → Gathers id k ps s arrivals t
      → (entry_of t.receiver id (length ps) ≡ slots ps (foldl (progress id) m arrivals))
        × (arrived id k arrivals ≡ false)
        × (Reach C Addr s → Reach C Addr t)
  unfolding arrived
  Gathers-entry id k ps m lm e gap begun = (e, refl, λ r. r)
  Gathers-entry id k ps {s} m lm e gap (piece a buffer size c own ne from rest) =
      let (waits, after, gap') = piece_waits id k ps s.receiver m a lm e gap own ne from in
      let (quiet, stored) = chunk_waits s a buffer size c waits in
      let (entry, missing, reach) =
        Gathers-entry id k ps (progress id m a) (length-progress id m a ∙ lm)
          (ap (λ r. entry_of r id (length ps)) stored ∙ after) gap' rest in
      (entry, ground arith, λ r. reach (next r (absorbed buffer size quiet)))
  Gathers-entry id k ps m lm e gap (other step same rest) =
      let (entry, missing, reach) =
        Gathers-entry id k ps m lm (ap (unwrap_or (replicate (length ps) none)) same ∙ e) gap
          rest in
      (entry, missing, λ r. reach (next r step))

  -- From a state without an entry for message `id`, in two or more pieces of which the first has at
  -- least two bytes and which are not again a chunk: when the loop has gathered every piece but one,
  -- in any order, possibly more than once and among other events that leave the entry alone, the
  -- chunk of the last piece gives what the whole message gives in one packet, and its entry is gone.
  pub gathered-message :
      (id : ℕ) {s t : Loop C Addr} {arrivals : List Arrival} (last : Arrival) (buffer : Bytes)
      (size g : ℕ) (r : Receiver) (x y : ℕ) (u b : Bytes) (rest : List Bytes)
      → let ps = (x ∷ y ∷ u) ∷ b ∷ rest in
        lookup id s.receiver.partials ≡ none
        → Gathers id last.seqno ps s arrivals t
        → ((j : ℕ) → j < length ps → j ≢ last.seqno → arrived id j arrivals ≡ true)
        → IsChunk last buffer size
        → last.id ≡ id
        → last.seqno < length ps
        → FromMessage id ps last
        → (nat_eq x 0x1e && nat_eq y 0x0f) ≡ false
        → ((on_packet C Addr t buffer size).0
            ≡ parsed C Addr (parse_packet C (suc g) r (from_bytes (concat ps))).0)
          × (lookup id (on_packet C Addr t buffer size).1.receiver.partials ≡ none)
  unfolding on_packet
  gathered-message id {s} {t} {arrivals} last buffer size g r x y u b rest fresh gathers others c
        own inside from plain =
      let ps : List Bytes = (x ∷ y ∷ u) ∷ b ∷ rest in
      let (entry, missing, _) =
        Gathers-entry id last.seqno ps (replicate (length ps) false)
          (length-replicate (length ps) false) (entry_start id ps s.receiver fresh)
          (get_elem?-replicate (length ps) last.seqno inside) gathers in
      let (whole, gone) =
        last_piece id ps t.receiver arrivals last entry from own inside missing others in
      let (f, fuel) = fuel_more t.receiver last buffer size c in
      let (all, front, _) = chunk_bytes last buffer size c in
      let out =
        ap (λ n. parse_packet C n t.receiver (datagram C Addr buffer size)) fuel
        ∙ parse_packet-complete C f t.receiver last _ x y u b rest c.id_small c.count_many all front
            whole plain in
      let in_one =
        parse_packet-plain C g r (from_bytes (concat ps)) x y _ (bytes-from_bytes _) plain in
      (
        ap (λ o. parsed C Addr o.0) out ∙ sym (ap (λ o. parsed C Addr o.0) in_one),
        ap (λ o. lookup id o.1.partials) out ∙ gone,
      )
