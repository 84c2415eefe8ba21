-- ===== src/Gelf/RecvLoop/Apart.antt =====
-- The steps of `run_recv_loop` of gelf.rs that may come in between the chunks of message `id`, and what
-- they do to its entry.
use yaffle.Base.{
  ℕ, ◌+◌, ◌≡◌, ap, ◌∙◌, false, ◌&&◌, List, ◌∷◌, Bytes, length, take, nat_eq, ℕ_eq, arith,
}
use yaffle.Base.HashMap.{lookup, lookup-remove}
use yaffle.Gelf.Crates.{Crates}
use yaffle.Gelf.Chunks.{waiting, complete}
use yaffle.Gelf.Chunks.Size.{held}
use yaffle.Gelf.Chunks.Steps.{assemble_other}
use yaffle.Gelf.Chunks.Progress.{Arrival, assemble}
use yaffle.Gelf.Parse.{parse_packet}
use yaffle.Gelf.Parse.Chunked.{parse_packet-plain, parse_packet-complete}
use yaffle.Gelf.RecvLoop.{Loop, on_packet, on_expiry, datagram}
use yaffle.Gelf.RecvLoop.Delivery.{IsChunk, chunk_waits, chunk_bytes, fuel_more}

module _ (C : Crates) (Addr : Type 0) (s : Loop C Addr) (id : ℕ) where
  open C use {to_bytes, from_bytes, laws}
  open laws use {bytes-limit, bytes-from_bytes}

  -- a packet that is no chunk
  pub on_packet-plain :
      (buffer : Bytes) (size x y : ℕ) (u : Bytes)
      → take size buffer ≡ x ∷ y ∷ u
      → (nat_eq x 0x1e && nat_eq y 0x0f) ≡ false
      → lookup id (on_packet C Addr s buffer size).1.receiver.partials
        ≡ lookup id s.receiver.partials
  unfolding on_packet
  on_packet-plain buffer size x y u e plain =
      let buf = datagram C Addr buffer size in
      ap (λ n. lookup id (parse_packet C n s.receiver buf).1.partials) (omega arith)
      ∙ ap (λ o. lookup id o.1.partials)
          (parse_packet-plain C (held s.receiver + length (to_bytes buf)) s.receiver buf x y u
            (bytes-limit (from_bytes buffer) size ∙ ap (take size) (bytes-from_bytes buffer) ∙ e)
            plain)

  -- a chunk of another message that completes nothing
  pub on_packet-waiting :
      (a : Arrival) (buffer : Bytes) (size : ℕ)
      → IsChunk a buffer size
      → nat_eq a.id id ≡ false
      → (assemble s.receiver a).0 ≡ waiting
      → lookup id (on_packet C Addr s buffer size).1.receiver.partials
        ≡ lookup id s.receiver.partials
  on_packet-waiting a buffer size c apart waits =
      ap (λ r. lookup id r.partials) (chunk_waits C Addr s a buffer size c waits).1
      ∙ assemble_other s.receiver a.id a.seqno a.count a.content id apart

  -- the last chunk of another message, of two bytes or more in its first piece and no chunk again
  pub on_packet-complete :
      (a : Arrival) (buffer : Bytes) (size x y : ℕ) (u b : Bytes) (rest : List Bytes)
      → IsChunk a buffer size
      → nat_eq a.id id ≡ false
      → (assemble s.receiver a).0 ≡ complete ((x ∷ y ∷ u) ∷ b ∷ rest)
      → (nat_eq x 0x1e && nat_eq y 0x0f) ≡ false
      → lookup id (on_packet C Addr s buffer size).1.receiver.partials
        ≡ lookup id s.receiver.partials
  unfolding on_packet
  on_packet-complete a buffer size x y u b rest c apart whole plain =
      let (f, fuel) = fuel_more C Addr s.receiver a buffer size c in
      let (all, front, _) = chunk_bytes C Addr a buffer size c in
      ap (λ n. lookup id (parse_packet C n s.receiver (datagram C Addr buffer size)).1.partials)
        fuel
      ∙ ap (λ o. lookup id o.1.partials)
          (parse_packet-complete C f s.receiver a _ x y u b rest c.id_small c.count_many all front
            whole plain)
      ∙ assemble_other s.receiver a.id a.seqno a.count a.content id apart

  -- the expiry of another message
  pub on_expiry-other :
      (to_expire : ℕ) (rest : List ℕ)
      → nat_eq to_expire id ≡ false
      → lookup id (on_expiry C Addr s to_expire rest).receiver.partials
        ≡ lookup id s.receiver.partials
  unfolding on_expiry
  on_expiry-other to_expire rest apart = lookup-remove to_expire id s.receiver.partials ∙ rw apart
