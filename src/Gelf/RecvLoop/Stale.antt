-- ===== src/Gelf/RecvLoop/Stale.antt =====
-- The expiry task that `assemble_chunked` of gelf.rs spawns, and a later message of the same id.
use yaffle.Base.{
  ℕ, zero, suc, ◌≤◌, ◌≡◌, refl, ap, ◌∙◌, true, List, [], ◌∷◌, ◌++◌, none, some, Bytes, length, set,
  replicate, append_assoc, arith, ℕ_eq,
}
use yaffle.Base.HashMap.{lookup, lookup-remove}
use yaffle.Gelf.Crates.{Crates}
use yaffle.Gelf.Chunks.{Slots, Receiver, has_gap, waiting, entry_or_insert}
use yaffle.Gelf.Chunks.Steps.{filled, assemble_waiting}
use yaffle.Gelf.Chunks.Progress.{Arrival, assemble}
use yaffle.Gelf.RecvLoop.{Loop, Step, woken, expired, on_packet, on_expiry}
use yaffle.Gelf.RecvLoop.Expiry.{contains, contains-append, assemble-timers}
use yaffle.Gelf.RecvLoop.Delivery.{IsChunk, chunk_waits}

-- One piece of two or more is not the whole.
has_gap-set :
    (n seqno : ℕ) (content : Bytes)
    → 2 ≤ n
    → has_gap (set (let e : Slots = replicate n none in e) seqno (some content)) ≡ true
unfolding has_gap
has_gap-set zero seqno content two = absurd (omega arith)
has_gap-set (suc zero) seqno content two = absurd (omega arith)
has_gap-set (suc (suc n)) zero content two = refl
has_gap-set (suc (suc n)) (suc seqno) content two = refl

-- The first chunk of a message is stored, and starts the message's own expiry task.
first_chunk :
    (r : Receiver) (a : Arrival)
    → 2 ≤ a.count
    → lookup a.id r.partials ≡ none
    → ((assemble r a).0 ≡ waiting)
      × (lookup a.id (assemble r a).1.partials ≡ some (filled r a.id a.seqno a.count a.content))
      × ((assemble r a).1.timers ≡ r.timers ++ a.id ∷ [])
unfolding entry_or_insert
first_chunk r a two fresh =
    let (waits, there) =
      assemble_waiting r a.id a.seqno a.count a.content
        (rw fresh (has_gap-set a.count a.seqno a.content two)) in
    (
      waits,
      there a.id ∙ ground arith,
      assemble-timers r a.id a.seqno a.count a.content ∙ rw (fresh, entry_or_insert) refl,
    )

module _ (C : Crates) (Addr : Type 0) where
  -- Where an expiry task of an id still sleeps but no message of that id is incomplete, the first
  -- chunk of a new message with the id is stored; the old task then wakes, and with the channel empty
  -- the loop drops the new message, while the new message's own task still sleeps.
  pub stale-expiry :
      (s : Loop C Addr) (before after : List ℕ) (a : Arrival) (buffer : Bytes) (size : ℕ)
      → s.receiver.timers ≡ before ++ (a.id ∷ after)
      → lookup a.id s.receiver.partials ≡ none
      → s.expiry ≡ []
      → IsChunk a buffer size
      → let t = (on_packet C Addr s buffer size).1 in
        (lookup a.id t.receiver.partials
          ≡ some (set (replicate a.count none) a.seqno (some a.content)))
        × (u : Loop C Addr) × (v : Loop C Addr) × Step C Addr t u
        × Step C Addr u v
        × (lookup a.id v.receiver.partials ≡ none)
        × (contains a.id v.receiver.timers ≡ true)
  unfolding on_expiry on_packet
  stale-expiry s before after a buffer size split fresh idle c =
      let t = (on_packet C Addr s buffer size).1 in
      let (waits, there, timers) = first_chunk s.receiver a c.count_many fresh in
      let (_, stored) = chunk_waits C Addr s a buffer size c waits in
      let r : Receiver = record {
        partials = t.receiver.partials;
        timers = before ++ (after ++ a.id ∷ []);
      } in
      let u : Loop C Addr = record t { receiver = r; expiry = t.expiry ++ a.id ∷ [] } in
      (
        ap (λ x. lookup a.id x.partials) stored ∙ there ∙ rw fresh refl,
        u,
        on_expiry C Addr u a.id [],
        woken before (after ++ a.id ∷ []) a.id r
            (ap (λ x. x.timers) stored
              ∙ timers
              ∙ ap (λ x. x ++ a.id ∷ []) split
              ∙ append_assoc before (a.id ∷ after) (a.id ∷ []))
            (omega (arith, ap length idle)) refl,
        expired a.id [] (rw idle refl),
        lookup-remove a.id a.id t.receiver.partials ∙ ground arith,
        ground (
          arith,
          contains-append a.id before (after ++ a.id ∷ []),
          contains-append a.id after (a.id ∷ []),
        ),
      )
