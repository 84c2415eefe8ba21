-- ===== src/Tests/RecvLoop.antt =====
-- The receive loop of gelf.rs at concrete packets, over the buffers of two pieces.
use yaffle.Base.{
  ℕ, suc, zero, ◌<◌, ◌≡◌, ◌≢◌, refl, true, [], ◌∷◌, none, some, Bytes, codes, arith, ℕ_eq, set,
  replicate,
}
use yaffle.Base.HashMap.{lookup, insert, remove}
use yaffle.Gelf.Packet.{classify, from_be_bytes}
use yaffle.Gelf.Packet.Header.{chunk_packet, to_be_bytes}
use yaffle.Gelf.Chunks.{
  assemble_chunked, entry_or_insert, check_complete, take_pieces, has_gap, unwrap_all,
}
use yaffle.Gelf.Chunks.Progress.{Arrival}
use yaffle.Gelf.Chunks.Reassembly.{arrived}
use yaffle.Gelf.Chunks.Size.{partials_size}
use yaffle.Gelf.Parse.{parse_packet, parse_type, parse_assembled, chain_pieces}
use yaffle.Gelf.Parse.Termination.{Returns}
use yaffle.Gelf.RecvLoop.{
  Loop, Step, Reach, here, next, outcome, start, absorbed, recv_failed, on_packet, parsed,
}
use yaffle.Gelf.RecvLoop.Expiry.{IsSafe, Reach-IsSafe, Reach-Returns, contains}
use yaffle.Gelf.RecvLoop.Delivery.{IsChunk, Gathers, begun, piece, other, gathered-message}
use yaffle.Gelf.RecvLoop.Stale.{stale-expiry}
use yaffle.Tests.Buffers.{crates}

-- the loop after the first half of a message, with bytes of an older packet behind it in the buffer
abbrev first_half : Bytes
first_half = 0x1e ∷ 0x0f ∷ 0 ∷ 0 ∷ 0 ∷ 0 ∷ 0 ∷ 0 ∷ 0 ∷ 7 ∷ 0 ∷ 2 ∷ b'{' ∷ b'a' ∷ b'x' ∷ b'y' ∷ []

abbrev after_first : Loop crates ℕ
after_first = (on_packet crates ℕ (start crates ℕ) first_half 14).1

after_first-Reach : Reach crates ℕ after_first
unfolding on_packet parse_packet classify parse_type parse_assembled assemble_chunked
    entry_or_insert check_complete lookup insert has_gap from_be_bytes partials_size
after_first-Reach = next here (absorbed first_half 14 refl)

first_half_stored : lookup 7 after_first.receiver.partials ≡ some (some (codes "{a") ∷ none ∷ [])
unfolding on_packet parse_packet classify parse_type parse_assembled assemble_chunked
    entry_or_insert check_complete lookup insert has_gap from_be_bytes partials_size
first_half_stored = refl

Reach-IsSafe_example : IsSafe crates ℕ after_first
Reach-IsSafe_example = Reach-IsSafe crates ℕ after_first-Reach

Reach-Returns_example : Returns crates (outcome crates ℕ after_first.receiver (codes "{}..") 2)
Reach-Returns_example = Reach-Returns crates ℕ (codes "{}..") 2 after_first-Reach

-- the same chunk again, an error of the socket, and a chunk of message 9
abbrev other_half : Bytes
other_half = 0x1e ∷ 0x0f ∷ 0 ∷ 0 ∷ 0 ∷ 0 ∷ 0 ∷ 0 ∷ 0 ∷ 9 ∷ 0 ∷ 2 ∷ b'z' ∷ []

abbrev second_half : Bytes
second_half = 0x1e ∷ 0x0f ∷ 0 ∷ 0 ∷ 0 ∷ 0 ∷ 0 ∷ 0 ∷ 0 ∷ 7 ∷ 1 ∷ 2 ∷ b'b' ∷ b'}' ∷ []

abbrev chunk_7 : ℕ → Bytes → Arrival
chunk_7 seqno content = record { id = 7; seqno = seqno; count = 2; content = content }

abbrev after_others : Loop crates ℕ
after_others = (on_packet crates ℕ (on_packet crates ℕ after_first first_half 14).1 other_half 13).1

first_half-IsChunk : IsChunk (chunk_7 0 (codes "{a")) first_half 14
unfolding chunk_packet to_be_bytes
first_half-IsChunk = record { id_small = omega arith; count_many = omega arith; layout = refl }

second_half-IsChunk : IsChunk (chunk_7 1 (codes "b}")) second_half 14
unfolding chunk_packet to_be_bytes
second_half-IsChunk = record { id_small = omega arith; count_many = omega arith; layout = refl }

after_others-Gathers :
    Gathers crates ℕ 7 1
      (codes "{a" ∷ codes "b}" ∷ [])
      (start crates ℕ)
      (chunk_7 0 (codes "{a") ∷ chunk_7 0 (codes "{a") ∷ [])
      after_others
unfolding on_packet parse_packet classify parse_type parse_assembled assemble_chunked
    entry_or_insert check_complete lookup insert has_gap from_be_bytes partials_size
after_others-Gathers =
    piece (chunk_7 0 (codes "{a")) first_half 14 first_half-IsChunk refl (λ e. cc e)
      (λ _. (refl, refl))
      (piece (chunk_7 0 (codes "{a")) first_half 14 first_half-IsChunk refl (λ e. cc e)
        (λ _. (refl, refl))
        (other recv_failed refl (other (absorbed other_half 13 refl) refl begun)))

all_but_second :
    (j : ℕ)
    → j < 2
    → j ≢ 1
    → arrived 7 j (chunk_7 0 (codes "{a") ∷ chunk_7 0 (codes "{a") ∷ []) ≡ true
unfolding arrived
all_but_second zero lt ne = refl
all_but_second (suc zero) lt ne = absurd (ne refl)
all_but_second (suc (suc j)) lt ne = absurd (omega arith)

gathered-message_example :
    ((on_packet crates ℕ after_others second_half 14).0
      ≡ parsed crates ℕ
          (parse_packet crates 1 (start crates ℕ).receiver (crates.from_bytes (codes "{ab}"))).0)
    × (lookup 7 (on_packet crates ℕ after_others second_half 14).1.receiver.partials ≡ none)
unfolding lookup
gathered-message_example =
    gathered-message crates ℕ 7 {s = start crates ℕ} {t = after_others}
      {arrivals = chunk_7 0 (codes "{a") ∷ chunk_7 0 (codes "{a") ∷ []} (chunk_7 1 (codes "b}"))
      second_half 14 0 (start crates ℕ).receiver b'{' b'a' [] (codes "b}") [] refl
      after_others-Gathers all_but_second second_half-IsChunk refl (omega arith) (λ _. (refl, refl))
      refl

-- Message 7 has been completed, and its task still sleeps.
abbrev after_whole : Loop crates ℕ
after_whole = (on_packet crates ℕ after_others second_half 14).1

stale-expiry_example :
    let t = (on_packet crates ℕ after_whole first_half 14).1 in
    (lookup 7 t.receiver.partials ≡ some (set (replicate 2 none) 0 (some (codes "{a"))))
    × (u : Loop crates ℕ) × (v : Loop crates ℕ) × Step crates ℕ t u
    × Step crates ℕ u v
    × (lookup 7 v.receiver.partials ≡ none)
    × (contains 7 v.receiver.timers ≡ true)
unfolding on_packet parse_packet classify parse_type parse_assembled assemble_chunked
    entry_or_insert check_complete take_pieces lookup insert remove has_gap unwrap_all from_be_bytes
    partials_size chain_pieces
stale-expiry_example =
    stale-expiry crates ℕ after_whole [] (9 ∷ []) (chunk_7 0 (codes "{a")) first_half 14 refl refl
      refl first_half-IsChunk
