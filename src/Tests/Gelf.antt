-- ===== src/Tests/Gelf.antt =====
-- gelf.rs at concrete packets, over the buffers of two pieces.
use yaffle.Base.{
  ℕ, suc, zero, ◌<◌, ◌≡◌, ◌≢◌, refl, true, false, List, [], ◌∷◌, ◌++◌, none, some, Bytes, ok, codes,
  arith, nat_eq, ℕ_eq,
}
use yaffle.Base.HashMap.{lookup, insert, remove}
use yaffle.Gelf.Packet.{chunk, classify, buffer_too_small}
use yaffle.Gelf.Packet.Header.{to_be_bytes, chunk_packet, chunk_content, classify-chunk_packet}
use yaffle.Gelf.Chunks.{
  Receiver, complete, assemble_chunked, entry_or_insert, check_complete, take_pieces, has_gap,
  unwrap_all,
}
use yaffle.Gelf.Chunks.Progress.{
  Arrival, assemble, deliver, progress, assemble-progress, AllFrom, expected,
}
use yaffle.Gelf.Chunks.Reassembly.{arrived, reassembly}
use yaffle.Gelf.Chunks.Masks.{slots}
use yaffle.Gelf.Chunks.Size.{partials_size}
use yaffle.Gelf.Chunks.Steps.{entry_of}
use yaffle.Gelf.Chunks.Valid.{IsValid}
use yaffle.Gelf.Parse.{failed, io, parse_packet}
use yaffle.Gelf.Parse.Chunked.{parse-short_first}
use yaffle.Gelf.Parse.Termination.{Returns, parse_packet-Returns}
use yaffle.Tests.Buffers.{crates, Pair}

abbrev fresh : Receiver
fresh = record { partials = []; timers = [] }

abbrev arrival : ℕ → ℕ → ℕ → Bytes → Arrival
arrival id seqno count content = record { id = id; seqno = seqno; count = count; content = content }

-- a message of id 7 in three pieces; one of them comes twice, and one chunk is of another message
abbrev pieces : List Bytes
pieces = codes "{a" ∷ codes "b" ∷ codes "c}" ∷ []

abbrev before : List Arrival
before =
    arrival 7 2 3 (codes "c}")
    ∷ arrival 9 0 2 (codes "x")
    ∷ arrival 7 0 3 (codes "{a")
    ∷ arrival 7 2 3 (codes "c}")
    ∷ []

abbrev last : Arrival
last = arrival 7 1 3 (codes "b")

others_arrived : (j : ℕ) → j < 3 → j ≢ 1 → arrived 7 j before ≡ true
unfolding arrived
others_arrived zero lt ne = refl
others_arrived (suc zero) lt ne = absurd (ne refl)
others_arrived (suc (suc zero)) lt ne = refl
others_arrived (suc (suc (suc j))) lt ne = absurd (omega arith)

from_before : AllFrom 7 pieces before
from_before = (λ _. (refl, refl), ((λ e. cc e), ((λ _. (refl, refl)), ((λ _. (refl, refl)), tt))))

reassembly_example :
    ((assemble (deliver fresh before) last).0 ≡ complete pieces)
    × (lookup 7 (assemble (deliver fresh before) last).1.partials ≡ none)
unfolding lookup arrived
reassembly_example =
    reassembly 7 pieces fresh before last refl from_before (λ _. (refl, refl)) refl (omega arith)
      refl others_arrived

assemble-progress_example :
    (entry_of (assemble fresh last).1 7 3
      ≡ slots pieces (progress 7 (false ∷ false ∷ false ∷ []) last))
    × (nat_eq 7 7 ≡ true
        → (assemble fresh last).0 ≡ expected pieces (false ∷ false ∷ false ∷ []) last)
unfolding lookup slots
assemble-progress_example =
    assemble-progress 7 pieces fresh (false ∷ false ∷ false ∷ []) last refl refl (λ _. (refl, refl))

-- the same message in two pieces, the second one on its way
abbrev half : Receiver
half = record { partials = (7, some (codes "{a") ∷ none ∷ []) ∷ []; timers = 7 ∷ [] }

abbrev second_half : Arrival
second_half = arrival 7 1 2 (codes "b}")

abbrev packet_of : Arrival → Pair
packet_of a = record {
  front = 0x1e ∷ 0x0f ∷ [];
  back = to_be_bytes a.id ++ (a.seqno ∷ a.count ∷ a.content);
}

classify-chunk_packet_example :
    (classify crates (packet_of second_half)
      ≡ ok (chunk 7 1 2 (chunk_content crates (packet_of second_half))))
    × (crates.to_bytes (chunk_content crates (packet_of second_half)) ≡ codes "b}")
unfolding chunk_packet
classify-chunk_packet_example =
    classify-chunk_packet crates (packet_of second_half) 7 1 2 (codes "b}") (omega arith) refl
      (omega arith)

abbrev one_byte : Receiver
one_byte = record { partials = (7, some (codes "{") ∷ none ∷ []) ∷ []; timers = 7 ∷ [] }

parse-short_first_example :
    (parse_packet crates 2 one_byte (packet_of second_half)).0 ≡ failed (io buffer_too_small)
unfolding chunk_packet assemble_chunked entry_or_insert check_complete take_pieces lookup insert
    remove has_gap unwrap_all
parse-short_first_example =
    parse-short_first crates 0 one_byte second_half (packet_of second_half) b'{' (codes "b}") []
      (omega arith) (omega arith) refl (omega arith) refl

half-IsValid : IsValid half
unfolding lookup has_gap
half-IsValid = record { entries = λ id e there. ground arith }

parse_packet-Returns_example : Returns crates (parse_packet crates 20 half (packet_of second_half))
unfolding partials_size to_be_bytes
parse_packet-Returns_example =
    parse_packet-Returns crates 20 half (packet_of second_half) half-IsValid (omega arith)
