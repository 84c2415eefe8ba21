-- ===== src/Gelf/Packet/Header.antt =====
-- The chunk header: `classify` undoes the layout of the GELF format, and reads nothing else as a
-- chunk.
use yaffle.Base.{
  ℕ, ◌+◌, ◌-◌, ◌/◌, ◌%◌, ◌^◌, ◌≤◌, ◌<◌, ◌≡◌, refl, sym, ap, ◌∙◌, false, [], ◌∷◌, ◌++◌, ok, err,
  Bytes, length, take, drop, get_or, ltb, arith, length-drop, length-append, dec_lt,
}
use yaffle.Gelf.Crates.{Crates}
use yaffle.Gelf.Packet.{
  PacketType, chunk, packet_too_small, from_be_bytes, classify, classify_front, classify_chunk,
}

-- the eight bytes of an id, the highest first
unfoldable pub to_be_bytes : ℕ → Bytes
to_be_bytes n =
    let n1 = n / 256 in
    let n2 = n1 / 256 in
    let n3 = n2 / 256 in
    let n4 = n3 / 256 in
    let n5 = n4 / 256 in
    let n6 = n5 / 256 in
    let n7 = n6 / 256 in
    n7 % 256 ∷ n6 % 256 ∷ n5 % 256 ∷ n4 % 256 ∷ n3 % 256 ∷ n2 % 256 ∷ n1 % 256 ∷ n % 256 ∷ []

from-to_be_bytes : (n : ℕ) → n < 2 ^ 64 → from_be_bytes 0 (to_be_bytes n) ≡ n
unfolding from_be_bytes to_be_bytes
from-to_be_bytes n h = omega arith

-- A chunk packet, by the GELF format.
unfoldable pub chunk_packet : ℕ → ℕ → ℕ → Bytes → Bytes
chunk_packet id seqno count payload = 0x1e ∷ 0x0f ∷ (to_be_bytes id ++ (seqno ∷ count ∷ payload))

drop-drop : (s : Bytes) → drop 10 (drop 2 s) ≡ drop 12 s
drop-drop [] = refl
drop-drop (x ∷ []) = refl
drop-drop (x ∷ y ∷ s) = refl

two_front :
    (f t r : Bytes) (b0 b1 : ℕ)
    → 2 ≤ length f
    → f ++ t ≡ b0 ∷ b1 ∷ r
    → (u : Bytes) × (f ≡ b0 ∷ b1 ∷ u)
two_front [] t r b0 b1 h e = absurd (omega arith)
two_front (x ∷ []) t r b0 b1 h e = absurd (omega arith)
two_front (x ∷ y ∷ f) t r b0 b1 h e = (f, cc e)

module _ (C : Crates) where
  open C use {Buf, bytes, to_bytes, advance, copy_to_slice, remaining, laws}
  open laws use {remaining_lem, bytes_front, bytes_nonempty, to_bytes-advance, copied, left_over}

  -- what the header's ten bytes leave
  abbrev pub chunk_content : Buf → Buf
  chunk_content buf = (copy_to_slice 10 (advance 2 buf)).1

  abbrev header_bytes : Buf → Bytes
  header_bytes buf = take 10 (drop 2 (to_bytes buf))

  abbrev read_header : Bytes → Buf → PacketType Buf
  read_header h content = chunk (from_be_bytes 0 (take 8 h)) (get_or h 8 0) (get_or h 9 0) content

  remaining-advance :
      (buf : Buf)
      → 2 ≤ length (to_bytes buf)
      → remaining (advance 2 buf) ≡ length (to_bytes buf) - 2
  remaining-advance buf h =
      remaining_lem (advance 2 buf)
      ∙ ap length (to_bytes-advance 2 buf h)
      ∙ length-drop 2 (to_bytes buf)

  pub classify_chunk_lem :
      (buf : Buf)
      → 12 ≤ length (to_bytes buf)
      → (classify_chunk C buf ≡ ok (read_header (header_bytes buf) (chunk_content buf)))
        × (to_bytes (chunk_content buf) ≡ drop 12 (to_bytes buf))
  unfolding classify_chunk
  classify_chunk_lem buf h = (
    rw (remaining-advance buf (omega arith), enough)
        (ap (λ s. ok (read_header s (chunk_content buf)))
          (copied 10 (advance 2 buf) room ∙ ap (take 10) moved)),
    left_over 10 (advance 2 buf) room ∙ ap (drop 10) moved ∙ drop-drop (to_bytes buf),
  )
    where
      moved : to_bytes (advance 2 buf) ≡ drop 2 (to_bytes buf)
      moved = to_bytes-advance 2 buf (omega arith)

      room : 10 ≤ length (to_bytes (advance 2 buf))
      room = omega (arith, ap length moved, length-drop 2 (to_bytes buf))

      enough : ltb (length (to_bytes buf) - 2) 10 ≡ false
      enough = ground arith

  pub classify_chunk_short :
      (buf : Buf)
      → 2 ≤ length (to_bytes buf)
      → length (to_bytes buf) < 12
      → classify_chunk C buf ≡ err packet_too_small
  unfolding classify_chunk
  classify_chunk_short buf h k = ground (arith, remaining-advance buf h)

  -- `classify` reads back the id, number, count and payload of every chunk packet whose first two
  -- bytes lie in one piece of its buffer.
  pub classify-chunk_packet :
      (buf : Buf) (id seqno count : ℕ) (payload : Bytes)
      → id < 2 ^ 64
      → to_bytes buf ≡ chunk_packet id seqno count payload
      → 2 ≤ length (bytes buf)
      → (classify C buf ≡ ok (chunk id seqno count (chunk_content buf)))
        × (to_bytes (chunk_content buf) ≡ payload)
  unfolding classify chunk_packet
  classify-chunk_packet buf id seqno count payload small layout front =
      let (u, e) = two_front (bytes buf) _ _ 0x1e 0x0f front (sym (bytes_front buf).1 ∙ layout) in
      let (read, rest) = classify_chunk_lem buf (rw layout (unfold to_be_bytes in omega arith)) in
      (
        rw (e, classify_front)
            (read
              ∙ rw layout (
                  unfold to_be_bytes in
                  ap (λ n. ok (chunk n seqno count (chunk_content buf)))
                    (from-to_be_bytes id small))),
        rest ∙ rw layout (unfold to_be_bytes in refl),
      )

  length-front : (buf : Buf) → length (bytes buf) ≤ length (to_bytes buf)
  length-front buf =
      let (t, e) = bytes_front buf in omega (arith, ap length e, length-append (bytes buf) t)

  -- only the arm of the chunk magic gives a chunk
  front-chunk :
      (f : Bytes) (buf : Buf) (id seqno count : ℕ) (content : Buf)
      → classify_front C f buf ≡ ok (chunk id seqno count content)
      → (2 ≤ length f) × (classify_chunk C buf ≡ ok (chunk id seqno count content))
  unfolding classify_front
  front-chunk [] buf id seqno count content h = cc
  front-chunk (b0 ∷ []) buf id seqno count content h = cc
  front-chunk (b0 ∷ b1 ∷ f) buf id seqno count content h = (omega arith, ground arith)

  -- Whatever is read as a chunk has the header's twelve bytes in front of its content.
  pub classify_chunk_size :
      (buf : Buf) (id seqno count : ℕ) (content : Buf)
      → classify C buf ≡ ok (chunk id seqno count content)
      → length (to_bytes content) + 12 ≡ length (to_bytes buf)
  classify_chunk_size buf id seqno count content h =
      let (two, read) = front-chunk (bytes buf) buf id seqno count content (unfold classify in h) in
      elim (dec_lt (length (to_bytes buf)) 12) [
        | yes short ↦ cc (read, classify_chunk_short buf (omega (arith, length-front buf)) short)
        | no enough ↦
            let (read', rest) = classify_chunk_lem buf (omega arith) in
            let same : content ≡ chunk_content buf = cc (read, read') in
            omega (
              arith,
              ap (λ b. length (to_bytes b)) same,
              ap length rest,
              length-drop 12 (to_bytes buf),
            )
      ]
