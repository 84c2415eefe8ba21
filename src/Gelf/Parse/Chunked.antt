-- ===== src/Gelf/Parse/Chunked.antt =====
-- A message sent in chunks is parsed as the same message sent in one packet, unless its first piece
-- is a single byte.
use yaffle.Base.{
  ℕ, suc, ◌≤◌, ◌<◌, ◌^◌, ◌≡◌, sym, ap, ◌∙◌, List, [], ◌∷◌, ok, err, Bytes, length, concat, arith,
  ltb, nat_eq, if◌then◌else◌, Bool-cases, inl, inr, false, ◌&&◌,
}
use yaffle.Gelf.Crates.{Crates}
use yaffle.Gelf.Packet.{
  PacketType, IoError, uncompressed, gzip_compressed, zlib_compressed, buffer_too_small, classify,
  classify_front, is_zlib,
}
use yaffle.Gelf.Packet.Header.{chunk_packet, classify-chunk_packet}
use yaffle.Gelf.Chunks.{Receiver, complete}
use yaffle.Gelf.Chunks.Progress.{Arrival, assemble}
use yaffle.Gelf.Parse.{failed, io, Parsed, read_message, parse_assembled, parse_type, parse_packet}
use yaffle.Gelf.Parse.Whole.{chain_pieces_lem, chain_pieces_front}

module _ (C : Crates) where
  open C use {
    Buf, bytes, to_bytes, from_bytes, Reader, reader, zlib_decoder, gz_decoder, laws, reader_lem,
  }
  open laws use {to_bytes-from_bytes, bytes-from_bytes}

  -- A packet of a chunked message is handed to `assemble_chunked`.
  pub parse_packet-chunk_packet :
      (fuel : ℕ) (s : Receiver) (a : Arrival) (buf : Buf)
      → a.id < 2 ^ 64
      → 2 ≤ a.count
      → to_bytes buf ≡ chunk_packet a.id a.seqno a.count a.content
      → 2 ≤ length (bytes buf)
      → parse_packet C (suc fuel) s buf ≡ parse_assembled C (parse_packet C fuel) (assemble s a)
  unfolding parse_packet parse_type
  parse_packet-chunk_packet fuel s a buf small two layout front =
      let (read, rest) =
        classify-chunk_packet C buf a.id a.seqno a.count a.content small layout front in
      rw (read, parse_packet) (rw (few, parse_type) (rw rest))
    where
      few : ltb a.count 2 ≡ false
      few = ground arith

  -- A packet that is no chunk is read by its first two bytes, and leaves the receiver alone.
  abbrev pub plain_message : ℕ → ℕ → Reader → Parsed C
  plain_message x y r =
      if is_zlib x y
      then read_message C (zlib_decoder r)
      else if nat_eq x 0x1f && nat_eq y 0x8b
      then read_message C (gz_decoder r)
      else read_message C r

  abbrev plain_type : ℕ → ℕ → Buf → PacketType Buf
  plain_type x y buf =
      if is_zlib x y
      then zlib_compressed buf
      else if nat_eq x 0x1f && nat_eq y 0x8b
      then gzip_compressed buf
      else uncompressed buf

  classify-plain :
      (buf : Buf) (x y : ℕ) (u : Bytes)
      → bytes buf ≡ x ∷ y ∷ u
      → (nat_eq x 0x1e && nat_eq y 0x0f) ≡ false
      → classify C buf ≡ ok (plain_type x y buf)
  unfolding classify
  classify-plain buf x y u e plain =
      rw (e, classify_front)
        (rw plain (elim (Bool-cases (is_zlib x y)) [
          | inl z ↦ rw z
          | inr z ↦
              rw z
                (elim (Bool-cases (nat_eq x 0x1f && nat_eq y 0x8b)) [ inl g ↦ rw g | inr g ↦ rw g ])
        ]))

  parse_type-plain :
      (rec : Receiver → Buf → Parsed C × Receiver) (s : Receiver) (buf : Buf) (x y : ℕ)
      → parse_type C rec s (plain_type x y buf) ≡ (plain_message x y (reader buf), s)
  unfolding parse_type
  parse_type-plain rec s buf x y = elim (Bool-cases (is_zlib x y)) [
    | inl z ↦ rw z
    | inr z ↦
        rw z (elim (Bool-cases (nat_eq x 0x1f && nat_eq y 0x8b)) [ inl g ↦ rw g | inr g ↦ rw g ])
  ]

  pub parse_packet-plain :
      (fuel : ℕ) (s : Receiver) (buf : Buf) (x y : ℕ) (u : Bytes)
      → bytes buf ≡ x ∷ y ∷ u
      → (nat_eq x 0x1e && nat_eq y 0x0f) ≡ false
      → parse_packet C (suc fuel) s buf ≡ (plain_message x y (reader buf), s)
  unfolding parse_packet
  parse_packet-plain fuel s buf x y u e plain =
      rw (classify-plain buf x y u e plain, parse_packet)
        (parse_type-plain (parse_packet C fuel) s buf x y)

  parse_packet-refused :
      (fuel : ℕ) (s : Receiver) (buf : Buf) (e : IoError)
      → classify C buf ≡ err e
      → parse_packet C (suc fuel) s buf ≡ (failed (io e), s)
  unfolding parse_packet
  parse_packet-refused fuel s buf e bad = rw (bad, parse_packet)

  -- a completed message whose first piece has two bytes or more
  complete-plain :
      (fuel : ℕ) (s : Receiver) (x y : ℕ) (t b : Bytes) (rest : List Bytes)
      → (nat_eq x 0x1e && nat_eq y 0x0f) ≡ false
      → parse_assembled C (parse_packet C (suc fuel)) (complete ((x ∷ y ∷ t) ∷ b ∷ rest), s)
        ≡ (plain_message x y (reader (from_bytes (concat ((x ∷ y ∷ t) ∷ b ∷ rest)))), s)
  unfolding parse_assembled
  complete-plain fuel s x y t b rest plain =
      let ps : List Bytes = (x ∷ y ∷ t) ∷ b ∷ rest in
      let (whole, chained, all_bytes) = chain_pieces_lem C ps (omega arith) in
      rw (chained, parse_assembled)
        (parse_packet-plain fuel s whole x y t (chain_pieces_front C x (y ∷ t) b rest whole chained)
            plain
          ∙ ap (λ r. (plain_message x y r, s))
              (reader_lem whole (from_bytes (concat ps))
                (all_bytes ∙ sym (to_bytes-from_bytes (concat ps)))))

  complete-short :
      (fuel : ℕ) (s : Receiver) (x : ℕ) (b : Bytes) (rest : List Bytes)
      → (parse_assembled C (parse_packet C (suc fuel)) (complete ((x ∷ []) ∷ b ∷ rest), s)).0
        ≡ failed (io buffer_too_small)
  unfolding parse_assembled
  complete-short fuel s x b rest =
      let ps : List Bytes = (x ∷ []) ∷ b ∷ rest in
      let (whole, chained, _) = chain_pieces_lem C ps (omega arith) in
      rw (chained, parse_assembled)
        (ap (λ r. r.0)
          (parse_packet-refused fuel s whole buffer_too_small (
            unfold classify in
            rw (chain_pieces_front C x [] b rest whole chained, classify_front))))

  -- The last chunk packet takes the message out and reads its pieces together.
  pub parse_packet-complete :
      (f : ℕ) (s : Receiver) (a : Arrival) (buf : Buf) (x y : ℕ) (u b : Bytes) (rest : List Bytes)
      → a.id < 2 ^ 64
      → 2 ≤ a.count
      → to_bytes buf ≡ chunk_packet a.id a.seqno a.count a.content
      → 2 ≤ length (bytes buf)
      → (assemble s a).0 ≡ complete ((x ∷ y ∷ u) ∷ b ∷ rest)
      → (nat_eq x 0x1e && nat_eq y 0x0f) ≡ false
      → parse_packet C (suc (suc f)) s buf ≡ (
        plain_message x y (reader (from_bytes (concat ((x ∷ y ∷ u) ∷ b ∷ rest)))),
        (assemble s a).1,
      )
  parse_packet-complete f s a buf x y u b rest small two layout front done plain =
      parse_packet-chunk_packet (suc f) s a buf small two layout front
      ∙ ap (λ out. parse_assembled C (parse_packet C (suc f)) (out, (assemble s a).1)) done
      ∙ complete-plain f (assemble s a).1 x y u b rest plain

  -- The last chunk packet of a message in two or more chunks, whose first piece has at least two
  -- bytes and whose bytes are not again a chunk, gives what the whole message gives in one packet, if
  -- the first two bytes of the chunk packet lie in one piece of its buffer.
  pub parse-chunked :
      (f g : ℕ) (s t : Receiver) (a : Arrival) (buf : Buf) (x y : ℕ) (u b : Bytes)
      (rest : List Bytes)
      → a.id < 2 ^ 64
      → 2 ≤ a.count
      → to_bytes buf ≡ chunk_packet a.id a.seqno a.count a.content
      → 2 ≤ length (bytes buf)
      → (assemble s a).0 ≡ complete ((x ∷ y ∷ u) ∷ b ∷ rest)
      → (nat_eq x 0x1e && nat_eq y 0x0f) ≡ false
      → (parse_packet C (suc (suc f)) s buf).0
        ≡ (parse_packet C (suc g) t (from_bytes (concat ((x ∷ y ∷ u) ∷ b ∷ rest)))).0
  parse-chunked f g s t a buf x y u b rest small two layout front done plain =
      ap (λ r. r.0) (parse_packet-complete f s a buf x y u b rest small two layout front done plain)
      ∙ sym (
          ap (λ r. r.0)
            (parse_packet-plain g t (from_bytes (concat ((x ∷ y ∷ u) ∷ b ∷ rest))) x y _
              (bytes-from_bytes _) plain))

  -- A message in two or more chunks whose first piece is one byte is refused at its last chunk
  -- packet, whatever it says, if the first two bytes of that packet lie in one piece of its buffer.
  pub parse-short_first :
      (f : ℕ) (s : Receiver) (a : Arrival) (buf : Buf) (x : ℕ) (b : Bytes) (rest : List Bytes)
      → a.id < 2 ^ 64
      → 2 ≤ a.count
      → to_bytes buf ≡ chunk_packet a.id a.seqno a.count a.content
      → 2 ≤ length (bytes buf)
      → (assemble s a).0 ≡ complete ((x ∷ []) ∷ b ∷ rest)
      → (parse_packet C (suc (suc f)) s buf).0 ≡ failed (io buffer_too_small)
  parse-short_first f s a buf x b rest small two layout front done =
      ap (λ r. r.0) (parse_packet-chunk_packet (suc f) s a buf small two layout front)
      ∙ ap (λ out. (parse_assembled C (parse_packet C (suc f)) (out, (assemble s a).1)).0) done
      ∙ complete-short f (assemble s a).1 x b rest
