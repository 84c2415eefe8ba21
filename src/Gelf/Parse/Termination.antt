-- ===== src/Gelf/Parse/Termination.antt =====
-- `parse_packet` ends: each completed message that is parsed again has lost a chunk header.
use yaffle.Base.{
  ℕ, zero, suc, ◌+◌, ◌≤◌, ◌<◌, ◌≡◌, ◌≢◌, refl, ap, List, ok, Bytes, length, arith, ltb, Bool-cases,
  Result-cases, inl, inr,
}
use yaffle.Gelf.Crates.{Crates}
use yaffle.Gelf.Packet.{PacketType, uncompressed, chunk, gzip_compressed, zlib_compressed, classify}
use yaffle.Gelf.Packet.Header.{classify_chunk_size}
use yaffle.Gelf.Chunks.{Receiver, Assembled, waiting, panicked, complete, assemble_chunked}
use yaffle.Gelf.Chunks.Size.{held, result_size, held-assemble}
use yaffle.Gelf.Chunks.Valid.{IsValid, assemble-IsValid, complete-length, assemble-ne-panicked}
use yaffle.Gelf.Parse.{
  out_of_fuel, panic, Parsed, read_message, parse_assembled, parse_type, parse_packet,
}
use yaffle.Gelf.Parse.Whole.{chain_pieces_lem}

module _ (C : Crates) where
  open C use {Buf, Value, JsonError, Reader, to_bytes, from_reader}

  -- What a packet's parse promises: it returns, with no panic, and keeps the receiver valid.
  pub record Returns (r : Parsed C × Receiver) : Type 0 where
    pub no_panic : r.0 ≢ panic
    pub returns : r.0 ≢ out_of_fuel
    pub valid : IsValid r.1

  read_message-Returns : (r : Reader) (s : Receiver) → IsValid s → Returns (read_message C r, s)
  unfolding read_message
  read_message-Returns r s v = record {
    no_panic = λ e. ground arith;
    returns = λ e. ground arith;
    valid = v;
  }

  -- the measure that falls from a packet to the message that it completes
  abbrev load : Receiver → Buf → ℕ
  load s buf = held s + length (to_bytes buf)

  -- after a chunk, by its result
  assembled-Returns :
      (rec : Receiver → Buf → Parsed C × Receiver) (out : Assembled) (s : Receiver) (bound : ℕ)
      → out ≢ panicked
      → ((ps : List Bytes) → out ≡ complete ps → 2 ≤ length ps)
      → IsValid s
      → held s + result_size out ≤ bound
      → ((whole : Buf) → load s whole ≤ bound → Returns (rec s whole))
      → Returns (parse_assembled C rec (out, s))
  unfolding parse_assembled
  assembled-Returns rec waiting s bound np two v size again = record {
    no_panic = λ e. cc e;
    returns = λ e. cc e;
    valid = v;
  }
  assembled-Returns rec panicked s bound np two v size again = absurd (np refl)
  assembled-Returns rec (complete ps) s bound np two v size again =
      let (whole, chained, all_bytes) = chain_pieces_lem C ps (two ps refl) in
      rw (chained, parse_assembled)
        (again whole (omega (arith, ap (λ (t : Bytes). length t) all_bytes)))

  parse_type-Returns :
      (rec : Receiver → Buf → Parsed C × Receiver) (s : Receiver) (buf : Buf) (p : PacketType Buf)
      → IsValid s
      → classify C buf ≡ ok p
      → ((s' : Receiver) (whole : Buf)
          → IsValid s'
          → load s' whole + 12 ≤ load s buf
          → Returns (rec s' whole))
      → Returns (parse_type C rec s p)
  unfolding parse_type
  parse_type-Returns rec s buf (uncompressed content) v e again = read_message-Returns _ s v
  parse_type-Returns rec s buf (gzip_compressed content) v e again = read_message-Returns _ s v
  parse_type-Returns rec s buf (zlib_compressed content) v e again = read_message-Returns _ s v
  parse_type-Returns rec s buf (chunk id seqno count content) v e again =
      elim (Bool-cases (ltb count 2)) [
        | inl few ↦ rw few (record { no_panic = λ e. cc e; returns = λ e. cc e; valid = v })
        | inr enough ↦
            let two : 2 ≤ count = ground arith in
            let r = assemble_chunked s id seqno count (to_bytes content) in
            let valid' = assemble-IsValid s id seqno count (to_bytes content) two v in
            rw enough (
              assembled-Returns rec r.0 r.1 (held s + length (to_bytes content))
                (assemble-ne-panicked s id seqno count (to_bytes content))
                (λ ps. complete-length s id seqno count (to_bytes content) ps two v) valid'
                (held-assemble s id seqno count (to_bytes content))
                (λ whole fits.
                  again r.1 whole valid'
                    (omega (arith, classify_chunk_size C buf id seqno count content e))))
      ]

  -- From a valid receiver and with fuel above what is held and what came, a packet is handled to the
  -- end: an answer or an error, no panic, and a valid receiver.
  pub parse_packet-Returns :
      (fuel : ℕ) (s : Receiver) (buf : Buf)
      → IsValid s
      → held s + length (to_bytes buf) < fuel
      → Returns (parse_packet C fuel s buf)
  unfolding parse_packet
  parse_packet-Returns zero s buf v h = absurd (omega arith)
  parse_packet-Returns (suc fuel) s buf v h = elim (Result-cases (classify C buf)) [
    | inl (e, bad) ↦
        rw (bad, parse_packet) (record { no_panic = λ e. cc e; returns = λ e. cc e; valid = v })
    | inr (p, read) ↦
        rw (read, parse_packet)
          (parse_type-Returns (parse_packet C fuel) s buf p v read
            λ s' whole v' less. parse_packet-Returns fuel s' whole v' (omega arith))
  ]
