-- ===== src/Gelf/Parse/Keeps.antt =====
-- What `assemble_chunked` keeps, `parse_packet` keeps.
use yaffle.Base.{
  ℕ, zero, suc, ◌≤◌, Bytes, arith, ltb, Bool-cases, Result-cases, Option-cases, inl, inr,
}
use yaffle.Gelf.Crates.{Crates}
use yaffle.Gelf.Packet.{PacketType, uncompressed, chunk, gzip_compressed, zlib_compressed, classify}
use yaffle.Gelf.Chunks.{Receiver, Assembled, waiting, panicked, complete, assemble_chunked}
use yaffle.Gelf.Parse.{Parsed, chain_pieces, parse_assembled, parse_type, parse_packet}

module _ (C : Crates) (P : Receiver → Type 0)
    (assemble-P : (s : Receiver) (id seqno count : ℕ) (content : Bytes)
      → 2 ≤ count
      → P s
      → P (assemble_chunked s id seqno count content).1) where
  open C use {Buf, to_bytes}

  parse_assembled-keeps :
      (rec : Receiver → Buf → Parsed C × Receiver) (out : Assembled) (s : Receiver)
      → P s
      → ((s' : Receiver) (b : Buf) → P s' → P (rec s' b).1)
      → P (parse_assembled C rec (out, s)).1
  unfolding parse_assembled
  parse_assembled-keeps rec waiting s p again = p
  parse_assembled-keeps rec panicked s p again = p
  parse_assembled-keeps rec (complete ps) s p again = elim (Option-cases (chain_pieces C ps)) [
    | inl e ↦ rw (e, parse_assembled) p
    | inr (whole, e) ↦ rw (e, parse_assembled) (again s whole p)
  ]

  parse_type-keeps :
      (rec : Receiver → Buf → Parsed C × Receiver) (s : Receiver) (t : PacketType Buf)
      → P s
      → ((s' : Receiver) (b : Buf) → P s' → P (rec s' b).1)
      → P (parse_type C rec s t).1
  unfolding parse_type
  parse_type-keeps rec s (uncompressed b) p again = p
  parse_type-keeps rec s (gzip_compressed b) p again = p
  parse_type-keeps rec s (zlib_compressed b) p again = p
  parse_type-keeps rec s (chunk id seqno count content) p again = elim (Bool-cases (ltb count 2)) [
    | inl few ↦ rw few p
    | inr enough ↦
        let r = assemble_chunked s id seqno count (to_bytes content) in
        rw enough (
          parse_assembled-keeps rec r.0 r.1
            (assemble-P s id seqno count (to_bytes content) (ground arith) p) again)
  ]

  pub parse_packet-keeps :
      (fuel : ℕ) (s : Receiver) (buf : Buf) → P s → P (parse_packet C fuel s buf).1
  unfolding parse_packet
  parse_packet-keeps zero s buf p = p
  parse_packet-keeps (suc fuel) s buf p = elim (Result-cases (classify C buf)) [
    | inl (e, bad) ↦ rw (bad, parse_packet) p
    | inr (t, read) ↦
        rw (read, parse_packet)
          (parse_type-keeps (parse_packet C fuel) s t p
            (λ s' b p'. parse_packet-keeps fuel s' b p'))
  ]
