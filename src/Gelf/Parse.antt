-- ===== src/Gelf/Parse.antt =====
-- `parse_packet` of gelf.rs.
pub mod Whole
pub mod Termination
pub mod Chunked
pub mod Keeps
use yaffle.Base.{
  ℕ, zero, suc, ◌≡◌, refl, List, [], ◌∷◌, Option, none, some, Result, ok, err, Bytes, ltb,
  if◌then◌else◌,
}
use mathlib.Core.List.{foldl}
use yaffle.Gelf.Crates.{Crates, GelfMessage}
use yaffle.Gelf.Packet.{
  PacketType, IoError, uncompressed, chunk, gzip_compressed, zlib_compressed, classify,
}
use yaffle.Gelf.Chunks.{Receiver, Assembled, waiting, panicked, complete, assemble_chunked}

-- `Box<dyn Error>`: what `?` passes on
pub data ParseError (JsonError : Type 0) : Type 0 where
  io : IoError → ParseError JsonError
  json : JsonError → ParseError JsonError

-- How a call ends: `Ok`, `Err`, a panic, or the model's fuel is used up.
pub data Outcome (E A : Type 0) : Type 0 where
  done : A → Outcome E A
  failed : E → Outcome E A
  panic out_of_fuel : Outcome E A

module _ (C : Crates) where
  open C use {
    Buf, JsonError, Value, Reader, to_bytes, from_bytes, chain, reader, gz_decoder, zlib_decoder,
    from_reader,
  }

  abbrev pub Parsed : Type 0
  Parsed = Outcome (ParseError JsonError) (Option (GelfMessage Value))

  -- `serde_json::from_reader(..)?`, then `return Ok(Some(m))`
  unfoldable pub read_message : Reader → Parsed
  read_message r = elim (from_reader r) [ ok m ↦ done (some m) | err e ↦ failed (json e) ]

  -- The chain over the drained pieces; the first two are unwrapped.
  unfoldable pub chain_pieces : List Bytes → Option Buf
  chain_pieces [] = none
  chain_pieces (a ∷ []) = none
  chain_pieces (a ∷ b ∷ rest) =
      some (foldl (λ c item. chain c (from_bytes item)) (chain (from_bytes a) (from_bytes b)) rest)

  -- After a chunk: a complete message is parsed again, by `rec`.
  unfoldable pub parse_assembled :
      (Receiver → Buf → Parsed × Receiver) → Assembled × Receiver → Parsed × Receiver
  parse_assembled rec (waiting, s) = (done none, s)
  parse_assembled rec (panicked, s) = (panic, s)
  parse_assembled rec (complete pieces, s) = elim (chain_pieces pieces) [
    | none ↦ (panic, s)
    | some whole ↦ rec s whole
  ]

  unfoldable pub parse_type :
      (Receiver → Buf → Parsed × Receiver) → Receiver → PacketType Buf → Parsed × Receiver
  unfolding parse_assembled read_message
  parse_type rec s (chunk id seqno count content) =
      if ltb count 2
      then (done none, s)
      else parse_assembled rec (assemble_chunked s id seqno count (to_bytes content))
  parse_type rec s (uncompressed content) = (read_message (reader content), s)
  parse_type rec s (gzip_compressed content) = (read_message (gz_decoder (reader content)), s)
  parse_type rec s (zlib_compressed content) = (read_message (zlib_decoder (reader content)), s)

  -- The recursion of the source has no bound of its own: `fuel` bounds how often a completed
  -- message is again a chunk.
  unfoldable pub parse_packet : ℕ → Receiver → Buf → Parsed × Receiver
  unfolding parse_type
  parse_packet zero s buf = (out_of_fuel, s)
  parse_packet (suc fuel) s buf = elim (classify C buf) [
    | err e ↦ (failed (io e), s)
    | ok p ↦ parse_type (parse_packet fuel) s p
  ]
