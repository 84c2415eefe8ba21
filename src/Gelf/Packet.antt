-- ===== src/Gelf/Packet.antt =====
-- `PacketType` and `classify` of gelf.rs.
pub mod Header
use yaffle.Base.{
  ℕ, suc, zero, ◌+◌, ◌*◌, ◌≡◌, refl, Bool, ◌&&◌, ◌||◌, List, [], ◌∷◌, Result, ok, err, Bytes, take,
  get_or, ltb, nat_eq, if◌then◌else◌,
}
use yaffle.Gelf.Crates.{Crates}

pub data PacketType (Buf : Type 0) : Type 0 where
  uncompressed : Buf → PacketType Buf
  chunk : (id seqno count : ℕ) (content : Buf) → PacketType Buf
  gzip_compressed : Buf → PacketType Buf
  zlib_compressed : Buf → PacketType Buf

-- The two `io::Error`s of kind `InvalidData`.
pub data IoError : Type 0 where
  buffer_too_small packet_too_small : IoError

-- `u64::from_be_bytes`, over the bytes from the front
unfoldable pub from_be_bytes : ℕ → Bytes → ℕ
from_be_bytes acc [] = acc
from_be_bytes acc (b ∷ bs) = from_be_bytes (acc * 256 + b) bs

abbrev pub is_zlib : ℕ → ℕ → Bool
is_zlib b0 b1 =
    nat_eq b0 0x78
    && (nat_eq b1 0x01
        || nat_eq b1 0x5e
        || nat_eq b1 0x9c
        || nat_eq b1 0xda
        || nat_eq b1 0x20
        || nat_eq b1 0x7d
        || nat_eq b1 0xbb
        || nat_eq b1 0xf9)

module _ (C : Crates) where
  open C use {Buf, remaining, bytes, advance, copy_to_slice}

  -- the arm of the chunk magic; the cursor stands at its two bytes
  pub classify_chunk : Buf → Result IoError (PacketType Buf)
  classify_chunk buf =
      let buf1 = advance 2 buf in
      let (h, buf2) = copy_to_slice 10 buf1 in
      if ltb (remaining buf1) 10
      then err packet_too_small
      else ok (chunk (from_be_bytes 0 (take 8 h)) (get_or h 8 0) (get_or h 9 0) buf2)

  -- the `match` on the first two bytes at hand
  pub classify_front : Bytes → Buf → Result IoError (PacketType Buf)
  classify_front [] buf = err buffer_too_small
  classify_front (b0 ∷ []) buf = err buffer_too_small
  classify_front (b0 ∷ b1 ∷ _) buf =
      if nat_eq b0 0x1e && nat_eq b1 0x0f
      then classify_chunk buf
      else if is_zlib b0 b1
      then ok (zlib_compressed buf)
      else if nat_eq b0 0x1f && nat_eq b1 0x8b
      then ok (gzip_compressed buf)
      else ok (uncompressed buf)

  unfoldable pub classify : Buf → Result IoError (PacketType Buf)
  unfolding classify_front classify_chunk
  classify buf = classify_front (bytes buf) buf
