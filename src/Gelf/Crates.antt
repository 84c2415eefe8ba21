-- ===== src/Gelf/Crates.antt =====
-- What gelf.rs calls of the crates `bytes`, `flate2` and `serde_json`, with the documented behaviour
-- that the theorems use. A `Reader` stands for the stream that it delivers.
use yaffle.Base.{
  ℕ, ◌≤◌, ◌≡◌, List, [], ◌++◌, Result, Bytes, length, take, drop, nat_eq, if◌then◌else◌,
}

-- `struct GELFMessage`; `Value` is serde_json's, and `other` a map from the field names to values.
pub record GelfMessage (Value : Type 0) : Type 0 where
  pub version : Bytes
  pub host : Bytes
  pub short_message : Bytes
  pub other : List (Bytes × Value)

-- The trait `bytes::Buf`: a cursor over bytes that need not lie in one piece.
pub record BufLaws (Buf : Type 0) (remaining : Buf → ℕ) (bytes : Buf → Bytes)
    (advance : ℕ → Buf → Buf) (copy_to_slice : ℕ → Buf → Bytes × Buf) (to_bytes : Buf → Bytes)
    (from_bytes : Bytes → Buf) (limit : Buf → ℕ → Buf) (chain : Buf → Buf → Buf) : Type 0 where
  -- `remaining` counts the bytes that `to_bytes` collects.
  pub remaining_lem : (b : Buf) → remaining b ≡ length (to_bytes b)
  -- `bytes` is the front of what is left, and empty only at the end.
  pub bytes_front : (b : Buf) → (t : Bytes) × (to_bytes b ≡ bytes b ++ t)
  pub bytes_nonempty : (b : Buf) → bytes b ≡ [] → to_bytes b ≡ []
  -- Within what is left, `advance` and `copy_to_slice` move the cursor.
  pub to_bytes-advance :
      (n : ℕ) (b : Buf) → n ≤ length (to_bytes b) → to_bytes (advance n b) ≡ drop n (to_bytes b)
  pub copied :
      (n : ℕ) (b : Buf) → n ≤ length (to_bytes b) → (copy_to_slice n b).0 ≡ take n (to_bytes b)
  pub left_over :
      (n : ℕ) (b : Buf)
      → n ≤ length (to_bytes b)
      → to_bytes (copy_to_slice n b).1 ≡ drop n (to_bytes b)
  -- `Bytes` and byte slices lie in one piece.
  pub to_bytes-from_bytes : (s : Bytes) → to_bytes (from_bytes s) ≡ s
  pub bytes-from_bytes : (s : Bytes) → bytes (from_bytes s) ≡ s
  -- `BufExt::take`
  pub to_bytes-limit : (b : Buf) (n : ℕ) → to_bytes (limit b n) ≡ take n (to_bytes b)
  pub bytes-limit : (b : Buf) (n : ℕ) → bytes (limit b n) ≡ take n (bytes b)
  -- `BufExt::chain` serves the first buffer while it has bytes left, then the second.
  pub to_bytes-chain : (a b : Buf) → to_bytes (chain a b) ≡ to_bytes a ++ to_bytes b
  pub bytes-chain :
      (a b : Buf) → bytes (chain a b) ≡ (if nat_eq (remaining a) 0 then bytes b else bytes a)

pub record Crates : Type 1 where
  pub Buf : Type 0
  pub remaining : Buf → ℕ
  pub bytes : Buf → Bytes
  pub advance : ℕ → Buf → Buf
  pub copy_to_slice : ℕ → Buf → Bytes × Buf
  pub to_bytes : Buf → Bytes
  pub from_bytes : Bytes → Buf
  pub limit : Buf → ℕ → Buf
  pub chain : Buf → Buf → Buf
  pub laws : BufLaws Buf remaining bytes advance copy_to_slice to_bytes from_bytes limit chain
  pub Reader : Type 0
  pub JsonError : Type 0
  pub Value : Type 0
  -- `content.reader()`, `GzDecoder::new`, `ZlibDecoder::new`, `serde_json::from_reader`
  pub reader : Buf → Reader
  pub gz_decoder : Reader → Reader
  pub zlib_decoder : Reader → Reader
  pub from_reader : Reader → Result JsonError (GelfMessage Value)
  -- A reader delivers the bytes that are left in its buffer.
  pub reader_lem : (a b : Buf) → to_bytes a ≡ to_bytes b → reader a ≡ reader b
