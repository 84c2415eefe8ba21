-- ===== src/Gelf/Parse/Whole.antt =====
-- The buffer over the pieces of a completed message.
use mathlib.Core.List.{foldl}
use yaffle.Base.{
  ℕ, ◌≤◌, ◌≡◌, refl, sym, ◌∙◌, List, [], ◌∷◌, ◌++◌, append_assoc, append-nil, some, Bytes, length,
  length-append, concat, arith,
}
use yaffle.Gelf.Crates.{Crates}
use yaffle.Gelf.Parse.{chain_pieces}

module _ (C : Crates) where
  open C use {Buf, bytes, to_bytes, from_bytes, chain, remaining, laws}
  open laws use {
    remaining_lem, to_bytes-from_bytes, bytes-from_bytes, to_bytes-chain, bytes-chain,
    bytes_nonempty,
  }

  abbrev link : Buf → Bytes → Buf
  link c item = chain c (from_bytes item)

  to_bytes-foldl :
      (rest : List Bytes) (b : Buf) → to_bytes (foldl link b rest) ≡ to_bytes b ++ concat rest
  to_bytes-foldl [] b = sym (append-nil (to_bytes b))
  to_bytes-foldl (item ∷ rest) b =
      to_bytes-foldl rest (link b item)
      ∙ rw (to_bytes-chain, to_bytes-from_bytes) (append_assoc (to_bytes b) item (concat rest))

  -- the buffer in front is served while it has bytes left
  bytes-foldl :
      (rest : List Bytes) (b : Buf) (x : ℕ) (t : Bytes)
      → bytes b ≡ x ∷ t
      → 1 ≤ length (to_bytes b)
      → bytes (foldl link b rest) ≡ x ∷ t
  bytes-foldl [] b x t e h = e
  bytes-foldl (item ∷ rest) b x t e h =
      bytes-foldl rest (link b item) x t
        (bytes-chain b (from_bytes item) ∙ ground (arith, remaining_lem b))
        (rw to_bytes-chain (omega (arith, length-append (to_bytes b) (to_bytes (from_bytes item)))))

  -- Two pieces or more are chained into a buffer of all their bytes.
  pub chain_pieces_lem :
      (ps : List Bytes)
      → 2 ≤ length ps
      → (whole : Buf) × (chain_pieces C ps ≡ some whole) × (to_bytes whole ≡ concat ps)
  unfolding chain_pieces
  chain_pieces_lem [] h = absurd (omega arith)
  chain_pieces_lem (a ∷ []) h = absurd (omega arith)
  chain_pieces_lem (a ∷ b ∷ rest) h = (
    foldl link (chain (from_bytes a) (from_bytes b)) rest,
    refl,
    to_bytes-foldl rest (chain (from_bytes a) (from_bytes b))
        ∙ rw (to_bytes-chain, to_bytes-from_bytes)
            (rw to_bytes-from_bytes (append_assoc a b (concat rest))),
  )

  -- A first piece that is not empty is the slice at the front.
  pub chain_pieces_front :
      (x : ℕ) (t b : Bytes) (rest : List Bytes) (whole : Buf)
      → chain_pieces C ((x ∷ t) ∷ b ∷ rest) ≡ some whole
      → bytes whole ≡ x ∷ t
  unfolding chain_pieces
  chain_pieces_front x t b rest whole h =
      let same : foldl link start rest ≡ whole = cc h in
      rw (← same) (bytes-foldl rest start x t served (rw held (omega arith)))
    where
      first : Buf
      first = from_bytes (x ∷ t)

      start : Buf
      start = chain first (from_bytes b)

      held : to_bytes start ≡ x ∷ t ++ b
      held =
          to_bytes-chain first (from_bytes b)
          ∙ rw (to_bytes-from_bytes (x ∷ t), to_bytes-from_bytes b)

      served : bytes start ≡ x ∷ t
      served =
          bytes-chain first (from_bytes b)
          ∙ ground
              (arith, remaining_lem first, to_bytes-from_bytes (x ∷ t), bytes-from_bytes (x ∷ t))
