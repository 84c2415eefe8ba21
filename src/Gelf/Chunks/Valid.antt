-- ===== src/Gelf/Chunks/Valid.antt =====
-- Between packets every entry of `partials` lacks a piece and has room for at least two.
use yaffle.Base.{
  ℕ, suc, ◌≤◌, ◌≡◌, ◌≢◌, refl, ap, true, List, [], ◌∷◌, Option, none, some, Bytes, length, map,
  length-set, length-replicate, ℕ_eq, Option-cases, inl, inr, arith,
}
use yaffle.Base.HashMap.{lookup}
use yaffle.Gelf.Chunks.{Slots, Receiver, complete, panicked, has_gap, assemble_chunked}
use yaffle.Gelf.Chunks.Steps.{entry_of, filled, assemble-Ends}

pub record IsValid (s : Receiver) : Type 0 where
  pub entries :
      (id : ℕ) (e : Slots) → lookup id s.partials ≡ some e → (has_gap e ≡ true) × (2 ≤ length e)

length-map-some : (ps : List Bytes) → length (map (λ p. some p) ps) ≡ length ps
length-map-some [] = refl
length-map-some (p ∷ ps) = ap (λ (n : ℕ). suc n) (length-map-some ps)

module _ (s : Receiver) (id seqno count : ℕ) (content : Bytes) where
  pub length-filled : 2 ≤ count → IsValid s → 2 ≤ length (filled s id seqno count content)
  length-filled two valid = elim (Option-cases (lookup id s.partials)) [
    | inl e ↦
        rw (length-set (entry_of s id count) seqno (some content), e)
          (omega (arith, length-replicate count (let x : Option Bytes = none in x)))
    | inr (old, e) ↦
        rw (length-set (entry_of s id count) seqno (some content), e) (valid.entries id old e).1
  ]

  pub assemble-IsValid :
      2 ≤ count → IsValid s → IsValid (assemble_chunked s id seqno count content).1
  assemble-IsValid two valid = elim (assemble-Ends s id seqno count content) [
    | inl (gap, _, l) ↦ record {
      entries = λ j e there. ground (arith, l j, valid.entries j e, gap, length-filled two valid);
    }
    | inr (_, _, _, l) ↦ record { entries = λ j e there. ground (arith, l j, valid.entries j e) }
  ]

  -- A completed message has at least two pieces.
  pub complete-length :
      (ps : List Bytes)
      → 2 ≤ count
      → IsValid s
      → (assemble_chunked s id seqno count content).0 ≡ complete ps
      → 2 ≤ length ps
  complete-length ps two valid done = elim (assemble-Ends s id seqno count content) [
    | inl (_, w, _) ↦ cc (done, w)
    | inr (qs, d, back, _) ↦
        let same : ps ≡ qs = cc (done, d) in
        rw same (rw (← length-map-some qs) (rw back (length-filled two valid)))
  ]

  pub assemble-ne-panicked : (assemble_chunked s id seqno count content).0 ≢ panicked
  assemble-ne-panicked h = elim (assemble-Ends s id seqno count content) [
    | inl (_, w, _) ↦ cc (h, w)
    | inr (_, d, _, _) ↦ cc (h, d)
  ]
