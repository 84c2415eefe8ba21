-- ===== src/Gelf/Chunks/Size.antt =====
-- The bytes that the receiver holds: a chunk adds at most its content, and a completed message
-- takes its pieces out.
use yaffle.Base.{
  ℕ, zero, suc, ◌+◌, ◌≤◌, ◌≡◌, refl, ap, List, [], ◌∷◌, none, some, Bytes, length, set, replicate,
  concat, length-append, unwrap_or, ℕ_eq, Bool-cases, Option-cases, inl, inr, arith,
}
use yaffle.Base.HashMap.{HashMap, lookup, insert, remove, lookup-insert}
use yaffle.Gelf.Chunks.{
  Slots, Receiver, Assembled, waiting, complete, panicked, has_gap, unwrap_all, entry_or_insert,
  take_pieces, check_complete, assemble_chunked,
}

unfoldable pub slots_size : Slots → ℕ
slots_size [] = 0
slots_size (none ∷ e) = slots_size e
slots_size (some p ∷ e) = length p + slots_size e

unfoldable pub partials_size : HashMap ℕ Slots → ℕ
unfolding slots_size
partials_size [] = 0
partials_size ((id, e) ∷ m) = slots_size e + partials_size m

abbrev pub held : Receiver → ℕ
held s = partials_size s.partials

abbrev size_at : ℕ → HashMap ℕ Slots → ℕ
size_at id m = slots_size (unwrap_or [] (lookup id m))

size-insert :
    (id : ℕ) (e : Slots) (m : HashMap ℕ Slots)
    → partials_size (insert id e m) + size_at id m ≡ partials_size m + slots_size e
unfolding partials_size insert lookup
size-insert id e [] = ground arith
size-insert id e ((j, d) ∷ m) = ground (arith, size-insert id e m)

size-remove :
    (id : ℕ) (m : HashMap ℕ Slots) → partials_size (remove id m) + size_at id m ≤ partials_size m
unfolding partials_size remove lookup
size-remove id [] = ground arith
size-remove id ((j, d) ∷ m) = ground (arith, size-remove id m)

size-set : (e : Slots) (i : ℕ) (p : Bytes) → slots_size (set e i (some p)) ≤ slots_size e + length p
unfolding slots_size
size-set [] i p = omega arith
size-set (none ∷ e) zero p = omega arith
size-set (some q ∷ e) zero p = omega arith
size-set (none ∷ e) (suc i) p = omega (arith, size-set e i p)
size-set (some q ∷ e) (suc i) p = omega (arith, size-set e i p)

size-replicate : (n : ℕ) → slots_size (replicate n none) ≡ 0
unfolding slots_size
size-replicate zero = refl
size-replicate (suc n) = size-replicate n

size-unwrap_all :
    (e : Slots) (ps : List Bytes) → unwrap_all e ≡ some ps → slots_size e ≡ length (concat ps)
unfolding slots_size unwrap_all
size-unwrap_all [] ps h = ground arith
size-unwrap_all (none ∷ e) ps h = cc h
size-unwrap_all (some p ∷ e) ps h = elim (Option-cases (unwrap_all e)) [
  | inl stuck ↦ absurd (ground (arith, stuck))
  | inr (qs, pieces) ↦
      let here : ps ≡ p ∷ qs = ground (arith, pieces) in
      omega (
        arith,
        size-unwrap_all e qs pieces,
        length-append p (concat qs),
        ap (λ t. length (concat t)) here,
      )
]

abbrev pub result_size : Assembled → ℕ
result_size waiting = 0
result_size panicked = 0
result_size (complete ps) = length (concat ps)

size-entry_or_insert :
    (s : Receiver) (id count : ℕ)
    → (held (entry_or_insert s id count).1 ≡ held s)
      × (size_at id (entry_or_insert s id count).1.partials
          ≡ slots_size (entry_or_insert s id count).0)
unfolding entry_or_insert slots_size
size-entry_or_insert s id count = elim (Option-cases (lookup id s.partials)) [
  | inl e ↦
      rw (e, entry_or_insert)
        (
          omega (
            arith,
            size-insert id (replicate count none) s.partials,
            size-replicate count,
            ap (λ o. slots_size (unwrap_or [] o)) e,
          ),
          rw (lookup-insert id id (replicate count none) s.partials) (ground arith),
        )
  | inr (old, e) ↦ rw (e, entry_or_insert) (refl, rw e)
]

size-take_pieces :
    (s : Receiver) (id : ℕ) → held (take_pieces s id).1 + result_size (take_pieces s id).0 ≤ held s
unfolding take_pieces
size-take_pieces s id = elim (Option-cases (lookup id s.partials)) [
  | inl e ↦ rw (e, take_pieces) (omega arith)
  | inr (found, e) ↦
      rw (e, take_pieces)
        (elim (Option-cases (unwrap_all found)) [
          | inl stuck ↦ rw stuck (omega (arith, size-remove id s.partials))
          | inr (ps, pieces) ↦ rw pieces (
              omega (
                arith,
                size-remove id s.partials,
                size-unwrap_all found ps pieces,
                ap (λ o. slots_size (unwrap_or [] o)) e,
              ))
        ])
]

size-check_complete :
    (s : Receiver) (id : ℕ) (e : Slots)
    → held (check_complete s id e).1 + result_size (check_complete s id e).0 ≤ held s
size-check_complete s id e = elim (Bool-cases (has_gap e)) [
  | inl gap ↦ unfold check_complete in rw gap (omega arith)
  | inr closed ↦ unfold check_complete in rw closed (size-take_pieces s id)
]

-- What is held and what is given back is at most what was held and what came.
pub held-assemble :
    (s : Receiver) (id seqno count : ℕ) (content : Bytes)
    → held (assemble_chunked s id seqno count content).1
        + result_size (assemble_chunked s id seqno count content).0
      ≤ held s + length content
unfolding assemble_chunked
held-assemble s id seqno count content =
    let (entry, s1) = entry_or_insert s id count in
    let e' = set entry seqno (some content) in
    omega (
      arith,
      size-check_complete (record s1 { partials = insert id e' s1.partials }) id e',
      size-insert id e' s1.partials,
      size-set entry seqno content,
      (size-entry_or_insert s id count).0,
      (size-entry_or_insert s id count).1,
    )
