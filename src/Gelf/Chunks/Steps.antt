-- ===== src/Gelf/Chunks/Steps.antt =====
-- What one call of `assemble_chunked` does, by what lookups see.
use yaffle.Base.{
  ℕ, ◌≡◌, refl, ◌∙◌, ap, true, false, none, some, List, [], ◌∷◌, Bytes, set, replicate, unwrap_or,
  if◌then◌else◌, ◌==◌, ℕ_eq, nat_eq, arith, Option-cases, Bool-cases, ◌⊎◌, inl, inr, map,
}
use yaffle.Base.HashMap.{lookup, insert, remove, lookup-insert, lookup-remove}
use yaffle.Gelf.Chunks.{
  Slots, Receiver, waiting, complete, has_gap, unwrap_all, entry_or_insert, take_pieces,
  assemble_chunked, check_complete,
}

-- The entry that a packet of this id and count meets.
abbrev pub entry_of : Receiver → ℕ → ℕ → Slots
entry_of s id count = unwrap_or (replicate count none) (lookup id s.partials)

abbrev pub filled : Receiver → ℕ → ℕ → ℕ → Bytes → Slots
filled s id seqno count content = set (entry_of s id count) seqno (some content)

pub entry_or_insert_lem :
    (s : Receiver) (id count : ℕ)
    → ((entry_or_insert s id count).0 ≡ entry_of s id count)
      × ((j : ℕ)
          → (e : Slots)
          → lookup j (insert id e (entry_or_insert s id count).1.partials)
            ≡ lookup j (insert id e s.partials))
unfolding entry_or_insert
entry_or_insert_lem s id count = elim (Option-cases (lookup id s.partials)) [
  | inl e ↦ rw (e, entry_or_insert) (refl, λ j x. simp lookup-insert (ground arith))
  | inr (v, e) ↦ rw (e, entry_or_insert) (refl, λ j x. refl)
]

nat_eq_refl : (n : ℕ) → nat_eq n n ≡ true
nat_eq_refl n = ground arith

check_complete_lem :
    (s : Receiver) (id : ℕ) (e : Slots) (ps : List Bytes)
    → has_gap e ≡ false
    → lookup id s.partials ≡ some e
    → unwrap_all e ≡ some ps
    → check_complete s id e ≡ (complete ps, record s { partials = remove id s.partials })
unfolding take_pieces
check_complete_lem s id e ps gap there pieces =
    unfold check_complete in rw gap (rw (there, take_pieces) (rw pieces))

module _ (s : Receiver) (id seqno count : ℕ) (content : Bytes) where
  -- the partials once the slot is filled
  lookup-filled :
      (j : ℕ)
      → lookup j
          (insert id (filled s id seqno count content) (entry_or_insert s id count).1.partials)
        ≡ (if id == j then some (filled s id seqno count content) else lookup j s.partials)
  lookup-filled j =
      (entry_or_insert_lem s id count).1 j (filled s id seqno count content)
      ∙ lookup-insert id j (filled s id seqno count content) s.partials

  -- the receiver with the slot filled
  abbrev written : Receiver
  written =
      let r = (entry_or_insert s id count).1 in
      record r { partials = insert id (filled s id seqno count content) r.partials }

  assemble_chunked_lem :
      assemble_chunked s id seqno count content
      ≡ check_complete written id (filled s id seqno count content)
  unfolding assemble_chunked
  assemble_chunked_lem =
      ap
        (λ e.
          let r = (entry_or_insert s id count).1 in
          let e' = set e seqno (some content) in
          check_complete (record r { partials = insert id e' r.partials }) id e')
        (entry_or_insert_lem s id count).0

  lookup_written : lookup id written.partials ≡ some (filled s id seqno count content)
  lookup_written = lookup-filled id ∙ rw (nat_eq_refl id)

  pub assemble_waiting :
      has_gap (filled s id seqno count content) ≡ true
      → ((assemble_chunked s id seqno count content).0 ≡ waiting)
        × ((j : ℕ)
            → lookup j (assemble_chunked s id seqno count content).1.partials
              ≡ (if id == j then some (filled s id seqno count content) else lookup j s.partials))
  assemble_waiting gap =
      rw assemble_chunked_lem (unfold check_complete in rw gap (refl, lookup-filled))

  pub assemble_complete :
      (ps : List Bytes)
      → has_gap (filled s id seqno count content) ≡ false
      → unwrap_all (filled s id seqno count content) ≡ some ps
      → ((assemble_chunked s id seqno count content).0 ≡ complete ps)
        × ((j : ℕ)
            → lookup j (assemble_chunked s id seqno count content).1.partials
              ≡ (if id == j then none else lookup j s.partials))
  assemble_complete ps gap pieces = rw assemble_chunked_lem (
      rw
        (check_complete_lem written id (filled s id seqno count content) ps gap lookup_written
          pieces)
        (refl, λ j. lookup-remove id j written.partials ∙ rw lookup-filled (ground arith)))

-- With no gap left, every `unwrap` finds its piece.
pub unwrap_all_total :
    (e : Slots)
    → has_gap e ≡ false
    → (ps : List Bytes) × (unwrap_all e ≡ some ps) × (map some ps ≡ e)
unfolding has_gap unwrap_all
unwrap_all_total [] h = ([], refl, refl)
unwrap_all_total (none ∷ e) h = cc
unwrap_all_total (some p ∷ e) h =
    let (ps, pieces, back) = unwrap_all_total e h in (p ∷ ps, rw pieces, ap (◌∷◌ (some p)) back)

-- Both ways a call can end. `assemble_chunked` never panics.
abbrev pub Ends : Receiver → ℕ → ℕ → ℕ → Bytes → Type 0
Ends s id seqno count content =
    ((has_gap (filled s id seqno count content) ≡ true)
      × ((assemble_chunked s id seqno count content).0 ≡ waiting)
      × ((j : ℕ)
          → lookup j (assemble_chunked s id seqno count content).1.partials
            ≡ (if id == j then some (filled s id seqno count content) else lookup j s.partials)))
    ⊎ ((ps : List Bytes) × ((assemble_chunked s id seqno count content).0 ≡ complete ps)
        × (map some ps ≡ filled s id seqno count content)
        × ((j : ℕ)
            → lookup j (assemble_chunked s id seqno count content).1.partials
              ≡ (if id == j then none else lookup j s.partials)))

pub assemble-Ends :
    (s : Receiver) (id seqno count : ℕ) (content : Bytes) → Ends s id seqno count content
assemble-Ends s id seqno count content =
    elim (Bool-cases (has_gap (filled s id seqno count content))) [
      | inl gap ↦ let (w, l) = assemble_waiting s id seqno count content gap in inl (gap, w, l)
      | inr closed ↦
          let (ps, pieces, back) = unwrap_all_total (filled s id seqno count content) closed in
          let (d, l) = assemble_complete s id seqno count content ps closed pieces in
          inr (ps, d, back, l)
    ]

-- A chunk changes no other message's entry.
pub assemble_other :
    (s : Receiver) (id seqno count : ℕ) (content : Bytes) (j : ℕ)
    → nat_eq id j ≡ false
    → lookup j (assemble_chunked s id seqno count content).1.partials ≡ lookup j s.partials
assemble_other s id seqno count content j ne = elim (assemble-Ends s id seqno count content) [
  | inl (_, _, l) ↦ l j ∙ rw ne
  | inr (_, _, _, l) ↦ l j ∙ rw ne
]

-- A completed message leaves no entry behind.
pub complete-lookup :
    (s : Receiver) (id seqno count : ℕ) (content : Bytes) (ps : List Bytes)
    → (assemble_chunked s id seqno count content).0 ≡ complete ps
    → lookup id (assemble_chunked s id seqno count content).1.partials ≡ none
complete-lookup s id seqno count content ps h = elim (assemble-Ends s id seqno count content) [
  | inl (_, w, _) ↦ cc (w, h)
  | inr (_, _, _, l) ↦ l id ∙ rw (nat_eq_refl id)
]
