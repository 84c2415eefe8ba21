-- ===== src/Gelf/Chunks.antt =====
-- `assemble_chunked` of gelf.rs: the packets of a chunked message, by its id.
pub mod Steps
pub mod Masks
pub mod Progress
pub mod Reassembly
pub mod Valid
pub mod Size
use yaffle.Base.{
  ℕ, ◌≡◌, refl, Bool, true, false, List, [], ◌∷◌, ◌++◌, Option, none, some, Bytes, set, replicate,
  ℕ_eq, if◌then◌else◌,
}
use yaffle.Base.HashMap.{HashMap, lookup, insert, remove}

-- `Vec<Option<Bytes>>`
abbrev pub Slots : Type 0
Slots = List (Option Bytes)

-- What `run_recv_loop` shares with its packets: `partials`, and the expiry tasks that were
-- spawned and still sleep, each by the id that it will send.
pub record Receiver : Type 0 where
  pub partials : HashMap ℕ Slots
  pub timers : List ℕ

-- The result `Option<Vec<Bytes>>`, or a panic of an `unwrap`.
pub data Assembled : Type 0 where
  waiting panicked : Assembled
  complete : List Bytes → Assembled

-- `entry.contains(&None)`
unfoldable pub has_gap : Slots → Bool
has_gap [] = false
has_gap (none ∷ e) = true
has_gap (some _ ∷ e) = has_gap e

-- `pieces.drain(..).map(|piece| piece.unwrap()).collect()`
unfoldable pub unwrap_all : Slots → Option (List Bytes)
unwrap_all [] = some []
unwrap_all (none ∷ e) = none
unwrap_all (some p ∷ e) = elim (unwrap_all e) [ none ↦ none | some ps ↦ some (p ∷ ps) ]

-- `partials.entry(id).or_insert_with(..)`: a new entry also spawns the task that will expire it.
unfoldable pub entry_or_insert : Receiver → ℕ → ℕ → Slots × Receiver
entry_or_insert s id count = elim (lookup id s.partials) [
  | some entry ↦ (entry, s)
  | none ↦
      let entry : Slots = replicate count none in
      (entry, record s { partials = insert id entry s.partials; timers = s.timers ++ id ∷ [] })
]

abbrev collected : Option (List Bytes) → Assembled
collected none = panicked
collected (some pieces) = complete pieces

-- `partials.remove(&id).unwrap()` and the collection of its pieces
unfoldable pub take_pieces : Receiver → ℕ → Assembled × Receiver
unfolding unwrap_all
take_pieces s id = elim (lookup id s.partials) [
  | none ↦ (panicked, s)
  | some pieces ↦ (collected (unwrap_all pieces), record s { partials = remove id s.partials })
]

-- After the slot is written: `partials` holds the entry `filled`.
unfoldable pub check_complete : Receiver → ℕ → Slots → Assembled × Receiver
check_complete s id filled = if has_gap filled then (waiting, s) else take_pieces s id

-- A `seqno` past the entry's end changes nothing.
unfoldable pub assemble_chunked : Receiver → ℕ → ℕ → ℕ → Bytes → Assembled × Receiver
assemble_chunked s id seqno count content =
    let (entry, s1) = entry_or_insert s id count in
    let filled = set entry seqno (some content) in
    check_complete (record s1 { partials = insert id filled s1.partials }) id filled
