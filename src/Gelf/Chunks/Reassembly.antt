-- ===== src/Gelf/Chunks/Reassembly.antt =====
-- A message is completed by the last of its chunks, in whatever order they come.
use yaffle.Base.{
  ℕ, zero, suc, ◌<◌, ◌≡◌, ◌≢◌, refl, sym, subst, ◌∙◌, Bool, true, false, ◌&&◌, ◌||◌, List, [], ◌∷◌,
  none, some, Bytes, length, get_elem?, set, replicate, option_map, if◌then◌else◌, nat_eq, ℕ_eq,
  nat_eq_iff, arith, length-set, length-replicate,
}
use mathlib.Core.List.{foldl}
use yaffle.Base.HashMap.{lookup}
use yaffle.Gelf.Chunks.{Receiver, complete}
use yaffle.Gelf.Chunks.Steps.{entry_of, complete-lookup}
use yaffle.Gelf.Chunks.Masks.{slots, full, slots-replicate}
use yaffle.Gelf.Chunks.Progress.{
  Arrival, assemble, deliver, FromMessage, AllFrom, progress, assemble-progress, length-progress,
  deliver-progress,
}

-- Has a chunk with this number arrived for message `id`?
unfoldable pub arrived : ℕ → ℕ → List Arrival → Bool
arrived id i [] = false
arrived id i (a ∷ rest) = nat_eq a.id id && nat_eq a.seqno i || arrived id i rest

pub get_elem?-set :
    (m : List Bool) (i j : ℕ)
    → get_elem? (set m i true) j
      ≡ (if nat_eq i j then option_map (λ _. true) (get_elem? m j) else get_elem? m j)
get_elem?-set [] i j = ground arith
get_elem?-set (b ∷ m) zero zero = refl
get_elem?-set (b ∷ m) zero (suc j) = ground arith
get_elem?-set (b ∷ m) (suc i) zero = ground arith
get_elem?-set (b ∷ m) (suc i) (suc j) = ground (arith, get_elem?-set m i j)

pub not-full : (m : List Bool) (i : ℕ) → get_elem? m i ≡ some false → full m ≡ false
not-full [] i h = cc
not-full (b ∷ m) zero h = ground arith
not-full (b ∷ m) (suc i) h = ground (arith, not-full m i)

full_of_all : (m : List Bool) → ((j : ℕ) → j < length m → get_elem? m j ≡ some true) → full m ≡ true
full_of_all [] h = refl
full_of_all (b ∷ m) h =
    ground (arith, h 0 (omega arith), full_of_all m (λ j lt. h (suc j) (omega arith)))

-- A chunk other than piece `i` marks its own piece, if it is one of message `id`.
pub mask_step :
    (id i : ℕ) (a : Arrival) (m : List Bool)
    → get_elem? m i ≡ some false
    → (nat_eq a.id id && nat_eq a.seqno i) ≡ false
    → (j : ℕ)
    → get_elem? (progress id m a) j
      ≡ option_map (λ b. b || nat_eq a.id id && nat_eq a.seqno j) (get_elem? m j)
unfolding progress
mask_step id i a m gap other j =
    ground
      (arith, get_elem?-set m a.seqno i, get_elem?-set m a.seqno j, not-full (set m a.seqno true) i)

-- While piece `i` is missing, the mask collects what arrives.
mask_after :
    (id i : ℕ) (arrivals : List Arrival) (m : List Bool)
    → get_elem? m i ≡ some false
    → arrived id i arrivals ≡ false
    → (j : ℕ)
    → get_elem? (foldl (progress id) m arrivals) j
      ≡ option_map (λ b. b || arrived id j arrivals) (get_elem? m j)
unfolding arrived
mask_after id i [] m gap absent j = ground arith
mask_after id i (a ∷ rest) m gap absent j = ground (
  arith,
  mask_step id i a m gap (ground arith) j,
  mask_step id i a m gap (ground arith) i,
  mask_after id i rest (progress id m a) (ground (arith, mask_step id i a m gap (ground arith) i))
      (ground arith) j,
)

pub get_elem?-replicate : (n j : ℕ) → j < n → get_elem? (replicate n false) j ≡ some false
get_elem?-replicate zero j h = absurd (omega arith)
get_elem?-replicate (suc n) zero h = refl
get_elem?-replicate (suc n) (suc j) h = get_elem?-replicate n j (omega arith)

length-foldl :
    (id : ℕ) (arrivals : List Arrival) (m : List Bool)
    → length (foldl (progress id) m arrivals) ≡ length m
length-foldl id [] m = refl
length-foldl id (a ∷ rest) m = length-foldl id rest (progress id m a) ∙ length-progress id m a

-- Where a mask of the pieces but one stands for what `arrivals` brought of message `id`, the chunk of
-- the missing piece completes the message.
pub last_piece :
    (id : ℕ) (ps : List Bytes) (t : Receiver) (arrivals : List Arrival) (last : Arrival)
    → entry_of t id (length ps)
      ≡ slots ps (foldl (progress id) (replicate (length ps) false) arrivals)
    → FromMessage id ps last
    → last.id ≡ id
    → last.seqno < length ps
    → arrived id last.seqno arrivals ≡ false
    → ((j : ℕ) → j < length ps → j ≢ last.seqno → arrived id j arrivals ≡ true)
    → ((assemble t last).0 ≡ complete ps) × (lookup id (assemble t last).1.partials ≡ none)
last_piece id ps t arrivals last entry from own inside missing others = (
  outcome,
  subst (λ k. lookup k (assemble t last).1.partials ≡ none) own
      (complete-lookup t last.id last.seqno last.count last.content ps outcome),
)
  where
    start : List Bool
    start = replicate (length ps) false

    mask : List Bool
    mask = foldl (progress id) start arrivals

    length_mask : length mask ≡ length ps
    length_mask = length-foldl id arrivals start ∙ length-replicate (length ps) false

    at : (j : ℕ) → j < length ps → get_elem? (set mask last.seqno true) j ≡ some true
    at j lt = ground (
      arith,
      get_elem?-set mask last.seqno j,
      mask_after id last.seqno arrivals start (get_elem?-replicate (length ps) last.seqno inside)
          missing j,
      get_elem?-replicate (length ps) j lt,
      others j lt,
    )

    all_in : full (set mask last.seqno true) ≡ true
    all_in =
        full_of_all (set mask last.seqno true)
          λ j lt. at j (omega (arith, length-set mask last.seqno true, length_mask))

    outcome : (assemble t last).0 ≡ complete ps
    outcome =
        (assemble-progress id ps t mask last length_mask entry from).1
          ((nat_eq_iff last.id id).1 own)
        ∙ rw all_in

-- with no entry, no piece is there
pub entry_start :
    (id : ℕ) (ps : List Bytes) (s : Receiver)
    → lookup id s.partials ≡ none
    → entry_of s id (length ps) ≡ slots ps (replicate (length ps) false)
entry_start id ps s fresh = rw fresh (sym (slots-replicate ps))

-- From no entry for message `id`: the chunks that name it are pieces of `ps`, all but the last one
-- have arrived, in any order, possibly more than once and among chunks of other messages. Then the
-- last one completes the message, with its pieces in order, and its entry is gone.
pub reassembly :
    (id : ℕ) (ps : List Bytes) (s : Receiver) (before : List Arrival) (last : Arrival)
    → lookup id s.partials ≡ none
    → AllFrom id ps before
    → FromMessage id ps last
    → last.id ≡ id
    → last.seqno < length ps
    → arrived id last.seqno before ≡ false
    → ((j : ℕ) → j < length ps → j ≢ last.seqno → arrived id j before ≡ true)
    → ((assemble (deliver s before) last).0 ≡ complete ps)
      × (lookup id (assemble (deliver s before) last).1.partials ≡ none)
reassembly id ps s before last fresh from_before = last_piece id ps (deliver s before) before last (
    deliver-progress id ps before s (replicate (length ps) false)
      (length-replicate (length ps) false) (entry_start id ps s fresh) from_before)
