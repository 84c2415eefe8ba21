-- ===== src/Gelf/Chunks/Progress.antt =====
-- `assemble_chunked` refines, for each message id, a mask of the pieces that have arrived. Chunks of
-- other ids may come in between.
use yaffle.Base.{
  ℕ, ◌≡◌, ap, subst, ◌∙◌, Bool, true, false, List, [], ◌∷◌, some, Bytes, length, get_elem?, set,
  replicate, if◌then◌else◌, nat_eq, ℕ_eq, nat_eq_iff, Bool-cases, inl, inr, arith, length-set,
  length-replicate,
}
use mathlib.Core.List.{foldl}
use yaffle.Gelf.Chunks.{Receiver, Assembled, waiting, complete, assemble_chunked}
use yaffle.Gelf.Chunks.Steps.{entry_of, filled, assemble_waiting, assemble_complete, assemble_other}
use yaffle.Gelf.Chunks.Masks.{
  slots, full, set-slots, slots-replicate, has_gap-slots, unwrap_all-slots,
}

-- The arguments of one call, as a chunk packet gives them.
pub record Arrival : Type 0 where
  pub id : ℕ
  pub seqno : ℕ
  pub count : ℕ
  pub content : Bytes

abbrev pub assemble : Receiver → Arrival → Assembled × Receiver
assemble s a = assemble_chunked s a.id a.seqno a.count a.content

unfoldable pub deliver : Receiver → List Arrival → Receiver
deliver s [] = s
deliver s (a ∷ rest) = deliver (assemble s a).1 rest

-- If the chunk names message `id`, it is a piece of `ps`, with the right number and count.
abbrev pub FromMessage : ℕ → List Bytes → Arrival → Type 0
FromMessage id ps a =
    nat_eq a.id id ≡ true → (a.count ≡ length ps) × (get_elem? ps a.seqno ≡ some a.content)

abbrev pub AllFrom : ℕ → List Bytes → List Arrival → Type 0
AllFrom id ps [] = Unit
AllFrom id ps (a ∷ rest) = FromMessage id ps a × AllFrom id ps rest

-- The specification: the mask of message `id` after one more chunk. A full mask starts afresh.
unfoldable pub progress : ℕ → List Bool → Arrival → List Bool
progress id m a =
    if nat_eq a.id id
    then (if full (set m a.seqno true) then replicate (length m) false else set m a.seqno true)
    else m

abbrev pub expected : List Bytes → List Bool → Arrival → Assembled
expected ps m a = if full (set m a.seqno true) then complete ps else waiting

module _ (ps : List Bytes) (s : Receiver) (m : List Bool) (a : Arrival) where
  own_step :
      length m ≡ length ps
      → entry_of s a.id (length ps) ≡ slots ps m
      → a.count ≡ length ps
      → get_elem? ps a.seqno ≡ some a.content
      → ((assemble s a).0 ≡ expected ps m a)
        × (entry_of (assemble s a).1 a.id (length ps)
            ≡ slots ps (
                if full (set m a.seqno true)
                then replicate (length m) false
                else set m a.seqno true))
  own_step lm e c g = elim (Bool-cases (full (set m a.seqno true))) [
    | inl all_in ↦
        let done =
          assemble_complete s a.id a.seqno a.count a.content ps
            (rw (fill, has_gap-slots ps (set m a.seqno true) lm') (rw all_in))
            (rw fill (unwrap_all-slots ps (set m a.seqno true) lm' all_in)) in
        rw all_in (done.0, rw (done.1 a.id, eq_self) (rw (lm, slots-replicate ps)))
    | inr some_out ↦
        let more =
          assemble_waiting s a.id a.seqno a.count a.content
            (rw (fill, has_gap-slots ps (set m a.seqno true) lm') (rw some_out)) in
        rw some_out (more.0, rw (more.1 a.id, eq_self) fill)
  ]
    where
      lm' : length (set m a.seqno true) ≡ length ps
      lm' = length-set m a.seqno true ∙ lm

      eq_self : nat_eq a.id a.id ≡ true
      eq_self = ground arith

      fill : filled s a.id a.seqno a.count a.content ≡ slots ps (set m a.seqno true)
      fill =
          ap (λ n. filled s a.id a.seqno n a.content) c
          ∙ ap (λ t. set t a.seqno (some a.content)) e
          ∙ set-slots ps m a.seqno a.content lm g

-- Where the entry of message `id` holds the pieces of `ps` that a mask marks, one chunk, which is a
-- piece of `ps` if it names the message, moves the mask as specified, whatever its own id; and a
-- chunk of the message has the expected result.
pub assemble-progress :
    (id : ℕ) (ps : List Bytes) (s : Receiver) (m : List Bool) (a : Arrival)
    → length m ≡ length ps
    → entry_of s id (length ps) ≡ slots ps m
    → FromMessage id ps a
    → (entry_of (assemble s a).1 id (length ps) ≡ slots ps (progress id m a))
      × (nat_eq a.id id ≡ true → (assemble s a).0 ≡ expected ps m a)
unfolding progress
assemble-progress id ps s m a lm e from = elim (Bool-cases (nat_eq a.id id)) [
  | inl own ↦
      let same = (nat_eq_iff a.id id).0 own in
      let (c, g) = from own in
      let (out, next) = own_step ps s m a lm (rw same e) c g in
      rw own (
        subst
            (λ k.
              entry_of (assemble s a).1 k (length ps)
              ≡ slots ps (
                  if full (set m a.seqno true)
                  then replicate (length m) false
                  else set m a.seqno true))
            same next,
        λ _. out,
      )
  | inr other ↦
      rw other (rw (assemble_other s a.id a.seqno a.count a.content id other) e, λ own. cc own)
]

pub length-progress : (id : ℕ) (m : List Bool) (a : Arrival) → length (progress id m a) ≡ length m
unfolding progress
length-progress id m a =
    ground (arith, length-replicate (length m) false, length-set m a.seqno true)

-- Any sequence of chunks, of any messages.
pub deliver-progress :
    (id : ℕ) (ps : List Bytes) (arrivals : List Arrival) (s : Receiver) (m : List Bool)
    → length m ≡ length ps
    → entry_of s id (length ps) ≡ slots ps m
    → AllFrom id ps arrivals
    → entry_of (deliver s arrivals) id (length ps) ≡ slots ps (foldl (progress id) m arrivals)
unfolding deliver
deliver-progress id ps [] s m lm e from = e
deliver-progress id ps (a ∷ rest) s m lm e from =
    deliver-progress id ps rest (assemble s a).1 (progress id m a) (length-progress id m a ∙ lm)
      (assemble-progress id ps s m a lm e from.0).0 from.1
