-- ===== src/Gelf/RecvLoop/Expiry.antt =====
-- No incomplete message is kept for ever: each has an expiry task that sleeps or an id that waits
-- in the channel, and the channel keeps its bound.
use yaffle.Base.{
  ℕ, ◌≤◌, ◌≡◌, refl, ap, Bool, true, false, ◌||◌, List, [], ◌∷◌, ◌++◌, none, some, Bytes, length,
  length-append, arith, nat_eq, nat_eq_iff, ℕ_eq, Bool-cases, Option-cases, inl, inr,
}
use yaffle.Base.HashMap.{lookup, remove, lookup-remove}
use yaffle.Gelf.Crates.{Crates}
use yaffle.Gelf.Chunks.{
  Slots, Receiver, entry_or_insert, take_pieces, check_complete, assemble_chunked,
}
use yaffle.Gelf.Chunks.Steps.{assemble_other}
use yaffle.Gelf.Chunks.Valid.{IsValid, assemble-IsValid}
use yaffle.Gelf.Parse.Termination.{Returns, parse_packet-Returns}
use yaffle.Gelf.Parse.Keeps.{parse_packet-keeps}
use yaffle.Gelf.RecvLoop.{
  Loop, Step, Reach, here, next, absorbed, forwarded, recv_failed, woken, expired, on_packet,
  on_expiry, start, expiry_capacity, outcome, datagram,
}

abbrev pub contains : ℕ → List ℕ → Bool
contains id [] = false
contains id (x ∷ xs) = nat_eq x id || contains id xs

pub contains-append :
    (id : ℕ) (xs ys : List ℕ) → contains id (xs ++ ys) ≡ (contains id xs || contains id ys)
contains-append id [] ys = refl
contains-append id (x ∷ xs) ys = ground (arith, contains-append id xs ys)

-- Every incomplete message will be expired: by a sleeping task, or by an id in `queue`.
pub record Timed (queue : List ℕ) (s : Receiver) : Type 0 where
  pub timed :
      (id : ℕ) (e : Slots)
      → lookup id s.partials ≡ some e
      → (contains id s.timers || contains id queue) ≡ true

check_complete-timers :
    (s : Receiver) (id : ℕ) (e : Slots) → (check_complete s id e).1.timers ≡ s.timers
unfolding check_complete take_pieces
check_complete-timers s id e = ground arith

-- a new entry comes with its task
pub assemble-timers :
    (s : Receiver) (id seqno count : ℕ) (content : Bytes)
    → (assemble_chunked s id seqno count content).1.timers ≡ (entry_or_insert s id count).1.timers
unfolding assemble_chunked
assemble-timers s id seqno count content = check_complete-timers _ id _

entry-timers :
    (s : Receiver) (id count j : ℕ)
    → (contains j s.timers ≡ true → contains j (entry_or_insert s id count).1.timers ≡ true)
      × (lookup id s.partials ≡ none → contains id (entry_or_insert s id count).1.timers ≡ true)
unfolding entry_or_insert
entry-timers s id count j = (
  λ h. ground (arith, contains-append j s.timers (id ∷ [])),
  λ h. ground (arith, contains-append id s.timers (id ∷ [])),
)

assemble-Timed :
    (queue : List ℕ) (s : Receiver) (id seqno count : ℕ) (content : Bytes)
    → Timed queue s
    → Timed queue (assemble_chunked s id seqno count content).1
assemble-Timed queue s id seqno count content t = record {
  timed = λ j e there.
      rw (assemble-timers s id seqno count content) (elim (Option-cases (lookup j s.partials)) [
        | inr (old, e') ↦ ground (arith, t.timed j old e', (entry-timers s id count j).0)
        | inl absent ↦ elim (Bool-cases (nat_eq id j)) [
          | inl same ↦
              let k = (nat_eq_iff id j).0 same in
              rw (← k) (ground (arith, (entry-timers s id count j).1 (rw k absent)))
          | inr other ↦ cc (there, assemble_other s id seqno count content j other, absent)
        ]
      ]);
}

-- What holds in every state of the loop.
pub record IsSafe (C : Crates) (Addr : Type 0) (s : Loop C Addr) : Type 0 where
  pub valid : IsValid s.receiver
  pub timed : Timed s.expiry s.receiver
  pub bounded : length s.expiry ≤ expiry_capacity

module _ (C : Crates) (Addr : Type 0) where
  on_packet-IsSafe :
      (s : Loop C Addr) (buffer : Bytes) (size : ℕ)
      → IsSafe C Addr s
      → IsSafe C Addr (on_packet C Addr s buffer size).1
  unfolding on_packet
  on_packet-IsSafe s buffer size h = record {
    valid =
        parse_packet-keeps C IsValid
          (λ r id seqno count content two v. assemble-IsValid r id seqno count content two v) _
          s.receiver _ h.valid;
    timed =
        parse_packet-keeps C (Timed s.expiry)
          (λ r id seqno count content two t. assemble-Timed s.expiry r id seqno count content t) _
          s.receiver _ h.timed;
    bounded = h.bounded;
  }

  woken-Timed :
      (r r' : Receiver) (queue before after : List ℕ) (id : ℕ)
      → r.timers ≡ before ++ (id ∷ after)
      → r' ≡ record { partials = r.partials; timers = before ++ after }
      → Timed queue r
      → Timed (queue ++ id ∷ []) r'
  woken-Timed r r' queue before after id split e t = rw e (record {
    timed = λ j x there. ground (
      arith,
      t.timed j x there,
      ap (contains j) split,
      contains-append j before (id ∷ after),
      contains-append j before after,
      contains-append j queue (id ∷ []),
    );
  })

  expired-Timed :
      (r : Receiver) (id : ℕ) (rest : List ℕ)
      → Timed (id ∷ rest) r
      → Timed rest (record r { partials = remove id r.partials })
  expired-Timed r id rest t = record {
    timed = λ j e there. ground (arith, lookup-remove id j r.partials, t.timed j e);
  }

  expired-IsValid :
      (r : Receiver) (id : ℕ) → IsValid r → IsValid (record r { partials = remove id r.partials })
  expired-IsValid r id v = record {
    entries = λ j e there. ground (arith, lookup-remove id j r.partials, v.entries j e);
  }

  Step-IsSafe : {s t : Loop C Addr} → Step C Addr s t → IsSafe C Addr s → IsSafe C Addr t
  unfolding on_expiry
  Step-IsSafe {s} (absorbed buffer size none_sent) h = on_packet-IsSafe s buffer size h
  Step-IsSafe {s} (forwarded buffer size src m sends) h =
      let k = on_packet-IsSafe s buffer size h in
      record { valid = k.valid; timed = k.timed; bounded = k.bounded }
  Step-IsSafe recv_failed h = h
  Step-IsSafe {s} (woken before after id r split room e) h = record {
    valid = rw e (record { entries = h.valid.entries });
    timed = woken-Timed s.receiver r s.expiry before after id split e h.timed;
    bounded = omega (arith, length-append s.expiry (id ∷ []));
  }
  Step-IsSafe {s} (expired id rest e) h = record {
    valid = expired-IsValid s.receiver id h.valid;
    timed = expired-Timed s.receiver id rest (rw e at h.timed);
    bounded = omega (arith, ap (λ (q : List ℕ). length q) e, h.bounded);
  }

  start-IsSafe : IsSafe C Addr (start C Addr)
  start-IsSafe = record {
    valid = record { entries = λ id e there. unfold lookup in cc there };
    timed = record { timed = λ id e there. unfold lookup in cc there };
    bounded = omega arith;
  }

  -- In every reachable state of the receive loop each incomplete message lacks a piece and has room
  -- for two, and will be expired, and the expiry channel holds at most ten ids.
  pub Reach-IsSafe : {s : Loop C Addr} → Reach C Addr s → IsSafe C Addr s
  Reach-IsSafe here = start-IsSafe
  Reach-IsSafe (next r st) = Step-IsSafe st (Reach-IsSafe r)

  -- In a reachable state every packet is handled to the end: no panic, the loop's fuel is enough, and
  -- the receiver is valid again.
  pub Reach-Returns :
      {s : Loop C Addr} (buffer : Bytes) (size : ℕ)
      → Reach C Addr s
      → Returns C (outcome C Addr s.receiver buffer size)
  Reach-Returns {s} buffer size r =
      parse_packet-Returns C _ s.receiver (datagram C Addr buffer size) (Reach-IsSafe r).valid
        (omega arith)
