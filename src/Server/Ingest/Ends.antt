-- ===== src/Server/Ingest/Ends.antt =====
-- The two ways in which `ingest_loop` of main.rs returns.
use yaffle.Base.{
  Option, ℕ, suc, ◌+◌, length, ◌≡◌, refl, sym, subst, ap, ◌∙◌, ◌⊎◌, inl, inr, Bool, true, false,
  Option, none, some, Option-cases, List, [], ◌∷◌, ◌++◌, Bytes, Result, ok, err, map, Result-cases,
  Bool-cases, arith,
}
use yaffle.Schema.Convert.{Conversions, ℤ}
use yaffle.Schema.Build.{Document}
use yaffle.Server.Index.{Response, is_success}
use yaffle.Server.Ingest.{Incoming, Stop, error, panic, fill, ingest_loop, ingest_uri, answered}

-- An answer ends the loop only by a body that cannot be read.
answered-err :
    {E : Type 0} (a : Result E (Response E)) (e : E)
    → answered a ≡ err e
    → (r : Response E) × (a ≡ ok r) × (is_success r.status ≡ false) × (r.body ≡ err e)
unfolding answered
answered-err (err x) e h = cc h
answered-err (ok r) e h = elim (Bool-cases (is_success r.status)) [
  | inl passes ↦ absurd (ground (arith, passes))
  | inr fails ↦ elim (Result-cases r.body) [
    | inl (x, bad) ↦ (r, refl, fails, ground (arith, fails, bad))
    | inr (b, good) ↦ absurd (ground (arith, fails, good))
  ]
]

module _ (C : Conversions) (Time Address : Type 0) (timestamp_nanos : Time → Option ℤ)
    (lookup_addr : Address → Bytes) (to_writer : Document → Bytes) (E : Type 0)
    (parse_uri : Bytes → Result E Bytes) (poisoned : ℕ → Bool)
    (send : ℕ → Bytes → Bytes → Result E (Response E)) (url index : Bytes) where
  abbrev Batch : Type 0
  Batch = List (Address × Incoming C Time Address timestamp_nanos)

  abbrev run : ℕ → List Batch → List (Bytes × Bytes) × Result (Stop E) Unit
  run n =
      ingest_loop C Time Address timestamp_nanos lookup_addr to_writer E parse_uri poisoned send n
        url index

  -- the same where nothing poisons the lock
  abbrev run_locked : ℕ → List Batch → List (Bytes × Bytes) × Result (Stop E) Unit
  run_locked n =
      ingest_loop C Time Address timestamp_nanos lookup_addr to_writer E parse_uri (λ n. false) send
        n url index

  abbrev body : Batch → Option Bytes
  body = fill C Time Address timestamp_nanos lookup_addr to_writer []

  -- A batch has passed the loop.
  record Passes (n : ℕ) (c : Batch) : Type 0 where
    uri : Bytes
    filled : Bytes
    is_filled : body c ≡ some filled
    unpoisoned : poisoned n ≡ false
    is_uri : parse_uri (ingest_uri url index) ≡ ok uri
    goes_on : answered (send n uri filled) ≡ ok tt

  -- Why the loop ends at a batch.
  data Stops (n : ℕ) (c : Batch) : Stop E → Type 0 where
    unfilled : body c ≡ none → Stops n c panic
    locked : (b : Bytes) → body c ≡ some b → poisoned n ≡ true → Stops n c panic
    no_uri :
        (b : Bytes) (e : E)
        → body c ≡ some b
        → poisoned n ≡ false
        → parse_uri (ingest_uri url index) ≡ err e
        → Stops n c (error e)
    unreadable :
        (b uri : Bytes) (e : E)
        → body c ≡ some b
        → poisoned n ≡ false
        → parse_uri (ingest_uri url index) ≡ ok uri
        → answered (send n uri b) ≡ err e
        → Stops n c (error e)

  batch_cases : (n : ℕ) (c : Batch) → Passes n c ⊎ ((x : Stop E) × Stops n c x)
  batch_cases n c = elim (Option-cases (body c)) [
    | inl nothing ↦ inr (panic, unfilled nothing)
    | inr (b, there) ↦ elim (Bool-cases (poisoned n)) [
      | inl bad ↦ inr (panic, locked b there bad)
      | inr free ↦ elim (Result-cases (parse_uri (ingest_uri url index))) [
        | inl (e, none_there) ↦ inr (error e, no_uri b e there free none_there)
        | inr (uri, good) ↦ elim (Result-cases (answered (send n uri b))) [
          | inl (e, stop) ↦ inr (error e, unreadable b uri e there free good stop)
          | inr (_, on) ↦ inl (record {
            uri = uri;
            filled = b;
            is_filled = there;
            unpoisoned = free;
            is_uri = good;
            goes_on = on;
          })
        ]
      ]
    ]
  ]

  run-Passes :
      (n : ℕ) (c : Batch) (chunks : List Batch) (h : Passes n c)
      → run n (c ∷ chunks) ≡ ((h.uri, h.filled) ∷ (run (suc n) chunks).0, (run (suc n) chunks).1)
  unfolding ingest_loop
  run-Passes n c chunks h = rw h.is_filled (rw h.unpoisoned (rw h.is_uri (rw h.goes_on refl)))

  run-Stops :
      (n : ℕ) (c : Batch) (chunks : List Batch) (x : Stop E)
      → Stops n c x
      → (run n (c ∷ chunks)).1 ≡ err x
  unfolding ingest_loop
  run-Stops n c chunks x (unfilled nothing) = rw nothing refl
  run-Stops n c chunks x (locked b there bad) = rw there (rw bad refl)
  run-Stops n c chunks x (no_uri b e there free none_there) =
      rw there (rw free (rw none_there refl))
  run-Stops n c chunks x (unreadable b uri e there free good stop) =
      rw there (rw free (rw good (rw stop refl)))

  -- While the loop goes on, it has posted every batch, in order, and found the lock in order.
  pub ingest_loop-ok :
      (n : ℕ) (chunks : List Batch)
      → (run n chunks).1 ≡ ok tt
      → (map some (map (λ (p : Bytes × Bytes). p.1) (run n chunks).0) ≡ map body chunks)
        × (run n chunks ≡ run_locked n chunks)
  unfolding ingest_loop
  ingest_loop-ok n [] h = (refl, refl)
  ingest_loop-ok n (c ∷ chunks) h = elim (batch_cases n c) [
    | inr (x, stops) ↦ absurd (cc (h, run-Stops n c chunks x stops))
    | inl passes ↦
        let on = run-Passes n c chunks passes in
        let (bodies, same) =
          ingest_loop-ok (suc n) chunks
            (sym (ap (λ (r : List (Bytes × Bytes) × Result (Stop E) Unit). r.1) on) ∙ h) in
        (
          ap
                (λ (r : List (Bytes × Bytes) × Result (Stop E) Unit).
                  map some (map (λ (p : Bytes × Bytes). p.1) r.0))
                on
              ∙ ap (◌∷◌ (some passes.filled)) bodies
              ∙ ap (λ o. o ∷ map body chunks) (sym passes.is_filled),
          on
              ∙ ap
                  (λ (r : List (Bytes × Bytes) × Result (Stop E) Unit).
                    ((passes.uri, passes.filled) ∷ r.0, r.1))
                  same
              ∙ sym (rw passes.is_filled (rw passes.is_uri (rw passes.goes_on refl))),
        )
  ]

  -- Why it ends: the URI is none, or an answer to a batch has an error status and no readable body;
  -- or it panics, at a poisoned lock or where a batch gives no body.
  abbrev pub Unreadable : ℕ → List Batch → E → Type 0
  Unreadable n chunks e =
      (uri b : Bytes) × (before : List Batch) × (c : Batch) × (after : List Batch) × (r : Response
        E)
      × (parse_uri (ingest_uri url index) ≡ ok uri)
      × (chunks ≡ before ++ (c ∷ after))
      × ((run n before).1 ≡ ok tt)
      × (body c ≡ some b)
      × (send (n + length before) uri b ≡ ok r)
      × (is_success r.status ≡ false)
      × (r.body ≡ err e)

  abbrev pub Panics : ℕ → List Batch → Type 0
  Panics n chunks =
      (before : List Batch) × (c : Batch) × (after : List Batch) × (chunks ≡ before ++ (c ∷ after))
      × ((poisoned (n + length before) ≡ true) ⊎ (body c ≡ none))

  abbrev pub Ends : ℕ → List Batch → Stop E → Type 0
  Ends n chunks (error e) = (parse_uri (ingest_uri url index) ≡ err e) ⊎ Unreadable n chunks e
  Ends n chunks panic = Panics n chunks

  Stops-Ends :
      (n : ℕ) (c : Batch) (chunks : List Batch) (x : Stop E) → Stops n c x → Ends n (c ∷ chunks) x
  unfolding ingest_loop
  Stops-Ends n c chunks x (unfilled nothing) = ([], c, chunks, refl, inr nothing)
  Stops-Ends n c chunks x (locked b there bad) =
      ([], c, chunks, refl, inl (ap poisoned (omega arith) ∙ bad))
  Stops-Ends n c chunks x (no_uri b e there free none_there) = inl none_there
  Stops-Ends n c chunks x (unreadable b uri e there free good stop) =
      let (r, answer, fails, bad) = answered-err (send n uri b) e stop in
      inr (
        uri,
        b,
        [],
        c,
        chunks,
        r,
        good,
        refl,
        refl,
        there,
        ap (λ k. send k uri b) (omega arith) ∙ answer,
        fails,
        bad,
      )

  Ends-later :
      (n : ℕ) (c : Batch) (chunks : List Batch) (x : Stop E)
      → Passes n c
      → Ends (suc n) chunks x
      → Ends n (c ∷ chunks) x
  Ends-later n c chunks (error e) h (inl bad) = inl bad
  Ends-later n c chunks (error e) h
        (inr (u, b, before, d, after, r, good, there, ran, is_b, answer, fails, bad)) =
      inr (
        u,
        b,
        c ∷ before,
        d,
        after,
        r,
        good,
        ap (◌∷◌ c) there,
        ap (λ (r : List (Bytes × Bytes) × Result (Stop E) Unit). r.1) (run-Passes n c before h)
            ∙ ran,
        is_b,
        ap (λ k. send k u b) (omega arith) ∙ answer,
        fails,
        bad,
      )
  Ends-later n c chunks panic h (before, d, after, there, inr nothing) =
      (c ∷ before, d, after, ap (◌∷◌ c) there, inr nothing)
  Ends-later n c chunks panic h (before, d, after, there, inl bad) =
      (c ∷ before, d, after, ap (◌∷◌ c) there, inl (ap poisoned (omega arith) ∙ bad))

  pub ingest_loop-err :
      (n : ℕ) (chunks : List Batch) (x : Stop E) → (run n chunks).1 ≡ err x → Ends n chunks x
  unfolding ingest_loop
  ingest_loop-err n [] x h = cc h
  ingest_loop-err n (c ∷ chunks) x h = elim (batch_cases n c) [
    | inr (y, stops) ↦
        let same : y ≡ x = cc (h, run-Stops n c chunks y stops) in
        subst (Ends n (c ∷ chunks)) same (Stops-Ends n c chunks y stops)
    | inl passes ↦ Ends-later n c chunks x passes (
        ingest_loop-err (suc n) chunks x (
          sym (
            ap (λ (r : List (Bytes × Bytes) × Result (Stop E) Unit). r.1)
              (run-Passes n c chunks passes))
          ∙ h))
  ]
