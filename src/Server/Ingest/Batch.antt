-- ===== src/Server/Ingest/Batch.antt =====
-- What a batch's request carries, and which requests the loop makes.
use yaffle.Base.{
  ◌≡◌, refl, sym, ap, ◌∙◌, Bool, true, false, ◌&&◌, and_then, none, Option, List, [], ◌∷◌, ◌++◌,
  some, Bytes, Result, ok, err, if◌then◌else◌, codes, concat, map, append_assoc, append-nil, All,
  Bool-cases, Option-cases, inl, inr, bytes_eq,
}
use yaffle.Base.HashMap.{lookup-insert}
use yaffle.Schema.Convert.{Conversions, ℤ, Cell, text}
use yaffle.Schema.Build.{
  Document, BuildError, failed, panicked, ill_typed, is_valid, do_reverse_dns, column,
}
use yaffle.Server.Ingest.{Incoming, decode, fill, written}

-- Reverse DNS keeps a valid document valid and leaves no document without a host name.
pub do_reverse_dns-valid :
    (source : Bytes) (doc : Document)
    → (is_valid (do_reverse_dns source doc) ≡ is_valid doc)
      × ((c : Cell) × (column (codes "hostname") (do_reverse_dns source doc) ≡ some c))
unfolding is_valid do_reverse_dns
do_reverse_dns-valid source doc = elim (Option-cases (column (codes "hostname") doc)) [
  | inl missing ↦ rw missing (
      rw (lookup-insert (codes "hostname") (codes "source_timestamp") (some (text source)) doc) (
        rw (lookup-insert (codes "hostname") (codes "message") (some (text source)) doc) (
          rw (lookup-insert (codes "hostname") (codes "hostname") (some (text source)) doc)
            (refl, (text source, refl)))))
  | inr (c, there) ↦ rw there (refl, (c, there))
]

abbrev pub if_survives : Bool → Bytes → Option Bytes
if_survives true s = some s
if_survives false s = none

module _ (C : Conversions) (Time Address : Type 0) (timestamp_nanos : Time → Option ℤ)
    (lookup_addr : Address → Bytes) (to_writer : Document → Bytes) where
  open C use {Error}

  -- the documents of a batch: those that decode and are valid, with a host name
  abbrev pub kept : Address → Result (BuildError Error) Document → List Document → List Document
  kept src (err e) docs = docs
  kept src (ok doc) docs =
      if is_valid doc then do_reverse_dns (lookup_addr src) doc ∷ docs else docs

  abbrev pub documents : List (Address × Incoming C Time Address timestamp_nanos) → List Document
  documents [] = []
  documents ((src, r) ∷ chunk) =
      kept src (decode C Time Address timestamp_nanos r) (documents chunk)

  abbrev pub line : Document → Bytes
  line doc = to_writer doc ++ (b'\n' ∷ [])

  -- whether a message was decoded, or refused, without a panic
  abbrev pub survives : Result (BuildError Error) Document → Bool
  survives (ok doc) = true
  survives (err (failed e)) = true
  survives (err ill_typed) = true
  survives (err panicked) = false

  -- whether the decoding of no message of the batch panics
  abbrev pub all_survive : List (Address × Incoming C Time Address timestamp_nanos) → Bool
  all_survive [] = true
  all_survive ((src, r) ∷ chunk) =
      survives (decode C Time Address timestamp_nanos r) && all_survive chunk

  abbrev lines_of : List Document → Bytes
  lines_of docs = concat (map line docs)

  write_line :
      (buffer : Bytes) (src : Address) (d : Result (BuildError Error) Document)
      (docs : List Document) (b : Bool) (more : Bytes → Option Bytes)
      → ((s : Bytes) → more s ≡ if_survives b (s ++ lines_of docs))
      → and_then (written C Time Address timestamp_nanos lookup_addr to_writer buffer src d) more
        ≡ if_survives (survives d && b) (buffer ++ lines_of (kept src d docs))
  write_line buffer src (err (failed e)) docs b more h = h buffer
  write_line buffer src (err ill_typed) docs b more h = h buffer
  write_line buffer src (err panicked) docs b more h = refl
  write_line buffer src (ok doc) docs b more h = elim (Bool-cases (is_valid doc)) [
    | inr fails ↦ rw fails (h buffer)
    | inl passes ↦ rw passes (
        h _
        ∙ ap (if_survives b) (
            ap (λ s. s ++ lines_of docs)
              (append_assoc buffer (to_writer (do_reverse_dns (lookup_addr src) doc)) (b'\n' ∷ []))
            ∙ append_assoc buffer (line (do_reverse_dns (lookup_addr src) doc)) (lines_of docs)))
  ]

  abbrev Good : Document → Type 0
  Good doc = (is_valid doc ≡ true) × ((c : Cell) × (column (codes "hostname") doc ≡ some c))

  kept-Good :
      (src : Address) (d : Result (BuildError Error) Document) (docs : List Document)
      → All Good docs
      → All Good (kept src d docs)
  kept-Good src (err e) docs h = h
  kept-Good src (ok doc) docs h = elim (Bool-cases (is_valid doc)) [
    | inr fails ↦ rw fails h
    | inl passes ↦
        let (same, named) = do_reverse_dns-valid (lookup_addr src) doc in
        rw passes ((same ∙ passes, named), h)
  ]

  fill_lem :
      (buffer : Bytes) (chunk : List (Address × Incoming C Time Address timestamp_nanos))
      → fill C Time Address timestamp_nanos lookup_addr to_writer buffer chunk
        ≡ if_survives (all_survive chunk) (buffer ++ lines_of (documents chunk))
  unfolding fill
  fill_lem buffer [] = ap some (sym (append-nil buffer))
  fill_lem buffer ((src, r) ∷ chunk) =
      write_line buffer src (decode C Time Address timestamp_nanos r) (documents chunk)
        (all_survive chunk)
        (λ more. fill C Time Address timestamp_nanos lookup_addr to_writer more chunk)
        (λ more. fill_lem more chunk)

  -- what was filled, and what was not
  pub fill-some :
      (chunk : List (Address × Incoming C Time Address timestamp_nanos)) (body : Bytes)
      → fill C Time Address timestamp_nanos lookup_addr to_writer [] chunk ≡ some body
      → body ≡ lines_of (documents chunk)
  fill-some chunk body e = elim (Bool-cases (all_survive chunk)) [
    | inl good ↦
        cc (e, fill_lem [] chunk, ap (λ b. if_survives b (lines_of (documents chunk))) good)
    | inr bad ↦ cc (e, fill_lem [] chunk, ap (λ b. if_survives b (lines_of (documents chunk))) bad)
  ]

  pub fill-none :
      (chunk : List (Address × Incoming C Time Address timestamp_nanos))
      → fill C Time Address timestamp_nanos lookup_addr to_writer [] chunk ≡ none
      → all_survive chunk ≡ false
  fill-none chunk e = elim (Bool-cases (all_survive chunk)) [
    | inl good ↦
        cc (e, fill_lem [] chunk, ap (λ b. if_survives b (lines_of (documents chunk))) good)
    | inr bad ↦ bad
  ]

  documents-Good :
      (chunk : List (Address × Incoming C Time Address timestamp_nanos))
      → All
          (λ doc. (is_valid doc ≡ true) × ((c : Cell) × (column (codes "hostname") doc ≡ some c)))
          (documents chunk)
  documents-Good [] = tt
  documents-Good ((src, r) ∷ chunk) = kept-Good src _ (documents chunk) (documents-Good chunk)

  -- A request's body is one line for each message of the batch that decodes to a valid document, in
  -- order, and there is none exactly if the decoding of a message panics; each of these documents is
  -- valid and has a host name.
  pub fill-documents :
      (chunk : List (Address × Incoming C Time Address timestamp_nanos))
      → (fill C Time Address timestamp_nanos lookup_addr to_writer [] chunk
          ≡ if_survives (all_survive chunk) (concat (map line (documents chunk))))
        × All
            (λ doc. (is_valid doc ≡ true) × ((c : Cell) × (column (codes "hostname") doc ≡ some c)))
            (documents chunk)
  fill-documents chunk = (fill_lem [] chunk, documents-Good chunk)
