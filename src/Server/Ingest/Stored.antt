-- ===== src/Server/Ingest/Stored.antt =====
-- The bodies that `ingest_loop` of main.rs posts, beside the field mappings of the index.
use yaffle.Base.{
  Option, ◌≡◌, refl, List, [], ◌∷◌, Bytes, Result, ok, err, All, Bool-cases, inl, inr, concat, map,
}
use yaffle.Schema.Convert.{Conversions, ℤ}
use yaffle.Schema.Build.{Document, BuildError, is_valid}
use yaffle.Schema.Types.{IsTyped}
use yaffle.Schema.Types.Generated.{IsTypedMessage}
use yaffle.Schema.Fits.{IsStored, from_gelf-IsStored, from_syslog-IsStored}
use yaffle.Schema.Fits.Hostname.{do_reverse_dns-IsStored}
use yaffle.Server.Ingest.{Incoming, gelf, syslog, decode, fill}
use yaffle.Server.Ingest.Batch.{kept, documents, line, if_survives, all_survive, fill-documents}

module _ (C : Conversions) (W : IsTyped C) (Time Address : Type 0)
    (timestamp_nanos : Time → Option ℤ) (lookup_addr : Address → Bytes)
    (to_writer : Document → Bytes) where
  -- The fields of a syslog message have their types.
  abbrev pub IsTypedIncoming : Incoming C Time Address timestamp_nanos → Type 0
  IsTypedIncoming (gelf msg) = Unit
  IsTypedIncoming (syslog msg) = IsTypedMessage timestamp_nanos msg

  decode-IsStored :
      (r : Incoming C Time Address timestamp_nanos) (doc : Document)
      → IsTypedIncoming r
      → decode C Time Address timestamp_nanos r ≡ ok doc
      → IsStored doc
  unfolding decode
  decode-IsStored (gelf msg) doc typed e = from_gelf-IsStored C W msg doc e
  decode-IsStored (syslog msg) doc typed e =
      from_syslog-IsStored C W Time timestamp_nanos msg doc typed e

  kept-IsStored :
      (src : Address) (d : Result (BuildError C.Error) Document) (docs : List Document)
      → ((doc : Document) → d ≡ ok doc → IsStored doc)
      → All IsStored docs
      → All IsStored (kept C Time Address timestamp_nanos lookup_addr to_writer src d docs)
  kept-IsStored src (err e) docs stored rest = rest
  kept-IsStored src (ok doc) docs stored rest = elim (Bool-cases (is_valid doc)) [
    | inr fails ↦ rw fails rest
    | inl passes ↦ rw passes (do_reverse_dns-IsStored (lookup_addr src) doc (stored doc refl), rest)
  ]

  documents-IsStored :
      (chunk : List (Address × Incoming C Time Address timestamp_nanos))
      → All (λ (m : Address × Incoming C Time Address timestamp_nanos). IsTypedIncoming m.1) chunk
      → All IsStored (documents C Time Address timestamp_nanos lookup_addr to_writer chunk)
  documents-IsStored [] typed = tt
  documents-IsStored ((src, r) ∷ chunk) (here, typed) =
      kept-IsStored src (decode C Time Address timestamp_nanos r) _
        (λ doc e. decode-IsStored r doc here e) (documents-IsStored chunk typed)

  -- The body that is posted for a batch, if no decoding panics, is the lines of documents which all fit the index that the
  -- server makes: each column with a storage type and a value has exactly one mapping, and that
  -- mapping stores values of its type. The called conversions return values of their types, and the
  -- syslog messages' fields have theirs.
  pub fill-IsStored :
      (chunk : List (Address × Incoming C Time Address timestamp_nanos))
      → All (λ (m : Address × Incoming C Time Address timestamp_nanos). IsTypedIncoming m.1) chunk
      → (docs : List Document) × (fill C Time Address timestamp_nanos lookup_addr to_writer [] chunk
          ≡ if_survives
              (all_survive C Time Address timestamp_nanos lookup_addr to_writer chunk)
              (concat (map (line C Time Address timestamp_nanos lookup_addr to_writer) docs)))
        × All IsStored docs
  fill-IsStored chunk typed = (
    documents C Time Address timestamp_nanos lookup_addr to_writer chunk,
    (fill-documents C Time Address timestamp_nanos lookup_addr to_writer chunk).0,
    documents-IsStored chunk typed,
  )
