-- ===== src/Server/Pipeline/Posted.antt =====
-- The pipeline and the ingest loop together.
use mathlib.Core.List.{map-append}
use yaffle.Base.{
  Option, Bool-cases, inl, inr, ◌≡◌, refl, sym, ap, ◌∙◌, List, [], ◌∷◌, ◌++◌, append_assoc, Bytes,
  some, Result, ok, err, map, concat,
}
use yaffle.Schema.Convert.{Conversions, ℤ}
use yaffle.Schema.Build.{Document, BuildError, is_valid}
use yaffle.Server.Ingest.{Incoming, decode, fill}
use yaffle.Server.Ingest.Batch.{documents, kept, line, fill-some}

module _ (C : Conversions) (Time Address : Type 0) (timestamp_nanos : Time → Option ℤ)
    (lookup_addr : Address → Bytes) (to_writer : Document → Bytes) where
  open C use {Error}

  abbrev pub In : Type 0
  In = Address × Incoming C Time Address timestamp_nanos

  abbrev pub docs : List In → List Document
  docs = documents C Time Address timestamp_nanos lookup_addr to_writer

  abbrev pub lines : List In → Bytes
  lines l = concat (map (line C Time Address timestamp_nanos lookup_addr to_writer) (docs l))

  abbrev body : List In → Option Bytes
  body = fill C Time Address timestamp_nanos lookup_addr to_writer []

  concat_of_append {ℓ} : {A : Type ℓ} (l k : List (List A)) → concat (l ++ k) ≡ concat l ++ concat k
  concat_of_append [] k = refl
  concat_of_append (x ∷ l) k =
      ap (◌++◌ x) (concat_of_append l k) ∙ sym (append_assoc x (concat l) (concat k))

  abbrev keep : Address → Result (BuildError Error) Document → List Document → List Document
  keep = kept C Time Address timestamp_nanos lookup_addr to_writer

  keep-append :
      (src : Address) (d : Result (BuildError Error) Document) (l k : List Document)
      → keep src d (l ++ k) ≡ keep src d l ++ k
  keep-append src (err e) l k = refl
  keep-append src (ok doc) l k = elim (Bool-cases (is_valid doc)) [
    | inl passes ↦ rw passes refl
    | inr fails ↦ rw fails refl
  ]

  docs-append : (l k : List In) → docs (l ++ k) ≡ docs l ++ docs k
  docs-append [] k = refl
  docs-append ((src, r) ∷ l) k =
      let d = decode C Time Address timestamp_nanos r in
      ap (keep src d) (docs-append l k) ∙ keep-append src d (docs l) (docs k)

  pub lines-append : (l k : List In) → lines (l ++ k) ≡ lines l ++ lines k
  lines-append l k =
      ap (λ d. concat (map (line C Time Address timestamp_nanos lookup_addr to_writer) d))
        (docs-append l k)
      ∙ ap concat
          (map-append (line C Time Address timestamp_nanos lookup_addr to_writer) (docs l) (docs k))
      ∙ concat_of_append (map (line C Time Address timestamp_nanos lookup_addr to_writer) (docs l))
          (map (line C Time Address timestamp_nanos lookup_addr to_writer) (docs k))

  -- the bodies for some batches are the lines of their messages
  pub concat-bodies :
      (bodies : List Bytes) (chunks : List (List In))
      → map some bodies ≡ map body chunks
      → concat bodies ≡ lines (concat chunks)
  concat-bodies [] [] h = refl
  concat-bodies [] (c ∷ chunks) h = cc h
  concat-bodies (b ∷ bodies) [] h = cc h
  concat-bodies (b ∷ bodies) (c ∷ chunks) h =
      let filled : body c ≡ some b = cc h in
      let rest : map some bodies ≡ map body chunks = cc h in
      ap (λ s. s ++ concat bodies)
        (fill-some C Time Address timestamp_nanos lookup_addr to_writer c b filled)
      ∙ ap (◌++◌ (lines c)) (concat-bodies bodies chunks rest)
      ∙ sym (lines-append c (concat chunks))
