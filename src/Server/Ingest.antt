-- ===== src/Server/Ingest.antt =====
-- `ingest_loop`: a batch of messages becomes the body of one request.
pub mod Batch
pub mod Ends
pub mod Stored
use yaffle.Base.{
  join, ℕ, suc, ◌≡◌, Bool, true, false, List, [], ◌∷◌, ◌++◌, Option, none, some, Bytes, Result, ok,
  err, if◌then◌else◌, codes, concat, map, and_then,
}
use yaffle.Gelf.Crates.{GelfMessage}
use yaffle.Syslog.Parsers.{SyslogMessage}
use yaffle.Schema.Convert.{Conversions, Value, ℤ}
use yaffle.Schema.Build.{
  Document, BuildError, failed, panicked, ill_typed, is_valid, do_reverse_dns,
}
use yaffle.Schema.{from_gelf, from_syslog}
use yaffle.Server.Index.{is_success, Response}

-- whether the loop goes on behind an answer; only an error's body is read
abbrev pub read_body : {E : Type 0} → Result E Bytes → Result E Unit
read_body (ok b) = ok tt
read_body (err e) = err e

unfoldable pub answered : {E : Type 0} → Result E (Response E) → Result E Unit
answered (err e) = ok tt
answered (ok r) = if is_success r.status then ok tt else read_body r.body

abbrev pub ingest_uri : Bytes → Bytes → Bytes
ingest_uri url index = join b'/' (url ∷ codes "api/v1" ∷ index ∷ codes "ingest" ∷ [])

-- How the loop ends before the channels close: by an error of `?`, or by a panic.
pub data Stop (E : Type 0) : Type 0 where
  error : E → Stop E
  panic : Stop E

module _ (C : Conversions) (Time Address : Type 0) (timestamp_nanos : Time → Option ℤ) where
  open C use {Number, Rest, Error}

  -- `enum Incoming`
  pub data Incoming : Type 0 where
    gelf : GelfMessage (Value Number Rest) → Incoming
    syslog : SyslogMessage Time → Incoming

  unfoldable pub decode : Incoming → Result (BuildError Error) Document
  decode (gelf msg) = from_gelf C msg
  decode (syslog msg) = from_syslog C Time timestamp_nanos msg

  module _ (lookup_addr : Address → Bytes) (to_writer : Document → Bytes) where
    -- the body of the loop over a batch, on the buffer; `continue` leaves it as it is, and a panic
    -- of the decoding gives none
    abbrev written : Bytes → Address → Result (BuildError Error) Document → Option Bytes
    written buffer src (err (failed e)) = some buffer
    written buffer src (err ill_typed) = some buffer
    written buffer src (err panicked) = none
    written buffer src (ok doc) =
        if is_valid doc
        then some ((buffer ++ to_writer (do_reverse_dns (lookup_addr src) doc)) ++ (b'\n' ∷ []))
        else some buffer

    unfoldable pub fill : Bytes → List (Address × Incoming) → Option Bytes
    unfolding decode
    fill buffer [] = some buffer
    fill buffer ((src, record_) ∷ chunk) =
        and_then (written buffer src (decode record_)) (λ more. fill more chunk)

    -- `poisoned n` is whether the lock of the settings is poisoned when the loop takes it for batch
    -- `n`, and `send n` what the request for it gives: no answer, or an answer whose body can be read
    -- or not.
    module _ (E : Type 0) (parse_uri : Bytes → Result E Bytes) (poisoned : ℕ → Bool)
        (send : ℕ → Bytes → Bytes → Result E (Response E)) where
      abbrev Run : Type 0
      Run = List (Bytes × Bytes) × Result (Stop E) Unit

      abbrev cons_fst : Bytes × Bytes → Run → Run
      cons_fst p (l, r) = (p ∷ l, r)

      abbrev go_on : Result E Unit → Run → Run
      go_on (ok tt) next = next
      go_on (err e) next = ([], err (error e))

      abbrev submit : ℕ → Result E Bytes → Bytes → Run → Run
      submit n (err e) body next = ([], err (error e))
      submit n (ok uri) body next = cons_fst (uri, body) (go_on (answered (send n uri body)) next)

      -- with the buffer, and whether the lock is poisoned: its `unwrap` panics then
      abbrev lock : ℕ → Bytes → Bytes → Bool → Option Bytes → Run → Run
      lock n url index locked none next = ([], err panic)
      lock n url index true (some body) next = ([], err panic)
      lock n url index false (some body) next =
          submit n (parse_uri (ingest_uri url index)) body next

      -- the requests made for the batches from number `n` on, and what the loop returns when the
      -- channels are closed
      unfoldable pub ingest_loop : ℕ → Bytes → Bytes → List (List (Address × Incoming)) → Run
      unfolding fill answered
      ingest_loop n url index [] = ([], ok tt)
      ingest_loop n url index (chunk ∷ chunks) =
          lock n url index (poisoned n) (fill [] chunk) (ingest_loop (suc n) url index chunks)
