-- ===== src/Server/Run/Lines.antt =====
-- A single message on its way from a receive loop to the bodies that `run_server` of main.rs posts.
use yaffle.Base.{
  ◌≡◌, refl, sym, ap, ◌∙◌, ◌⊎◌, inl, inr, true, List, [], ◌∷◌, ◌++◌, Bytes, ok, map, concat,
}
use yaffle.Schema.Build.{Document, is_valid, do_reverse_dns}
use yaffle.Server.Ingest.{Incoming, gelf, syslog, decode}
use yaffle.Server.Ingest.Batch.{line}
use yaffle.Server.Pipeline.{Record, from_gelf_pipe, from_syslog_pipe}
use yaffle.Server.Pipeline.InOrder.{of_gelf, of_syslog}
use yaffle.Server.Pipeline.Posted.{lines, lines-append}
use yaffle.Server.Pipeline.Delivered.{IsDrained}
use yaffle.Server.Run.{World, Server, Reach, Pipe, ingesting, ingested}
use yaffle.Server.Run.Delivered.{Records, ArePosted, Reach-ArePosted}

abbrev pub Occurs : {A : Type 0} → A → List A → Type 0
Occurs {A} x l = (before : List A) × (after : List A) × (l ≡ before ++ (x ∷ after))

Occurs-∷ : {A : Type 0} (x y : A) (l : List A) → Occurs x l → Occurs x (y ∷ l)
Occurs-∷ x y l (before, after, e) = (y ∷ before, after, ap (◌∷◌ y) e)

-- What is kept of a list occurs in the list.
module _ {A : Type 0} (kept : List A → List A) (none_kept : kept [] ≡ [])
    (one : (y : A) (l : List A) → (kept (y ∷ l) ≡ y ∷ kept l) ⊎ (kept (y ∷ l) ≡ kept l)) where
  kept-Occurs : (x : A) (l : List A) → Occurs x (kept l) → Occurs x l
  kept-Occurs x [] ([], after, e) = cc (none_kept, e)
  kept-Occurs x [] (b ∷ before, after, e) = cc (none_kept, e)
  kept-Occurs x (y ∷ l) ([], after, e) = elim (one y l) [
    | inl same ↦ let h : y ∷ kept l ≡ x ∷ after = sym same ∙ e in ([], l, ap (λ z. z ∷ l) (cc h))
    | inr skip ↦ Occurs-∷ x y l (kept-Occurs x l ([], after, sym skip ∙ e))
  ]
  kept-Occurs x (y ∷ l) (b ∷ before, after, e) = elim (one y l) [
    | inl same ↦ Occurs-∷ x y l (kept-Occurs x l (before, after, cc (same, e)))
    | inr skip ↦ Occurs-∷ x y l (kept-Occurs x l (b ∷ before, after, sym skip ∙ e))
  ]

module _ (W : World) where
  open W use {
    gelf_crates, nom, chrono, conversions, Addr, timestamp_nanos, match_value, lookup_addr,
    to_writer,
  }

  abbrev pub Message : Type 0
  Message = Record gelf_crates nom chrono conversions Addr timestamp_nanos match_value

  abbrev pub line_of : Document → Bytes
  line_of = line conversions chrono.Time Addr timestamp_nanos lookup_addr to_writer

  abbrev lines_of : List Message → Bytes
  lines_of = lines conversions chrono.Time Addr timestamp_nanos lookup_addr to_writer

  gelf_one :
      (y : Message) (l : List Message)
      → (of_gelf gelf_crates nom chrono conversions Addr timestamp_nanos match_value (y ∷ l)
          ≡ y ∷ of_gelf gelf_crates nom chrono conversions Addr timestamp_nanos match_value l)
        ⊎ (of_gelf gelf_crates nom chrono conversions Addr timestamp_nanos match_value (y ∷ l)
            ≡ of_gelf gelf_crates nom chrono conversions Addr timestamp_nanos match_value l)
  gelf_one (src, gelf m) l = inl refl
  gelf_one (src, syslog m) l = inr refl

  syslog_one :
      (y : Message) (l : List Message)
      → (of_syslog gelf_crates nom chrono conversions Addr timestamp_nanos match_value (y ∷ l)
          ≡ y ∷ of_syslog gelf_crates nom chrono conversions Addr timestamp_nanos match_value l)
        ⊎ (of_syslog gelf_crates nom chrono conversions Addr timestamp_nanos match_value (y ∷ l)
            ≡ of_syslog gelf_crates nom chrono conversions Addr timestamp_nanos match_value l)
  syslog_one (src, gelf m) l = inr refl
  syslog_one (src, syslog m) l = inl refl

  -- One of the receive loops of `p` has sent the message.
  abbrev pub HasSent : Pipe W → Message → Type 0
  HasSent p r =
      Occurs r (
        map (from_gelf_pipe gelf_crates nom chrono conversions Addr timestamp_nanos match_value)
          p.gelf_loop.sent)
      ⊎ Occurs r (
          map (from_syslog_pipe gelf_crates nom chrono conversions Addr timestamp_nanos match_value)
            p.syslog_sent)

  sent-Occurs :
      (p : Pipe W) (records : Records W) (r : Message)
      → ArePosted W p records
      → HasSent p r
      → Occurs r records
  sent-Occurs p records r posted (inl (before, after, e)) =
      kept-Occurs _ refl gelf_one r records (before, after, posted.gelf_order ∙ e)
  sent-Occurs p records r posted (inr (before, after, e)) =
      kept-Occurs _ refl syslog_one r records (before, after, posted.syslog_order ∙ e)

  lines-∷ :
      (src : Addr) (m : Incoming conversions chrono.Time Addr timestamp_nanos) (l : List Message)
      (doc : Document)
      → decode conversions chrono.Time Addr timestamp_nanos m ≡ ok doc
      → is_valid doc ≡ true
      → lines_of ((src, m) ∷ l) ≡ line_of (do_reverse_dns (lookup_addr src) doc) ++ lines_of l
  lines-∷ src m l doc decoded valid = rw decoded (rw valid refl)

  -- Whenever the server ingests and nothing waits in the channels or for a batch, every message that a
  -- receive loop has sent and that decodes to a valid document has the line of that document, with
  -- its host name by reverse DNS if it had none, in what was posted.
  pub Reach-line :
      {s : Server W} (p : Pipe W) (src : Addr)
      (m : Incoming conversions chrono.Time Addr timestamp_nanos) (doc : Document)
      → Reach W s
      → s.phase ≡ ingesting p
      → IsDrained gelf_crates nom chrono conversions Addr timestamp_nanos match_value p
      → HasSent p (src, m)
      → decode conversions chrono.Time Addr timestamp_nanos m ≡ ok doc
      → is_valid doc ≡ true
      → (before : Bytes) × (after : Bytes) × (concat
            (map (λ (q : Bytes × Bytes). q.1) (ingested W p).0)
          ≡ before ++ (line_of (do_reverse_dns (lookup_addr src) doc) ++ after))
  Reach-line p src m doc reached now drained sent decoded valid =
      let (records, posted) = Reach-ArePosted W p reached now drained in
      let (before, after, e) = sent-Occurs p records (src, m) posted sent in
      (
        lines_of before,
        lines_of after,
        posted.posted
            ∙ ap lines_of e
            ∙ lines-append conversions chrono.Time Addr timestamp_nanos lookup_addr to_writer before
                ((src, m) ∷ after)
            ∙ ap (◌++◌ (lines_of before)) (lines-∷ src m after doc decoded valid),
      )
