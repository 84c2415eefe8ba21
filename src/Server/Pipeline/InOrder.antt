-- ===== src/Server/Pipeline/InOrder.antt =====
-- Messages between the receive loops and the batches: order and completeness.
use mathlib.Core.List.{map-append}
use yaffle.Base.{
  Option, ◌≡◌, refl, sym, ap, ◌∙◌, Bool, true, false, List, [], ◌∷◌, ◌++◌, append_assoc, append-nil,
  map, concat,
}
use yaffle.Gelf.Crates.{Crates}
use yaffle.Syslog.Nom.{Nom}
use yaffle.Syslog.Chrono.{Chrono}
use yaffle.Schema.Convert.{Conversions, Value, ℤ}
use yaffle.Server.Ingest.{Incoming, gelf, syslog}
use yaffle.Server.Pipeline.{
  Record, GelfSent, SyslogSent, Pipeline, Step, gelf_quiet, gelf_sends, syslog_sends, takes_gelf,
  takes_syslog, gives_full, gives_at_timeout, Reach, here, next, from_gelf_pipe, from_syslog_pipe,
}

concat-append {ℓ} :
    {A : Type ℓ} (xss : List (List A)) (xs : List A) → concat (xss ++ xs ∷ []) ≡ concat xss ++ xs
concat-append [] xs = append-nil xs
concat-append (ys ∷ xss) xs =
    ap (◌++◌ ys) (concat-append xss xs) ∙ sym (append_assoc ys (concat xss) xs)

-- a message goes into a channel
pushed :
    {A B : Type 0} (f : A → B) (front : List B) (pipe sent : List A) (m : A)
    → front ++ map f pipe ≡ map f sent
    → front ++ map f (pipe ++ m ∷ []) ≡ map f (sent ++ m ∷ [])
pushed f front pipe sent m h =
    ap (◌++◌ front) (map-append f pipe (m ∷ []))
    ∙ sym (append_assoc front (map f pipe) (f m ∷ []))
    ∙ ap (λ l. l ++ f m ∷ []) h
    ∙ sym (map-append f sent (m ∷ []))

-- an item goes into the chunk: what is kept of it stands behind what was taken before
moved :
    {A : Type 0} (kept : List A → List A)
    → ((l k : List A) → kept (l ++ k) ≡ kept l ++ kept k)
    → (batches chunk item rest : List A)
    → kept (batches ++ (chunk ++ item)) ++ rest ≡ kept (batches ++ chunk) ++ (kept item ++ rest)
moved kept kept-append batches chunk item rest =
    ap (λ l. kept l ++ rest) (sym (append_assoc batches chunk item))
    ∙ ap (λ l. l ++ rest) (kept-append (batches ++ chunk) item)
    ∙ append_assoc (kept (batches ++ chunk)) (kept item) rest

module _ (G : Crates) (N : Nom) (T : Chrono) (C : Conversions) (Addr : Type 0)
    (timestamp_nanos : T.Time → Option ℤ) (match_value : G.Value → Value C.Number C.Rest) where
  abbrev Rec : Type 0
  Rec = Record G N T C Addr timestamp_nanos match_value

  abbrev Pipe : Type 0
  Pipe = Pipeline G N T C Addr timestamp_nanos match_value

  -- the items of one of the two kinds
  abbrev keep : Bool → Rec → List Rec → List Rec
  keep true r l = r ∷ l
  keep false r l = l

  abbrev is_gelf : Incoming C T.Time Addr timestamp_nanos → Bool
  is_gelf (gelf m) = true
  is_gelf (syslog m) = false

  abbrev is_syslog : Incoming C T.Time Addr timestamp_nanos → Bool
  is_syslog (gelf m) = false
  is_syslog (syslog m) = true

  abbrev pub of_gelf : List Rec → List Rec
  of_gelf [] = []
  of_gelf ((src, m) ∷ l) = keep (is_gelf m) (src, m) (of_gelf l)

  abbrev pub of_syslog : List Rec → List Rec
  of_syslog [] = []
  of_syslog ((src, m) ∷ l) = keep (is_syslog m) (src, m) (of_syslog l)

  of_gelf-append : (l k : List Rec) → of_gelf (l ++ k) ≡ of_gelf l ++ of_gelf k
  of_gelf-append [] k = refl
  of_gelf-append ((src, gelf m) ∷ l) k = ap (◌∷◌ (src, gelf m)) (of_gelf-append l k)
  of_gelf-append ((src, syslog m) ∷ l) k = of_gelf-append l k

  of_syslog-append : (l k : List Rec) → of_syslog (l ++ k) ≡ of_syslog l ++ of_syslog k
  of_syslog-append [] k = refl
  of_syslog-append ((src, gelf m) ∷ l) k = of_syslog-append l k
  of_syslog-append ((src, syslog m) ∷ l) k = ap (◌∷◌ (src, syslog m)) (of_syslog-append l k)

  abbrev gelf_item : GelfSent G N T C Addr timestamp_nanos match_value → Rec
  gelf_item = from_gelf_pipe G N T C Addr timestamp_nanos match_value

  abbrev syslog_item : SyslogSent G N T C Addr timestamp_nanos match_value → Rec
  syslog_item = from_syslog_pipe G N T C Addr timestamp_nanos match_value

  -- what has left the channels
  abbrev pub taken : Pipe → List Rec
  taken s = concat s.batches ++ s.chunk

  pub record IsInOrder (s : Pipe) : Type 0 where
    pub gelf_order : of_gelf (taken s) ++ map gelf_item s.gelf_pipe ≡ map gelf_item s.gelf_loop.sent
    pub syslog_order :
        of_syslog (taken s) ++ map syslog_item s.syslog_pipe ≡ map syslog_item s.syslog_sent

  given :
      (s : Pipe) → taken (record s { chunk = []; batches = s.batches ++ s.chunk ∷ [] }) ≡ taken s
  given s = append-nil (concat (s.batches ++ s.chunk ∷ [])) ∙ concat-append s.batches s.chunk

  given-IsInOrder :
      (s : Pipe)
      → IsInOrder s
      → IsInOrder (record s { chunk = []; batches = s.batches ++ s.chunk ∷ [] })
  given-IsInOrder s h = record {
    gelf_order = ap (λ l. of_gelf l ++ map gelf_item s.gelf_pipe) (given s) ∙ h.gelf_order;
    syslog_order =
        ap (λ l. of_syslog l ++ map syslog_item s.syslog_pipe) (given s) ∙ h.syslog_order;
  }

  Step-IsInOrder :
      {s t : Pipe} → Step G N T C Addr timestamp_nanos match_value s t → IsInOrder s → IsInOrder t
  unfolding from_gelf_pipe from_syslog_pipe
  Step-IsInOrder {s} (gelf_quiet st same) h = record {
    gelf_order = h.gelf_order ∙ ap (map gelf_item) (sym same);
    syslog_order = h.syslog_order;
  }
  Step-IsInOrder {s} (gelf_sends m st more room) h = record {
    gelf_order =
        pushed gelf_item (of_gelf (taken s)) s.gelf_pipe s.gelf_loop.sent m h.gelf_order
        ∙ ap (map gelf_item) (sym more);
    syslog_order = h.syslog_order;
  }
  Step-IsInOrder {s} (syslog_sends buffer size source now later rest m parsed room) h = record {
    gelf_order = h.gelf_order;
    syslog_order =
        pushed syslog_item (of_syslog (taken s)) s.syslog_pipe s.syslog_sent (source, m)
          h.syslog_order;
  }
  Step-IsInOrder {s} (takes_gelf m rest e room) h = record {
    gelf_order =
        moved of_gelf of_gelf-append (concat s.batches) s.chunk (gelf_item m ∷ [])
          (map gelf_item rest)
        ∙ ap (λ q. of_gelf (taken s) ++ map gelf_item q) (sym e)
        ∙ h.gelf_order;
    syslog_order =
        moved of_syslog of_syslog-append (concat s.batches) s.chunk (gelf_item m ∷ [])
          (map syslog_item s.syslog_pipe)
        ∙ h.syslog_order;
  }
  Step-IsInOrder {s} (takes_syslog m rest e room) h = record {
    gelf_order =
        moved of_gelf of_gelf-append (concat s.batches) s.chunk (syslog_item m ∷ [])
          (map gelf_item s.gelf_pipe)
        ∙ h.gelf_order;
    syslog_order =
        moved of_syslog of_syslog-append (concat s.batches) s.chunk (syslog_item m ∷ [])
          (map syslog_item rest)
        ∙ ap (λ q. of_syslog (taken s) ++ map syslog_item q) (sym e)
        ∙ h.syslog_order;
  }
  Step-IsInOrder {s} (gives_full full) h = given-IsInOrder s h
  Step-IsInOrder {s} (gives_at_timeout some_item) h = given-IsInOrder s h

  -- In every reachable state the GELF messages that have left their channel, in the order of the
  -- batches, followed by those that wait in it, are the messages that the GELF loop has sent, in the
  -- order in which it sent them; and so for syslog. None is lost, doubled or overtaken.
  pub Reach-IsInOrder : {s : Pipe} → Reach G N T C Addr timestamp_nanos match_value s → IsInOrder s
  Reach-IsInOrder here = record { gelf_order = refl; syslog_order = refl }
  Reach-IsInOrder (next r st) = Step-IsInOrder st (Reach-IsInOrder r)
