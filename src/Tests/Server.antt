-- ===== src/Tests/Server.antt =====
-- The theorems on the index and the ingest loop at small servers.
use yaffle.Base.{
  ℕ, ◌≤◌, ◌≡◌, refl, true, ◌⊎◌, List, [], ◌∷◌, ◌++◌, none, some, Bytes, Result, ok, err, codes, All,
  length, map, concat, bytes_eq,
}
use yaffle.Schema.Convert.{Cell, pos}
use yaffle.Schema.Build.{is_valid, column}
use yaffle.Server.Index.{
  Client, Response, Request, get, post_json, get_or_create_index, describe_uri,
}
use yaffle.Server.Index.Made.{get_or_create_index-ok, FoundIndex, MadeIndex}
use yaffle.Server.Index.Wait.{connect_loop, connected, connect_loop-bounds}
use yaffle.Server.Ingest.{Incoming, syslog, fill}
use yaffle.Server.Ingest.Batch.{if_survives, all_survive, fill-documents, documents, line}
use yaffle.Tests.Schema.{naturals}

connect_loop-bounds_example :
    ((connect_loop {E = ℕ} 1 (map err (7 ∷ 8 ∷ []) ++ (ok tt ∷ []))).1 ≡ connected)
    × (length (connect_loop {E = ℕ} 1 (map err (7 ∷ 8 ∷ []) ++ (ok tt ∷ []))).0 ≡ 2)
    × All
        (λ w. (1 ≤ w) × (w ≤ 10))
        (connect_loop {E = ℕ} 1 (map err (7 ∷ 8 ∷ []) ++ (ok tt ∷ []))).0
connect_loop-bounds_example = connect_loop-bounds (7 ∷ 8 ∷ []) []

-- Descriptions are not found, and creations succeed.
abbrev pub empty_store : Request → Result ℕ (Response ℕ)
empty_store (get u) = ok (record { status = 404; body = ok [] })
empty_store (post_json u j) = ok (record { status = 200; body = ok [] })

abbrev pub quickwit : Client
quickwit = record {
  Error = ℕ;
  parse_uri = ok;
  send = empty_store;
  to_string = λ r. ok (codes "{}");
  lossy = λ s. s;
}

abbrev requests : List Request
requests = (get_or_create_index quickwit (codes "q") (codes "i")).0

get_or_create_index-ok_example :
    (u : Bytes) × (r : Response ℕ) × (quickwit.parse_uri
        (describe_uri quickwit (codes "q") (codes "i"))
      ≡ ok u)
    × (empty_store (get u) ≡ ok r)
    × (FoundIndex quickwit u r requests ⊎ MadeIndex quickwit (codes "q") (codes "i") u r requests)
unfolding get_or_create_index
get_or_create_index-ok_example =
    get_or_create_index-ok quickwit (codes "q") (codes "i") requests refl

abbrev pub heard : Incoming naturals ℕ ℕ (λ t. some (pos t))
heard = syslog (record {
  priority = 3;
  facility = codes "mail";
  source_timestamp = 5000;
  hostname = none;
  identifier = none;
  pid = none;
  message = codes "hi";
  full_message = codes "<3>hi";
})

abbrev pub batch : List (ℕ × Incoming naturals ℕ ℕ (λ t. some (pos t)))
batch = (1, heard) ∷ (2, heard) ∷ []

fill-documents_example :
    (fill naturals ℕ ℕ (λ t. some (pos t)) (λ a. a ∷ []) (λ d. codes "{}") [] batch
      ≡ if_survives
          (all_survive naturals ℕ ℕ (λ t. some (pos t)) (λ a. a ∷ []) (λ d. codes "{}") batch)
          (concat (
            map
              (line naturals ℕ ℕ (λ t. some (pos t)) (λ a. a ∷ []) (λ d. codes "{}"))
              (documents naturals ℕ ℕ (λ t. some (pos t)) (λ a. a ∷ []) (λ d. codes "{}") batch))))
    × All
        (λ doc. (is_valid doc ≡ true) × ((c : Cell) × (column (codes "hostname") doc ≡ some c)))
        (documents naturals ℕ ℕ (λ t. some (pos t)) (λ a. a ∷ []) (λ d. codes "{}") batch)
fill-documents_example =
    fill-documents naturals ℕ ℕ (λ t. some (pos t)) (λ a. a ∷ []) (λ d. codes "{}") batch

-- Quickwit refuses every batch with status 500.
abbrev pub refuse : ℕ → Bytes → Bytes → Result ℕ (Response ℕ)
refuse n uri body = ok (record { status = 500; body = ok (codes "no") })
