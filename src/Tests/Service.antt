-- ===== src/Tests/Service.antt =====
-- The server's set-up, its search and a field mapping at concrete inputs.
use yaffle.Base.{
  ℕ, ◌≡◌, ◌↔◌, refl, List, [], ◌∷◌, none, some, Bytes, ok, map, codes, bytes_eq, nat_eq,
  if◌then◌else◌,
}
use yaffle.Schema.Build.{Document}
use yaffle.Schema.Convert.{Cell}
use yaffle.Macros.Attributes.{string}
use yaffle.Macros.Mapping.{FieldMapping, quickwit_field}
use yaffle.Macros.Mapping.Json.{Entry, serialize}
use yaffle.Macros.Mapping.Json.Restored.{restore, restore-serialize}
use yaffle.App.{SearchOptions}
use yaffle.Server.Search.{display, table}
use yaffle.Server.Search.Service.{Requests, SearchTable, build_search_uri, decode_body, search}
use yaffle.Server.Search.Service.Answered.{search-ok}
use yaffle.Server.Setup.{Arg, Sockets, set_up}

-- a column of names
abbrev comm_mapping : FieldMapping
comm_mapping = quickwit_field (codes "comm", string)

comm_json :
    serialize comm_mapping
    ≡ (codes "name", Entry.text (codes "comm"))
      ∷ (codes "type", Entry.text (codes "text"))
      ∷ (codes "tokenizer", Entry.text (codes "raw"))
      ∷ []
unfolding serialize quickwit_field
comm_json = refl

restore-serialize_example : restore (serialize comm_mapping) ≡ comm_mapping
restore-serialize_example = restore-serialize comm_mapping

-- a passed socket for GELF, and the others opened
abbrev sockets : Sockets
sockets = record {
  Std = ℕ;
  Udp = Bytes;
  Tcp = Bytes;
  Error = ℕ;
  take_udp_socket = λ n. if nat_eq n 0 then some 3 else none;
  take_tcp_listener = λ n. none;
  set_nonblocking = λ s. ok tt;
  from_std = λ s. ok (codes "passed");
  bind_udp = ok;
  bind_tcp = ok;
}

-- the URL with a slash at its end, and the index by default
abbrev arguments : Arg → Bytes
arguments a = if nat_eq a.short b'q' then codes "http://q/" else a.default_value

taken_over :
    set_up sockets (codes ":80") arguments
    ≡ ok (record {
      settings = record { quickwit_url = codes "http://q"; quickwit_index = codes "yaffle_logs" };
      gelf_sock = codes "passed";
      syslog_sock = codes "[::]:10514";
      http_listener = codes ":80";
    })
unfolding set_up
taken_over = refl

abbrev pub found : Document
found = (codes "comm", some (Cell.text (codes "su"))) ∷ []

abbrev pub requests : Requests
requests = record {
  Url = Bytes;
  Uri = Bytes;
  Error = Bytes;
  parse_url = ok;
  with_segments = λ u l. some u;
  with_pairs = λ u l. u;
  to_uri = ok;
  get = λ u. ok (ok (codes "[]"));
  hits = λ body. ok (found ∷ []);
  message = λ body. none;
  to_string = λ e. e;
}

abbrev options : SearchOptions
options = record { query = codes "*"; start_timestamp = none; end_timestamp = none }

abbrev shown : SearchTable
shown = table (λ l. l) (map (display (λ s n. none) (λ c. [])) (found ∷ []))

search-ok_example :
    (search requests (λ s n. none) (λ c. []) (λ l. l) (codes "http://q") (codes "logs") options
      ≡ some (ok shown))
    ↔ ((uri : Bytes) × (body : Bytes) × (docs : List Document) × (build_search_uri requests
            (codes "http://q")
            (codes "logs")
            options
          ≡ some (ok uri))
        × (requests.get uri ≡ ok (ok body))
        × (requests.hits body ≡ ok docs)
        × (table (λ l. l) (map (display (λ s n. none) (λ c. [])) docs) ≡ shown))
search-ok_example =
    search-ok requests (λ s n. none) (λ c. []) (λ l. l) (codes "http://q") (codes "logs") options
      shown

-- the search does return that table
search_found :
    search requests (λ s n. none) (λ c. []) (λ l. l) (codes "http://q") (codes "logs") options
    ≡ some (ok shown)
unfolding search build_search_uri decode_body
search_found = refl
