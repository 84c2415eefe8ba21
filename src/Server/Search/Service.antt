-- ===== src/Server/Search/Service.antt =====
-- `ServerAPIImpl::search` and `perform_search`: the request to Quickwit, and what its answer becomes.
pub mod Answered
use yaffle.Base.{
  ℕ, List, [], ◌∷◌, ◌++◌, Option, none, some, Bytes, Result, ok, err, ◌>>=◌, map_ok, map,
  option_map, unwrap_or, codes, from_utf8_lossy,
}
use yaffle.Base.HashMap.{HashMap}
use yaffle.Schema.Build.{Document}
use yaffle.Schema.Convert.{Cell, map_err}
use yaffle.App.{SearchOptions, search_pairs, search_options}
use yaffle.Server.Search.{display, table}

-- columns and rows
abbrev pub SearchTable : Type 0
SearchTable = List Bytes × List (List (Option Bytes))

-- What the search calls of url, hyper and serde_json. `Error` has their errors, as `?` turns them
-- into a `YaffleError` where it does, and `to_string` their texts.
pub record Requests : Type 1 where
  pub Url : Type 0
  pub Uri : Type 0
  pub Error : Type 0
  pub parse_url : Bytes → Result Error Url
  -- `path_segments_mut`, if the URL can be a base, and `extend`
  pub with_segments : Url → List Bytes → Option Url
  -- `append_pair` of each
  pub with_pairs : Url → List (Bytes × Bytes) → Url
  pub to_uri : Url → Result Error Uri
  -- the response to a `GET`, as the body that is read of it
  pub get : Uri → Result Error (Result Error Bytes)
  -- `serde_json::from_slice` at `SearchResults` and at `SearchError`
  pub hits : Bytes → Result Error (List Document)
  pub message : Bytes → Option Bytes
  pub to_string : Error → Bytes

module _ (Q : Requests) where
  open Q use {
    Url, Uri, Error, parse_url, with_segments, with_pairs, to_uri, get, hits, message, to_string,
  }

  -- The URI of a search, from a lock that is in order; `none` is the panic of `unwrap` on the path
  -- segments, while the lock is held. A poisoned lock is a flag of Server.Run.
  unfoldable pub build_search_uri : Bytes → Bytes → SearchOptions → Option (Result Error Uri)
  unfolding search_pairs
  build_search_uri quickwit_url quickwit_index sp = at_base (parse_url quickwit_url)
    where
      at_base : Result Error Url → Option (Result Error Uri)
      at_base (err e) = some (err e)
      at_base (ok url) =
          option_map (λ u. to_uri (with_pairs u (search_pairs sp)))
            (with_segments url (codes "api" ∷ codes "v1" ∷ quickwit_index ∷ codes "search" ∷ []))

  -- the text of the error in a body that is no search result
  abbrev pub decode_error : Bytes → Error → Bytes
  decode_error body e =
      unwrap_or (codes "Error decoding " ++ (from_utf8_lossy body ++ (codes ": " ++ to_string e)))
        (message body)

  unfoldable pub decode_body : Bytes → Result Bytes (List Document)
  unfolding from_utf8_lossy
  decode_body body = map_err (decode_error body) (hits body)

  module _ (show_time : ℕ → ℕ → Option Bytes) (debug : Cell → Bytes)
      (from_iter : List Bytes → List Bytes) where
    -- `ServerAPIImpl::search`
    unfoldable pub search : Bytes → Bytes → SearchOptions → Option (Result Bytes SearchTable)
    unfolding build_search_uri decode_body display table
    search quickwit_url quickwit_index options =
        option_map
          (λ (uri : Result Error Uri).
            map_err to_string uri
            >>= (λ u. map_err to_string (get u))
            >>= (λ body. map_err to_string body)
            >>= decode_body
            >>= (λ docs. ok (table from_iter (map (display show_time debug) docs))))
          (build_search_uri quickwit_url quickwit_index options)

-- `perform_search` at the second `now`, with the search of the context's server, if it has one
unfoldable pub perform_search :
    Option (SearchOptions → Result Bytes SearchTable) → ℕ → ℕ → Bytes → Result Bytes SearchTable
unfolding search_options
perform_search none now reltime query = err (codes "Missing SharedServerAPI")
perform_search (some server_search) now reltime query =
    server_search (search_options now reltime query)
