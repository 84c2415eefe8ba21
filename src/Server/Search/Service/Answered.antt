-- ===== src/Server/Search/Service/Answered.antt =====
-- When a search returns a table, and when it panics.
use yaffle.Base.{
  bind_ok, ℕ, ◌≡◌, ◌↔◌, refl, ap, ◌∙◌, List, Option, none, some, Bytes, Result, ok, err, map,
  option_map,
}
use yaffle.App.{SearchOptions}
use yaffle.Schema.Build.{Document}
use yaffle.Schema.Convert.{Cell, map_err}
use yaffle.Server.Search.{display, table}
use yaffle.Server.Search.Service.{
  Requests, SearchTable, build_search_uri, decode_body, decode_error, search,
}

map_err_ok : {D E A : Type 0} (f : D → E) (r : Result D A) (a : A) → map_err f r ≡ ok a → r ≡ ok a
map_err_ok f (err e) a h = cc h
map_err_ok f (ok b) a h = cc h

option_map-some :
    {A B : Type 0} (f : A → B) (o : Option A) (b : B)
    → option_map f o ≡ some b
    → (a : A) × (o ≡ some a) × (f a ≡ b)
option_map-some f none b h = cc h
option_map-some f (some a) b h = (a, refl, cc h)

module _ (Q : Requests) (show_time : ℕ → ℕ → Option Bytes) (debug : Cell → Bytes)
    (from_iter : List Bytes → List Bytes) (quickwit_url quickwit_index : Bytes)
    (sp : SearchOptions) where
  open Q use {Uri, get, hits, to_string}

  -- A search returns a table just when its URI can be built, the request is answered, the answer's
  -- body can be read, and it is a search result; and the table is that of its hits' texts.
  pub search-ok :
      (t : SearchTable)
      → (search Q show_time debug from_iter quickwit_url quickwit_index sp ≡ some (ok t)) ↔ (
          (uri : Uri) × (body : Bytes) × (docs : List Document) × (build_search_uri Q quickwit_url
              quickwit_index sp
            ≡ some (ok uri))
          × (get uri ≡ ok (ok body))
          × (hits body ≡ ok docs)
          × (table from_iter (map (display show_time debug) docs) ≡ t))
  unfolding search decode_body
  search-ok t = (onward, back)
    where
      onward :
          search Q show_time debug from_iter quickwit_url quickwit_index sp ≡ some (ok t)
          → (uri : Uri) × (body : Bytes) × (docs : List Document) × (build_search_uri Q quickwit_url
                quickwit_index sp
              ≡ some (ok uri))
            × (get uri ≡ ok (ok body))
            × (hits body ≡ ok docs)
            × (table from_iter (map (display show_time debug) docs) ≡ t)
      onward h =
          let (r, built, h1) =
            option_map-some _ (build_search_uri Q quickwit_url quickwit_index sp) (ok t) h in
          let (docs, h2, made) = bind_ok _ _ t h1 in
          let (body, h3, decoded) = bind_ok _ _ docs h2 in
          let (answer, h4, read) = bind_ok _ _ body h3 in
          let (uri, h5, got) = bind_ok (map_err to_string r) _ answer h4 in
          (
            uri,
            body,
            docs,
            built ∙ ap some (map_err_ok to_string r uri h5),
            map_err_ok to_string (get uri) answer got
                ∙ ap ok (map_err_ok to_string answer body read),
            map_err_ok (decode_error Q body) (hits body) docs decoded,
            cc made,
          )

      back :
          ((uri : Uri) × (body : Bytes) × (docs : List Document) × (build_search_uri Q quickwit_url
                quickwit_index sp
              ≡ some (ok uri))
            × (get uri ≡ ok (ok body))
            × (hits body ≡ ok docs)
            × (table from_iter (map (display show_time debug) docs) ≡ t))
          → search Q show_time debug from_iter quickwit_url quickwit_index sp ≡ some (ok t)
      back (uri, body, docs, built, got, hit, made) = rw (built, got, hit, made) refl
