-- ===== src/Tests/SearchPage.antt =====
-- The search page for a failed search, and for one that Quickwit answers with a hit.
use yaffle.Base.{
  ◌≡◌, ◌≢◌, refl, List, [], ◌∷◌, ◌++◌, Option, none, some, Bytes, ok, err, map, All, codes,
}
use mathlib.Core.List.Permᴰ
use yaffle.App.{SearchOptions, params_signal, search_options}
use yaffle.App.Columns.{default}
use yaffle.App.Page.{checkboxes, header_cells}
use yaffle.App.Page.Aligned.{hit_rows}
use yaffle.App.SearchPage.{Leptos, errors, found, search_content, search_page, search_res}
use yaffle.App.SearchPage.Outcome.{content-err, search_page-hits}
use yaffle.Server.Search.{display, table, key_set}
use yaffle.Server.Search.Service.{SearchTable, search, build_search_uri, decode_body}
use yaffle.Tests.Service as Service

-- an error boundary that lists every error
abbrev each_error : List (Option Bytes) → List Bytes
each_error [] = []
each_error (none ∷ l) = each_error l
each_error (some e ∷ l) = e ∷ each_error l

each_only :
    (P : Bytes → Type 0) (l : List (Option Bytes))
    → All (λ o. (e : Bytes) → o ≡ some e → P e) l
    → All P (each_error l)
each_only P [] h = tt
each_only P (none ∷ l) (_, h) = each_only P l h
each_only P (some e ∷ l) (here, h) = (here e refl, each_only P l h)

each_empty : (l : List (Option Bytes)) → each_error l ≡ [] → All (λ o. o ≡ none) l
each_empty [] h = tt
each_empty (none ∷ l) h = (refl, each_empty l h)
each_empty (some e ∷ l) h = cc h

abbrev leptos : Leptos
leptos = record {
  collect = each_error;
  show_error = λ e. codes "error: " ++ e;
  collect_only = each_only;
  collect_empty = each_empty;
}

content-err_example :
    (alerts : List Bytes) × (search_content leptos default.cols_enabled (some (err (codes "no")))
      ≡ errors alerts)
    × (alerts ≢ [])
    × All (λ text. text ≡ codes "error: no") alerts
content-err_example = content-err leptos default.cols_enabled (codes "no")

abbrev table_of : SearchTable
table_of = table (λ l. l) (map (display (λ s n. none) (λ c. [])) (Service.found ∷ []))

abbrev asked : SearchOptions
asked = search_options 1700000000 5 (codes "*")

search_answers :
    search Service.requests (λ s n. none) (λ c. []) (λ l. l) (codes "http://q") (codes "logs") asked
    ≡ some (ok table_of)
unfolding search build_search_uri decode_body
search_answers = refl

search_page-hits_example :
    (search_page leptos default.cols_enabled none
      (some (search_res (some (λ sp. ok table_of)) 1700000000 none))).content
    ≡ found
        (checkboxes default.cols_enabled table_of.0)
        (header_cells default.cols_enabled table_of.0)
        (map
          (hit_rows (header_cells default.cols_enabled table_of.0))
          (map (display (λ s n. none) (λ c. [])) (Service.found ∷ [])))
unfolding params_signal build_search_uri
search_page-hits_example =
    search_page-hits leptos default.cols_enabled Service.requests (λ s n. none) (λ c. []) (λ l. l)
      (codes "http://q") (codes "logs") (λ sp. ok table_of) 1700000000 none (codes "http://q")
      (codes "[]") (Service.found ∷ []) search_answers refl refl refl
      (Permᴰ.refl (key_set (map (display (λ s n. none) (λ c. [])) (Service.found ∷ []))))
