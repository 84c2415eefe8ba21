-- ===== src/App/SearchPage/Outcome.antt =====
-- The content of `SearchPage` of app/src/lib.rs for each outcome of a search, and its form.
use yaffle.Base.{
  ℕ, ◌≡◌, ◌≢◌, refl, ap, ◌∙◌, Bool, List, [], ◌∷◌, Option, none, some, Bytes, Result, ok, err, map,
  All, unwrap_or, if◌then◌else◌,
}
use mathlib.Core.List.{Permᴰ}
use yaffle.Base.HashSet.{HashSet}
use yaffle.Schema.Build.{Document}
use yaffle.Schema.Convert.{Cell}
use yaffle.App.{SearchParams, SearchOptions, params_signal, search_options, reltimes}
use yaffle.App.Page.{View, checkboxes, header_cells, page_table}
use yaffle.App.Page.Aligned.{hit_rows, page_table-hits}
use yaffle.App.SearchPage.{
  Leptos, Rows, boundary, errors, found, or_default, search_content, search_page, search_res,
}
use yaffle.Server.Search.{display, key_set, table}
use yaffle.Server.Search.Service.{Requests, SearchTable, build_search_uri, search, perform_search}
use yaffle.Server.Search.Service.Answered.{search-ok}

-- the options of the form that are selected
abbrev pub selected : List (Bool × ℕ × Bytes) → List (ℕ × Bytes)
selected [] = []
selected ((b, r, label) ∷ os) = let rest = selected os in if b then (r, label) ∷ rest else rest

again :
    (r : ℕ) (q : Option Bytes)
    → params_signal (record { reltime = some r; q = some (unwrap_or [] q) })
      ≡ params_signal (record { reltime = some r; q = q })
unfolding params_signal
again r none = refl
again r (some q) = refl

module _ (L : Leptos) (enabled : HashSet) where
  open L use {collect, show_error, collect_only, collect_empty}

  -- a table is shown as it is
  pub content-ok :
      (t : SearchTable)
      → search_content L enabled (some (ok t))
        ≡ found (checkboxes enabled t.0) (page_table enabled t).0 (page_table enabled t).1
  unfolding search_content
  content-ok t = rw no_errors refl
    where
      empty_of : (l : List Bytes) → All (λ e. ⊥) l → l ≡ []
      empty_of [] h = refl
      empty_of (e ∷ es) h = absurd h.0

      no_errors : collect (none ∷ none ∷ none ∷ []) ≡ []
      no_errors = empty_of _ (
          collect_only (λ e. ⊥) (none ∷ none ∷ none ∷ [])
            ((λ e h. cc h), ((λ e h. cc h), ((λ e h. cc h), tt))))

  -- For a search that has failed the page shows one alert or more, each with the search's error, and
  -- no table.
  pub content-err :
      (e : Bytes)
      → (alerts : List Bytes) × (search_content L enabled (some (err e)) ≡ errors alerts)
        × (alerts ≢ [])
        × All (λ text. text ≡ show_error e) alerts
  unfolding search_content
  content-err e =
      alerts_of (collect (some e ∷ some e ∷ some e ∷ [])) (λ h. cc (collect_empty _ h).0)
        (collect_only (λ x. x ≡ e) _ ((λ x h. cc h), ((λ x h. cc h), ((λ x h. cc h), tt))))
    where
      shown :
          (es : List Bytes)
          → All (λ x. x ≡ e) es
          → All (λ text. text ≡ show_error e) (map show_error es)
      shown [] h = tt
      shown (x ∷ es) (here, h) = (ap show_error here, shown es h)

      alerts_of :
          (es : List Bytes)
          → es ≢ []
          → All (λ x. x ≡ e) es
          → (alerts : List Bytes) × (boundary L es (err e) (err e) (err e) ≡ errors alerts)
            × (alerts ≢ [])
            × All (λ text. text ≡ show_error e) alerts
      alerts_of [] some_ all_e = absurd (some_ refl)
      alerts_of (x ∷ es) some_ all_e =
          (map show_error (x ∷ es), refl, (λ h. cc h), shown (x ∷ es) all_e)

  -- Where the search of a server that the page has is that of `search`, and Quickwit answers it with
  -- the hits `docs`, the page shows the checkboxes of the hits' columns, a header and two rows for
  -- each hit, in the order in which Quickwit has sent them; the names are listed in any order.
  pub search_page-hits :
      (Q : Requests) (show_time : ℕ → ℕ → Option Bytes) (debug : Cell → Bytes)
      (from_iter : List Bytes → List Bytes) (quickwit_url quickwit_index : Bytes)
      (server_search : SearchOptions → Result Bytes SearchTable) (now : ℕ)
      (maybe_qstr : Option SearchParams) (uri : Q.Uri) (body : Bytes) (docs : List Document)
      → let (reltime, query) = params_signal (or_default maybe_qstr) in
        let options = search_options now reltime query in
        let maps = map (display show_time debug) docs in
        let keys = (table from_iter maps).0 in
        (search Q show_time debug from_iter quickwit_url quickwit_index options
          ≡ some (server_search options))
        → build_search_uri Q quickwit_url quickwit_index options ≡ some (ok uri)
        → Q.get uri ≡ ok (ok body)
        → Q.hits body ≡ ok docs
        → Permᴰ (from_iter (key_set maps)) (key_set maps)
        → (search_page L enabled maybe_qstr
            (some (search_res (some server_search) now maybe_qstr))).content
          ≡ found
              (checkboxes enabled keys)
              (header_cells enabled keys)
              (map (hit_rows (header_cells enabled keys)) maps)
  unfolding search_res perform_search search_page
  search_page-hits Q show_time debug from_iter quickwit_url quickwit_index server_search now
        maybe_qstr uri body docs agrees built got hit listed =
      let p = params_signal (or_default maybe_qstr) in
      let options = search_options now p.0 p.1 in
      let maps = map (display show_time debug) docs in
      let keys = (table from_iter maps).0 in
      let result =
        (search-ok Q show_time debug from_iter quickwit_url quickwit_index options
            (table from_iter maps)).1
          (uri, body, docs, built, got, hit, refl) in
      let same : server_search options ≡ ok (table from_iter maps) = cc (agrees, result) in
      ap (λ r. search_content L enabled (some r)) same
      ∙ content-ok (table from_iter maps)
      ∙ ap (λ (t : List (View Bytes) × Rows). found (checkboxes enabled keys) t.0 t.1)
          (page_table-hits enabled from_iter maps listed)

  -- For each of the times that the page offers, a page that was asked for this time has this option
  -- selected and no other, and sending its form as it stands repeats the search.
  pub search_page-repeats :
      (res : Option (Result Bytes SearchTable))
      → All
          (λ (t : ℕ × Bytes).
            (q : Option Bytes)
            → let asked : SearchParams = record { reltime = some t.0; q = q } in
              let page = search_page L enabled (some asked) res in
              (selected page.options ≡ t ∷ [])
              × (params_signal (record { reltime = some t.0; q = some page.query_value })
                  ≡ params_signal asked))
          reltimes
  unfolding search_page params_signal
  search_page-repeats res = (
    (λ q. (refl, again _ q)),
    (
      (λ q. (refl, again _ q)),
      (
        (λ q. (refl, again _ q)),
        (
          (λ q. (refl, again _ q)),
          (
            (λ q. (refl, again _ q)),
            (
              (λ q. (refl, again _ q)),
              (
                (λ q. (refl, again _ q)),
                (
                  (λ q. (refl, again _ q)),
                  (
                    (λ q. (refl, again _ q)),
                    (
                      (λ q. (refl, again _ q)),
                      (
                        (λ q. (refl, again _ q)),
                        (
                          (λ q. (refl, again _ q)),
                          ((λ q. (refl, again _ q)), ((λ q. (refl, again _ q)), tt)),
                        ),
                      ),
                    ),
                  ),
                ),
              ),
            ),
          ),
        ),
      ),
    ),
  )
