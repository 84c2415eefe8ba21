-- ===== src/App/SearchPage.antt =====
-- The component `SearchPage` of app/src/lib.rs as a whole, and the page that `App` makes of it: the
-- form, and behind it the search's result, its errors, or what stands there while it is awaited.
pub mod Outcome
use yaffle.Base.{
  ℕ, Bool, List, [], ◌∷◌, Option, none, some, Bytes, Result, ok, err, map, map_ok, unwrap_or, codes,
  ◌≡◌, All,
}
use yaffle.Base.HashSet.{HashSet}
use yaffle.App.{SearchParams, params_signal, time_options}
use yaffle.App.Cookies.{extract_on_server}
use yaffle.App.Page.{View, checkboxes, page_table}
use yaffle.Server.Search.Service.{SearchTable, perform_search}
use yaffle.App.{SearchOptions}

-- What leptos's `ErrorBoundary` collects of the results that are rendered in it (their errors, if
-- they are ones): nothing but these errors, and nothing at all only if there is none. `show_error` is
-- the text of a `ServerFnError`.
pub record Leptos : Type 1 where
  pub collect : List (Option Bytes) → List Bytes
  pub show_error : Bytes → Bytes
  pub collect_only :
      (P : Bytes → Type 0) (l : List (Option Bytes))
      → All (λ o. (e : Bytes) → o ≡ some e → P e) l
      → All P (collect l)
  pub collect_empty : (l : List (Option Bytes)) → collect l ≡ [] → All (λ o. o ≡ none) l

abbrev pub Rows : Type 0
Rows = List (List (View (Option Bytes)) × List Bytes)

-- what stands under the form
pub data Content : Type 0 where
  loading : Content
  errors : (alerts : List Bytes) → Content
  found : (fields : List (Bytes × Bool)) (head : List (View Bytes)) (body : Rows) → Content

pub record Page : Type 0 where
  pub options : List (Bool × ℕ × Bytes)
  pub query_value : Bytes
  pub content : Content

-- `maybe_qstr.get().unwrap_or_default()`
abbrev pub or_default : Option SearchParams → SearchParams
or_default = unwrap_or (record { reltime = none; q = none })

abbrev failure : {A : Type 0} → Result Bytes A → Option Bytes
failure (err e) = some e
failure (ok a) = none

-- An error is rendered as nothing.
abbrev rendered : {A : Type 0} → Result Bytes (List A) → List A
rendered (err e) = []
rendered (ok l) = l

module _ (L : Leptos) where
  open L use {collect, show_error}

  abbrev pub boundary :
      List Bytes
      → Result Bytes (List (Bytes × Bool))
      → Result Bytes (List (View Bytes))
      → Result Bytes Rows
      → Content
  boundary [] fields head body = found (rendered fields) (rendered head) (rendered body)
  boundary (e ∷ es) fields head body = errors (map show_error (e ∷ es))

  -- the three places that read the result, under the boundary; `None` while it is awaited
  unfoldable pub search_content : HashSet → Option (Result Bytes SearchTable) → Content
  unfolding checkboxes page_table
  search_content enabled none = loading
  search_content enabled (some result) =
      let fields = map_ok (λ (t : SearchTable). checkboxes enabled t.0) result in
      let head = map_ok (λ t. (page_table enabled t).0) result in
      let body = map_ok (λ t. (page_table enabled t).1) result in
      boundary (collect (failure fields ∷ failure head ∷ failure body ∷ [])) fields head body

  unfoldable pub search_page :
      HashSet → Option SearchParams → Option (Result Bytes SearchTable) → Page
  unfolding time_options search_content
  search_page enabled maybe_qstr search_res = record {
    options = time_options (or_default maybe_qstr);
    query_value = unwrap_or [] (or_default maybe_qstr).q;
    content = search_content enabled search_res;
  }

-- what `search_res` becomes, for a search at the second `now`
unfoldable pub search_res :
    Option (SearchOptions → Result Bytes SearchTable)
    → ℕ
    → Option SearchParams
    → Result Bytes SearchTable
unfolding params_signal perform_search
search_res server_api now maybe_qstr =
    let (reltime, query) = params_signal (or_default maybe_qstr) in
    perform_search server_api now reltime query

-- `App` on the server, at the path of the page: the state comes from the request's cookies.
unfoldable pub app :
    Leptos
    → (Bytes → Option (Bytes × Bytes))
    → Option (List (Option Bytes))
    → Option SearchParams
    → Option (Result Bytes SearchTable)
    → Page
unfolding extract_on_server search_page
app L parse_encoded req_parts =
    search_page L (extract_on_server parse_encoded req_parts).cols_enabled
