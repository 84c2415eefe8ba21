-- ===== src/Tests/App.antt =====
-- The theorems on the web application at concrete pages, cookies and hits.
use yaffle.Base.{
  ℕ, ◌≡◌, ◌≢◌, ◌↔◌, ◌⊎◌, refl, Bool, true, false, List, [], ◌∷◌, ◌++◌, Option, none, some, Bytes,
  codes, join, arith, text_eq, bytes_eq, nat_eq, if◌then◌else◌, all,
}
use yaffle.Base.HashMap.{HashMap}
use yaffle.Base.HashSet.{from_iter, contains}
use yaffle.App.Columns.{default, on_inputs, on_inputs-contains}
use yaffle.App.Cookies.{ReadsPlain, is_word, is_plain, extract_in_browser, extract_on_server}
use yaffle.App.Cookies.Kept.{kept, extract-cookie_text}
use yaffle.App.Page.{visible, hidden, page_table}
use yaffle.App.ErrorTemplate.{
  AppError, not_found, error_template, given, app_errors, error_template-none,
}
use yaffle.Server.Search.{table}

abbrev clicks : List (Bytes × Bool)
clicks =
    (codes "comm", false) ∷ (codes "exe", true) ∷ (codes "comm", true) ∷ (codes "exe", false) ∷ []

on_inputs-contains_example : contains (codes "comm") (on_inputs clicks default.cols_enabled) ≡ true
unfolding text_eq contains
on_inputs-contains_example = on_inputs-contains (codes "comm") clicks default.cols_enabled

-- a parser that reads up to the first `=`, behind blanks
abbrev put_name : ℕ → Option (Bytes × Bytes) → Option (Bytes × Bytes)
put_name c none = none
put_name c (some (name, value)) = some (c ∷ name, value)

abbrev cut : Bytes → Option (Bytes × Bytes)
cut [] = none
cut (c ∷ s) = let rest = cut s in if nat_eq c b'=' then some ([], s) else put_name c rest

abbrev read_cookie : Bytes → Option (Bytes × Bytes)
read_cookie [] = none
read_cookie (c ∷ s) = let rest = read_cookie s in if nat_eq c b' ' then rest else cut (c ∷ s)

cut-word :
    (name value : Bytes)
    → all is_word name ≡ true
    → cut (name ++ (b'=' ∷ value)) ≡ some (name, value)
cut-word [] value h = refl
cut-word (c ∷ name) value h = ground (arith, cut-word name value)

read-word :
    (name value : Bytes)
    → name ≢ []
    → all is_word name ≡ true
    → all is_plain value ≡ true
    → read_cookie (name ++ (b'=' ∷ value)) ≡ some (name, value)
read-word [] value h word plain = absurd (h refl)
read-word (c ∷ name) value h word plain = ground (arith, cut-word (c ∷ name) value word)

read_cookie-ReadsPlain : ReadsPlain read_cookie
read_cookie-ReadsPlain = record { plain = read-word; blank = λ s. refl }

abbrev enabled : List Bytes
enabled = codes "comm" ∷ codes "source_timestamp" ∷ []

extract-cookie_text_example :
    (extract_in_browser read_cookie
        (some (join b';' (kept (codes "a=b" ∷ []) (codes " x" ∷ []) enabled 1)))
      ≡ record { cols_enabled = from_iter enabled })
    × (extract_on_server read_cookie
          (some (some (join b';' (kept (codes "a=b" ∷ []) (codes " x" ∷ []) enabled 1)) ∷ []))
        ≡ record { cols_enabled = from_iter enabled })
unfolding text_eq
extract-cookie_text_example =
    extract-cookie_text read_cookie read_cookie-ReadsPlain (codes "a=b" ∷ []) (codes " x" ∷ [])
      enabled 1 (cc) (refl, (refl, tt)) (refl, tt) ((refl, (refl, (refl, tt))), tt)
      ((refl, (refl, tt)), tt)

abbrev hits : List (HashMap Bytes Bytes)
hits =
    ((codes "message", codes "hi") ∷ (codes "comm", codes "su") ∷ [])
    ∷ ((codes "exe", codes "sh") ∷ [])
    ∷ []

-- the first column is shown, the second is not
page_cells :
    (page_table (from_iter enabled) (table (λ l. l) hits)).0 ≡ visible (codes "comm") ∷ hidden ∷ []
unfolding page_table text_eq contains table
page_cells = refl

abbrev as_app : Bool → Option AppError
as_app true = some not_found
as_app false = none

error_template-none_example : (error_template as_app true none (some (false ∷ [])) ≡ none) ↔ (
    (given as_app none (some (false ∷ [])) ≡ none)
    ⊎ ((l : List Bool) × (given as_app none (some (false ∷ [])) ≡ some l)
        × (true ≡ true)
        × (app_errors as_app l ≡ [])))
error_template-none_example = error_template-none as_app true none (some (false ∷ []))
