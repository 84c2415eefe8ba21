-- ===== src/App/Cookies.antt =====
-- The cookie `cols` in which a browser keeps the set of columns.
pub mod Kept
use yaffle.Base.{
  ℕ, ◌≡◌, ◌≢◌, refl, sym, ap, Bool, true, false, ◌&&◌, ◌||◌, List, [], ◌∷◌, ◌++◌, Option, none,
  some, Bytes, All, concat, map, all, within, nat_eq, text_eq, codes, split, join, Lacks,
  split-join, unwrap_or, option_map, if◌then◌else◌, arith,
}
use yaffle.Base.HashSet.{from_iter}
use yaffle.App.Columns.{AppState, default}

-- `filter_map(|val| val.to_str().ok())`
abbrev pub readable : List (Option Bytes) → List Bytes
readable [] = []
readable (none ∷ hdrs) = readable hdrs
readable (some hdr ∷ hdrs) = hdr ∷ readable hdrs

-- `parse_encoded` is `Cookie::parse_encoded`, of which the name and the value are read.
module _ (parse_encoded : Bytes → Option (Bytes × Bytes)) where
  abbrev state_or : AppState → Option (Bytes × Bytes) → AppState
  state_or later none = later
  state_or later (some (name, value)) =
      if text_eq name (codes "cols")
      then record { cols_enabled = from_iter (split b',' value) }
      else later

  -- the loop over the cookies
  unfoldable pub state_from : List Bytes → AppState
  unfolding split text_eq
  state_from [] = default
  state_from (ck ∷ cookies) = state_or (state_from cookies) (parse_encoded ck)

  unfoldable pub app_state_from_cookies : List Bytes → AppState
  unfolding state_from split
  app_state_from_cookies cookies_hdrs = state_from (concat (map (split b';') cookies_hdrs))

  -- `extract_app_state` on the server: the cookie headers of the request, if there is one, each with
  -- its text if it is one
  unfoldable pub extract_on_server : Option (List (Option Bytes)) → AppState
  unfolding app_state_from_cookies
  extract_on_server req_parts =
      unwrap_or default (option_map (λ hdrs. app_state_from_cookies (readable hdrs)) req_parts)

  -- and in a browser: the cookies of the window's document, if there is a window with a document
  -- whose cookies can be read
  unfoldable pub extract_in_browser : Option Bytes → AppState
  unfolding app_state_from_cookies
  extract_in_browser window_cookie =
      unwrap_or default (option_map (λ c. app_state_from_cookies (c ∷ [])) window_cookie)

-- The text that the page's effect sets; `listed` is the set in the order in which it is listed.
unfoldable pub cookie_text : List Bytes → Bytes
cookie_text listed = codes "cols=" ++ join b',' listed

-- letters, digits and the underscore, and the comma
abbrev pub is_word : ℕ → Bool
is_word c = within b'a' b'z' c || within b'A' b'Z' c || within b'0' b'9' c || nat_eq c b'_'

abbrev pub is_plain : ℕ → Bool
is_plain c = is_word c || nat_eq c b','

-- What `Cookie::parse_encoded` reads of a plain text `name=value`, behind a blank or not.
pub record ReadsPlain (parse_encoded : Bytes → Option (Bytes × Bytes)) : Type 0 where
  pub plain :
      (name value : Bytes)
      → name ≢ []
      → all is_word name ≡ true
      → all is_plain value ≡ true
      → parse_encoded (name ++ (b'=' ∷ value)) ≡ some (name, value)
  pub blank : (s : Bytes) → parse_encoded (b' ' ∷ s) ≡ parse_encoded s
