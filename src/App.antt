-- ===== src/App.antt =====
-- app/src/lib.rs: what the search page asks for, and the query that main.rs makes of it.
pub mod Window
pub mod Columns
pub mod Cookies
pub mod Page
pub mod SearchPage
pub mod ErrorTemplate
use yaffle.Base.{
  ℕ, ◌-◌, ◌*◌, ◌%◌, ◌^◌, List, [], ◌∷◌, ◌++◌, Option, none, some, Bytes, ltb, leb, if◌then◌else◌,
  Bool, map, nat_eq, codes, unwrap_or,
}
use yaffle.Macros.Display.{show_uint}

-- `struct SearchParams`
pub record SearchParams : Type 0 where
  pub reltime : Option ℕ
  pub q : Option Bytes

-- `RELTIMES`: the minutes that the page offers, each with its label
abbrev pub reltimes : List (ℕ × Bytes)
reltimes =
    (0, codes "all")
    ∷ (1, codes "1m")
    ∷ (5, codes "5m")
    ∷ (15, codes "15m")
    ∷ (30, codes "30m")
    ∷ (60, codes "1h")
    ∷ (180, codes "2h")
    ∷ (720, codes "8h")
    ∷ (1440, codes "1d")
    ∷ (2880, codes "2d")
    ∷ (7200, codes "5d")
    ∷ (10080, codes "7d")
    ∷ (20160, codes "14d")
    ∷ (43200, codes "30d")
    ∷ []

abbrev pub not_empty : Option Bytes → Option Bytes
not_empty none = none
not_empty (some []) = none
not_empty (some (c ∷ s)) = some (c ∷ s)

-- `params_signal` of `SearchPage`
unfoldable pub params_signal : SearchParams → ℕ × Bytes
params_signal p = (unwrap_or 5 p.reltime, unwrap_or (codes "*") (not_empty p.q))

-- the options of the page: whether each is selected, its value and its label
unfoldable pub time_options : SearchParams → List (Bool × ℕ × Bytes)
unfolding params_signal
time_options p = map (λ (r : ℕ × Bytes). (nat_eq (params_signal p).0 r.0, r.0, r.1)) reltimes

-- `struct SearchOptions`
pub record SearchOptions : Type 0 where
  pub query : Bytes
  pub start_timestamp : Option ℕ
  pub end_timestamp : Option ℕ

-- `checked_sub` of whole seconds from the time since the epoch, and `as_secs`
abbrev pub checked_sub : ℕ → ℕ → Option ℕ
checked_sub now secs = if leb secs now then some (now - secs) else none

-- `perform_search` at the second `now`; `reltime * 60` is a product of `u32`.
unfoldable pub search_options : ℕ → ℕ → Bytes → SearchOptions
search_options now reltime query = record {
  query = query;
  start_timestamp = if ltb 0 reltime then checked_sub now (reltime * 60 % 2 ^ 32) else none;
  end_timestamp = none;
}

abbrev pub star_if_empty : Bytes → Bytes
star_if_empty [] = codes "*"
star_if_empty (c ∷ s) = c ∷ s

abbrev timestamp_pair : Bytes → Option ℕ → List (Bytes × Bytes)
timestamp_pair name none = []
timestamp_pair name (some t) = (name, show_uint t) ∷ []

-- the query pairs of `build_search_uri`
unfoldable pub search_pairs : SearchOptions → List (Bytes × Bytes)
search_pairs sp =
    (codes "query", star_if_empty sp.query)
    ∷ (codes "sort_by_field", codes "-source_timestamp")
    ∷ (codes "max_hits", codes "1000")
    ∷ (timestamp_pair (codes "start_timestamp") sp.start_timestamp
        ++ timestamp_pair (codes "end_timestamp") sp.end_timestamp)
