-- ===== src/App/Window.antt =====
-- The window of time and the text that a search asks for.
use yaffle.Base.{
  zero, suc, true, all, All, All-map, leb, ◌⊎◌, inl, inr, ℕ, ◌-◌, ◌*◌, ◌^◌, ◌≤◌, ◌<◌, ◌%◌, ◌≡◌,
  refl, List, ap, unwrap_or, Option, none, some, Bytes, [], ◌∷◌, codes, arith, text_eq, bytes_eq,
  ltb, if◌then◌else◌,
}
use yaffle.Base.HashMap.{lookup}
use yaffle.Macros.Display.{show_uint}
use yaffle.App.{
  star_if_empty, not_empty, SearchParams, params_signal, search_options, search_pairs, checked_sub,
  reltimes,
}

window :
    (now reltime : ℕ)
    → 0 < reltime
    → reltime * 60 < 2 ^ 32
    → reltime * 60 ≤ now
    → (if ltb 0 reltime then checked_sub now (reltime * 60 % 2 ^ 32) else none)
      ≡ some (now - reltime * 60)
window now reltime some_time small past =
    let no_wrap : reltime * 60 % 2 ^ 32 ≡ reltime * 60 = omega arith in rw no_wrap (ground arith)

-- the text that a page asks for: everything, unless it gives one
abbrev pub asked : Option Bytes → Bytes
asked none = codes "*"
asked (some []) = codes "*"
asked (some (c ∷ s)) = c ∷ s

asked_lem : (q : Option Bytes) → star_if_empty (unwrap_or (codes "*") (not_empty q)) ≡ asked q
asked_lem none = refl
asked_lem (some []) = refl
asked_lem (some (c ∷ s)) = refl

abbrev pub pairs_of : ℕ → SearchParams → List (Bytes × Bytes)
pairs_of now p = search_pairs (search_options now (params_signal p).0 (params_signal p).1)

-- A page whose number of minutes is positive, below 2 ^ 32 / 60 and not before the epoch asks for
-- its text, or for everything if that is absent or empty, since that many minutes ago, with no end.
pub search_pairs-window :
    (now : ℕ) (p : SearchParams) (reltime : ℕ)
    → p.reltime ≡ some reltime
    → 0 < reltime
    → reltime * 60 < 2 ^ 32
    → reltime * 60 ≤ now
    → (lookup (codes "query") (pairs_of now p) ≡ some (asked p.q))
      × (lookup (codes "start_timestamp") (pairs_of now p) ≡ some (show_uint (now - reltime * 60)))
      × (lookup (codes "end_timestamp") (pairs_of now p) ≡ none)
unfolding search_pairs search_options params_signal lookup text_eq
search_pairs-window now p reltime minutes some_time small past =
    rw minutes (rw (window now reltime some_time small past) (ap some (asked_lem p.q), refl, refl))

-- the search that the option with the value `v` asks for
abbrev pub option_pairs : ℕ → Option Bytes → ℕ → List (Bytes × Bytes)
option_pairs now q v = pairs_of now (record { reltime = some v; q = q })

-- what an option should ask for: everything, or the last `v` minutes
abbrev pub IsWindow : ℕ → Option Bytes → ℕ → Type 0
IsWindow now q v =
    ((v ≡ 0) × (lookup (codes "start_timestamp") (option_pairs now q v) ≡ none))
    ⊎ ((0 < v)
        × (lookup (codes "start_timestamp") (option_pairs now q v)
            ≡ some (show_uint (now - v * 60))))

small-IsWindow :
    (now : ℕ) (q : Option Bytes) (v : ℕ) → 43200 * 60 ≤ now → v ≤ 43200 → IsWindow now q v
unfolding search_pairs search_options params_signal lookup text_eq
small-IsWindow now q zero late small = inl (refl, refl)
small-IsWindow now q (suc v) late small =
    let w =
      search_pairs-window now (record { reltime = some (suc v); q = q }) (suc v) refl (omega arith)
        (omega arith) (omega arith) in
    inr (omega arith, w.1)

all_small : (l : List (ℕ × Bytes)) → all (λ r. leb r.0 43200) l ≡ true → All (λ r. r.0 ≤ 43200) l
all_small [] h = tt
all_small (r ∷ l) h = ground (arith, all_small l)

-- Every option that the page offers, 30 days after the epoch or later, asks for the time that its
-- value says: for everything if that is 0, and else since that many minutes ago, without overflow.
pub reltimes-IsWindow :
    (now : ℕ) (q : Option Bytes) → 43200 * 60 ≤ now → All (λ r. IsWindow now q r.0) reltimes
reltimes-IsWindow now q late =
    All-map (λ r. r.0 ≤ 43200) _ (λ r small. small-IsWindow now q r.0 late small) reltimes
      (all_small reltimes refl)
