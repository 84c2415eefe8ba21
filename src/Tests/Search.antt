-- ===== src/Tests/Search.antt =====
-- The theorems on the search: the page, the table of two hits, and a number in hexadecimal.
use yaffle.Base.{some, none, ◌≡◌, refl, List, [], ◌∷◌, Bytes, codes, arith, text_eq, bytes_eq}
use mathlib.Core.List.{Permᴰ}
use yaffle.Base.HashMap.{HashMap, lookup}
use yaffle.Macros.Display.{show_uint}
use yaffle.App.{SearchParams}
use yaffle.App.Window.{pairs_of, search_pairs-window}
use yaffle.Server.Search.{table}
use yaffle.Server.Search.Table.{table-key_set}

abbrev hits : List (HashMap Bytes Bytes)
hits = ((codes "source_timestamp", codes "1") ∷ []) ∷ ((codes "comm", codes "su") ∷ []) ∷ []

abbrev swapped : List Bytes → List Bytes
swapped (a ∷ b ∷ l) = b ∷ a ∷ l
swapped l = l

table-key_set_example : table (λ l. l) hits ≡ table swapped hits
unfolding text_eq
table-key_set_example = table-key_set (λ l. l) swapped hits (Permᴰ.swap refl refl)

abbrev page : SearchParams
page = record { reltime = some 60; q = some [] }

search_pairs-window_example :
    (lookup (codes "query") (pairs_of 10000 page) ≡ some (codes "*"))
    × (lookup (codes "start_timestamp") (pairs_of 10000 page) ≡ some (codes "6400"))
    × (lookup (codes "end_timestamp") (pairs_of 10000 page) ≡ none)
unfolding show_uint
search_pairs-window_example =
    search_pairs-window 10000 page 60 refl (omega arith) (omega arith) (omega arith)
