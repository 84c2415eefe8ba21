-- ===== src/Server/Search/Table.antt =====
-- The table of a search.
use yaffle.Base.{◌++◌, codes, ◌≡◌, ap, ◌∙◌, List, ◌∷◌, Bytes, map, bytes_eq}
use mathlib.Core.List.{Permᴰ}
use yaffle.Base.HashMap.{HashMap, lookup}
use yaffle.Server.Search.{sort_by, key_set, table}
use yaffle.Server.Search.Order.{sort_by_perm, sort_by-first}

-- However the set of names is listed, the table of a search is the same.
pub table-key_set :
    (from_iter other : List Bytes → List Bytes) (maps : List (HashMap Bytes Bytes))
    → Permᴰ (from_iter (key_set maps)) (other (key_set maps))
    → table from_iter maps ≡ table other maps
unfolding table
table-key_set from_iter other maps p =
    ap (λ keys. (keys, map (λ texts. map (λ key. lookup key texts) keys) maps)) (sort_by_perm p)

-- If `source_timestamp` is among the listed names, it is the first column of the table.
pub table-first :
    (from_iter : List Bytes → List Bytes) (maps : List (HashMap Bytes Bytes)) (l r : List Bytes)
    → from_iter (key_set maps) ≡ l ++ (codes "source_timestamp" ∷ r)
    → (m : List Bytes) × ((table from_iter maps).0 ≡ codes "source_timestamp" ∷ m)
unfolding table
table-first from_iter maps l r e = let (m, f) = sort_by-first l r in (m, ap sort_by e ∙ f)
