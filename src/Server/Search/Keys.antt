-- ===== src/Server/Search/Keys.antt =====
-- The columns of a search: each name that a hit has, once.
use yaffle.Base.{
  ℕ, suc, ◌≤◌, ◌≡◌, refl, ap, ◌∙◌, inl, inr, true, false, List, [], ◌∷◌, some, Bytes, All, All-map,
  text_eq, text_eq_iff, bytes_eq, if◌then◌else◌, Bool-cases, arith,
}
use mathlib.Core.List.{Permᴰ}
use yaffle.Base.HashMap.{HashMap, lookup}
use yaffle.Base.HashSet.{is_listed}
use yaffle.Server.Search.{extend, key_set, insert_by, sort_by, table}
use yaffle.Server.Search.Order.{insert_by-cons, insert_by-nil}

-- how often a name is in a list
abbrev pub count : Bytes → List Bytes → ℕ
count key [] = 0
count key (k ∷ keys) = let rest = count key keys in if text_eq k key then suc rest else rest

is_listed-count :
    (key : Bytes) (keys : List Bytes) → is_listed key keys ≡ false → count key keys ≡ 0
is_listed-count key [] h = refl
is_listed-count key (k ∷ keys) h = ground (arith, is_listed-count key keys)

count-is_listed : (key : Bytes) (keys : List Bytes) → is_listed key keys ≡ true → 1 ≤ count key keys
count-is_listed key [] h = cc h
count-is_listed key (k ∷ keys) h = ground (arith, count-is_listed key keys)

abbrev IsSingle : List Bytes → Type 0
IsSingle keys = (key : Bytes) → count key keys ≤ 1

add-IsSingle :
    (k : Bytes) (keys : List Bytes)
    → IsSingle keys
    → IsSingle (if is_listed k keys then keys else k ∷ keys)
add-IsSingle k keys h key = ground (arith, h key, is_listed-count k keys, text_eq_iff k key)

add_le :
    (k key : Bytes) (keys : List Bytes)
    → count key keys ≤ count key (if is_listed k keys then keys else k ∷ keys)
add_le k key keys = ground arith

add-listed :
    (k : Bytes) (keys : List Bytes) → 1 ≤ count k (if is_listed k keys then keys else k ∷ keys)
add-listed k keys = ground (arith, count-is_listed k keys, text_eq_iff k k)

extend-IsSingle :
    (keys : List Bytes) (texts : HashMap Bytes Bytes) → IsSingle keys → IsSingle (extend keys texts)
extend-IsSingle keys [] h = h
extend-IsSingle keys ((k, v) ∷ texts) h =
    extend-IsSingle (if is_listed k keys then keys else k ∷ keys) texts (add-IsSingle k keys h)

extend_le :
    (key : Bytes) (keys : List Bytes) (texts : HashMap Bytes Bytes)
    → count key keys ≤ count key (extend keys texts)
extend_le key keys [] = omega arith
extend_le key keys ((k, v) ∷ texts) =
    omega
      (arith, add_le k key keys, extend_le key (if is_listed k keys then keys else k ∷ keys) texts)

extend-lookup :
    (key value : Bytes) (keys : List Bytes) (texts : HashMap Bytes Bytes)
    → lookup key texts ≡ some value
    → 1 ≤ count key (extend keys texts)
unfolding lookup
extend-lookup key value keys [] h = cc h
extend-lookup key value keys ((k, v) ∷ texts) h = elim (Bool-cases (text_eq k key)) [
  | inl same ↦
      let found = add-listed k keys in
      let kept = extend_le key (if is_listed k keys then keys else k ∷ keys) texts in
      ground (arith, found, kept, text_eq_iff k key)
  | inr other ↦
      extend-lookup key value (if is_listed k keys then keys else k ∷ keys) texts
        (ground (arith, h))
]

pub key_set_single :
    (maps : List (HashMap Bytes Bytes)) (key : Bytes) → count key (key_set maps) ≤ 1
key_set_single [] key = omega arith
key_set_single (texts ∷ maps) key = extend-IsSingle (key_set maps) texts (key_set_single maps) key

-- each name of each hit is listed
abbrev pub Listed : List Bytes → HashMap Bytes Bytes → Type 0
Listed keys texts = (key value : Bytes) → lookup key texts ≡ some value → 1 ≤ count key keys

All-Listed :
    (more : HashMap Bytes Bytes) (keys : List Bytes) (maps : List (HashMap Bytes Bytes))
    → All (Listed keys) maps
    → All (Listed (extend keys more)) maps
All-Listed more keys [] h = tt
All-Listed more keys (texts ∷ maps) (here, h) = (
  λ key value found. omega (arith, here key value found, extend_le key keys more),
  All-Listed more keys maps h,
)

key_set-Listed : (maps : List (HashMap Bytes Bytes)) → All (Listed (key_set maps)) maps
key_set-Listed [] = tt
key_set-Listed (texts ∷ maps) = (
  λ key value found. extend-lookup key value (key_set maps) texts found,
  All-Listed texts (key_set maps) maps (key_set-Listed maps),
)

count-insert_by : (key a : Bytes) (l : List Bytes) → count key (insert_by a l) ≡ count key (a ∷ l)
count-insert_by key a [] = rw (insert_by-nil a) refl
count-insert_by key a (b ∷ l) = ground (arith, insert_by-cons a b l, count-insert_by key a l)

count-sort_by : (key : Bytes) (l : List Bytes) → count key (sort_by l) ≡ count key l
unfolding sort_by
count-sort_by key [] = refl
count-sort_by key (a ∷ l) = ground (arith, count-insert_by key a (sort_by l), count-sort_by key l)

count-perm : (key : Bytes) {l m : List Bytes} → Permᴰ l m → count key l ≡ count key m
count-perm key Permᴰ.nil = refl
count-perm key (Permᴰ.cons {b = b} e p) =
    rw e (ap (λ n. if text_eq b key then suc n else n) (count-perm key p))
count-perm key (Permᴰ.swap {a' = a'} {b' = b'} {l = l} e f) = rw (e, f) (ground arith)
count-perm key (Permᴰ.trans p q) = count-perm key p ∙ count-perm key q

module _ (from_iter : List Bytes → List Bytes) (maps : List (HashMap Bytes Bytes))
    (p : Permᴰ (from_iter (key_set maps)) (key_set maps)) where
  table-count : (key : Bytes) → count key (table from_iter maps).0 ≡ count key (key_set maps)
  unfolding table
  table-count key = count-sort_by key (from_iter (key_set maps)) ∙ count-perm key p

  pub table-single : (key : Bytes) → count key (table from_iter maps).0 ≤ 1
  table-single key = omega (arith, table-count key, key_set_single maps key)

  pub table-Listed : All (Listed (table from_iter maps).0) maps
  table-Listed =
      All-map (Listed (key_set maps)) (Listed (table from_iter maps).0)
        (λ texts h key value found. omega (arith, h key value found, table-count key)) maps
        (key_set-Listed maps)
