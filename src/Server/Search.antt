-- ===== src/Server/Search.antt =====
-- The search: the columns and rows that `ServerAPIImpl::search` makes of the hits, in the order of
-- `field_custom_sort`.
pub mod Order
pub mod Keys
pub mod Service
pub mod Table
use yaffle.Base.{
  ℕ, zero, suc, ◌+◌, ◌-◌, ◌*◌, ◌/◌, ◌%◌, Bool, true, false, ◌||◌, List, [], ◌∷◌, ◌++◌, Option, none,
  some, Bytes, map, text_eq, bytes_eq, ltb, nat_eq, if◌then◌else◌, codes, unwrap_or, get_or,
}
use yaffle.Base.HashMap.{HashMap, lookup, insert}
use yaffle.Base.HashSet.{is_listed}
use yaffle.Macros.Attributes.{
  TantivyType, string, text, u64, i64, timestamp, fast_timestamp, json_object, FormatOption,
  syslog_priority, hex,
}
use yaffle.Macros.Display.{to_display}
use yaffle.Schema.Convert.{Cell}
use yaffle.Schema.Build.{Document, column}
use yaffle.Schema.{document_schema}

-- `Ordering`
pub data Ordering : Type 0 where
  less equal greater : Ordering

abbrev cmp_nat : ℕ → ℕ → Ordering → Ordering
cmp_nat x y same = if ltb x y then less else if ltb y x then greater else same

-- `cmp` on strings, by their bytes
unfoldable pub cmp : Bytes → Bytes → Ordering
cmp [] [] = equal
cmp [] (y ∷ t) = less
cmp (x ∷ s) [] = greater
cmp (x ∷ s) (y ∷ t) = cmp_nat x y (cmp s t)

unfoldable pub field_custom_sort : Bytes → Bytes → Ordering
unfolding cmp text_eq
field_custom_sort a b =
    if text_eq a (codes "source_timestamp")
    then less
    else if text_eq b (codes "source_timestamp")
    then greater
    else cmp a b

-- `sort_by`, which is stable: an item goes behind those that it is greater than.
abbrev pub place : Bytes → List Bytes → Bytes → Ordering → List Bytes → List Bytes
place a l b greater behind = b ∷ behind
place a l b less behind = a ∷ b ∷ l
place a l b equal behind = a ∷ b ∷ l

unfoldable pub insert_by : Bytes → List Bytes → List Bytes
unfolding field_custom_sort
insert_by a [] = a ∷ []
insert_by a (b ∷ l) = place a l b (field_custom_sort a b) (insert_by a l)

unfoldable pub sort_by : List Bytes → List Bytes
unfolding insert_by
sort_by [] = []
sort_by (a ∷ l) = insert_by a (sort_by l)

-- `HashMap::from(&document)`: the texts of the columns that the document has
module _ (show_time : ℕ → ℕ → Option Bytes) (debug : Cell → Bytes) where
  abbrev shown : Bytes → TantivyType → Option Cell → HashMap Bytes Bytes → HashMap Bytes Bytes
  shown field t none texts = texts
  shown field t (some value) texts =
      insert field
        (to_display show_time debug t (lookup field document_schema.format_options) value) texts

  abbrev display_from :
      Document → List (Bytes × TantivyType) → HashMap Bytes Bytes → HashMap Bytes Bytes
  display_from doc [] texts = texts
  display_from doc ((field, t) ∷ fields) texts =
      display_from doc fields (shown field t (column field doc) texts)

  unfoldable pub display : Document → HashMap Bytes Bytes
  unfolding to_display document_schema lookup insert
  display doc = display_from doc document_schema.tantivy_fields []

-- `keys.extend(..)`: the names as they first come
abbrev pub extend : List Bytes → HashMap Bytes Bytes → List Bytes
extend keys [] = keys
extend keys ((k, v) ∷ texts) = extend (if is_listed k keys then keys else k ∷ keys) texts

abbrev pub key_set : List (HashMap Bytes Bytes) → List Bytes
key_set [] = []
key_set (texts ∷ maps) = extend (key_set maps) texts

-- The table of the hits' texts; `from_iter` is the order in which the set of names is listed.
unfoldable pub table :
    (List Bytes → List Bytes) → List (HashMap Bytes Bytes) → List Bytes × List (List (Option Bytes))
unfolding sort_by
table from_iter maps =
    let keys = sort_by (from_iter (key_set maps)) in
    (keys, map (λ texts. map (λ key. lookup key texts) keys) maps)
