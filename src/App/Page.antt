-- ===== src/App/Page.antt =====
-- `SearchPage` of app/src/lib.rs: the checkboxes, the table's header, and the two rows of each hit.
pub mod Aligned
use yaffle.Base.{
  ℕ, zero, suc, Bool, true, false, ◌||◌, List, [], ◌∷◌, Option, none, some, Bytes, map, get_elem?,
  text_eq, codes, unwrap_or, if◌then◌else◌,
}
use yaffle.Base.HashSet.{HashSet, contains}

-- an element of the page: visible, or with `display: none` and nothing in it
pub data View (A : Type 0) : Type 0 where
  visible : A → View A
  hidden : View A

-- the fields that are shown as text and not as a column
abbrev pub is_text_field : Bytes → Bool
is_text_field field = text_eq field (codes "message") || text_eq field (codes "full_message")

-- the checkbox of each column, with its value and whether it is checked
unfoldable pub checkboxes : HashSet → List Bytes → List (Bytes × Bool)
unfolding contains text_eq
checkboxes enabled [] = []
checkboxes enabled (field ∷ fields) =
    let rest = checkboxes enabled fields in
    if is_text_field field then rest else (field, contains field enabled) ∷ rest

unfoldable pub header_cells : HashSet → List Bytes → List (View Bytes)
unfolding contains text_eq
header_cells enabled [] = []
header_cells enabled (field ∷ fields) =
    let rest = header_cells enabled fields in
    if is_text_field field
    then rest
    else (if contains field enabled then visible field else hidden) ∷ rest

-- `row.get(index).unwrap_or(&None)`
abbrev pub at : List (Option Bytes) → ℕ → Option Bytes
at row index = unwrap_or none (get_elem? row index)

-- the first row of a hit; `index` is that of the first of the fields
unfoldable pub body_cells :
    HashSet → List (Option Bytes) → ℕ → List Bytes → List (View (Option Bytes))
unfolding contains text_eq
body_cells enabled row index [] = []
body_cells enabled row index (field ∷ fields) =
    let rest = body_cells enabled row (suc index) fields in
    if is_text_field field
    then rest
    else (if contains field enabled then visible (at row index) else hidden) ∷ rest

abbrev pub cons_text : Option Bytes → List Bytes → List Bytes
cons_text none texts = texts
cons_text (some text) texts = text ∷ texts

-- the second row: its message
unfoldable pub message_texts : List (Option Bytes) → ℕ → List Bytes → List Bytes
unfolding text_eq
message_texts row index [] = []
message_texts row index (field ∷ fields) =
    let rest = message_texts row (suc index) fields in
    if text_eq field (codes "message") then cons_text (at row index) rest else rest

-- the table of a search's columns and rows
unfoldable pub page_table :
    HashSet
    → List Bytes × List (List (Option Bytes))
    → List (View Bytes) × List (List (View (Option Bytes)) × List Bytes)
unfolding header_cells body_cells message_texts
page_table enabled (fields, rows) = (
  header_cells enabled fields,
  map (λ row. (body_cells enabled row 0 fields, message_texts row 0 fields)) rows,
)
