-- ===== src/App/Page/Aligned.antt =====
-- The table of the page: a hit's cells stand under the columns' names, and its message under them.
use yaffle.Base.{
  ℕ, zero, suc, ◌≤◌, ◌≡◌, refl, sym, ap, ◌∙◌, inl, inr, List, [], ◌∷◌, ◌++◌, append_assoc, Option,
  none, some, Bytes, map, length, text_eq, text_eq_iff, bytes_eq, codes, Bool-cases, All-map,
  map-All, arith,
}
use yaffle.Base.HashMap.{HashMap, lookup}
use yaffle.Base.HashSet.{HashSet}
use yaffle.Server.Search.{table, key_set}
use yaffle.Server.Search.Keys.{count, Listed, table-single, table-Listed}
use mathlib.Core.List.{Permᴰ, map-map}
use mathlib.Core.Path.{ap₂}
use yaffle.App.Page.{
  View, visible, hidden, header_cells, body_cells, message_texts, cons_text, at, page_table,
}

abbrev pub view_map : {A B : Type 0} → (A → B) → View A → View B
view_map f (visible a) = visible (f a)
view_map f hidden = hidden

at-map :
    (g : Bytes → Option Bytes) (done fields : List Bytes) (field : Bytes)
    → at (map g (done ++ (field ∷ fields))) (length done) ≡ g field
at-map g [] fields field = refl
at-map g (d ∷ done) fields field = at-map g done fields field

length-snoc :
    (done : List Bytes) (field : Bytes) → length (done ++ (field ∷ [])) ≡ suc (length done)
length-snoc [] field = refl
length-snoc (d ∷ done) field = ap suc (length-snoc done field)

abbrev times : ℕ → Option Bytes → List Bytes
times zero o = []
times (suc n) o = cons_text o (times n o)

module _ (enabled : HashSet) (g : Bytes → Option Bytes) where
  body-header_from :
      (done fields : List Bytes)
      → body_cells enabled (map g (done ++ fields)) (length done) fields
        ≡ map (view_map g) (header_cells enabled fields)
  unfolding body_cells header_cells
  body-header_from done [] = refl
  body-header_from done (field ∷ fields) = ground (
    arith,
    at-map g done fields field,
    length-snoc done field,
    append_assoc done (field ∷ []) fields,
    body-header_from (done ++ (field ∷ [])) fields,
  )

  -- the texts of the fields behind the first one
  message-texts_rest :
      (done : List Bytes) (field : Bytes) (fields : List Bytes) {l : List Bytes}
      → message_texts
          (map g ((done ++ (field ∷ [])) ++ fields))
          (length (done ++ (field ∷ [])))
          fields
        ≡ l
      → message_texts (map g (done ++ (field ∷ fields))) (suc (length done)) fields ≡ l
  message-texts_rest done field fields e =
      rw (sym (append_assoc done (field ∷ []) fields), sym (length-snoc done field)) e

  message-texts_from :
      (done fields : List Bytes)
      → message_texts (map g (done ++ fields)) (length done) fields
        ≡ times (count (codes "message") fields) (g (codes "message"))
  unfolding message_texts
  message-texts_from done [] = refl
  message-texts_from done (field ∷ fields) =
      let rest =
        message-texts_rest done field fields (message-texts_from (done ++ (field ∷ [])) fields) in
      elim (Bool-cases (text_eq field (codes "message"))) [
        | inl same ↦
            rw (same, rest, at-map g done fields field)
              (ap
                (λ f.
                  cons_text (g f) (times (count (codes "message") fields) (g (codes "message"))))
                ((text_eq_iff field (codes "message")).0 same))
        | inr other ↦ rw (other, rest) refl
      ]

times-once :
    (n : ℕ) (o : Option Bytes)
    → n ≤ 1
    → ((m : Bytes) → o ≡ some m → 1 ≤ n)
    → times n o ≡ cons_text o []
times-once zero none h k = refl
times-once (suc zero) none h k = refl
times-once (suc (suc n)) none h k = absurd (omega arith)
times-once zero (some m) h k = absurd (omega (arith, k m refl))
times-once (suc zero) (some m) h k = refl
times-once (suc (suc n)) (some m) h k = absurd (omega arith)

-- what the page shows of a hit under the header's cells
abbrev pub hit_rows :
    List (View Bytes) → HashMap Bytes Bytes → List (View (Option Bytes)) × List Bytes
hit_rows header texts = (
  map (view_map (λ field. lookup field texts)) header,
  cons_text (lookup (codes "message") texts) [],
)

-- The page shows two rows for each hit, in the hits' order. The first has a cell under each cell of
-- the header, which is visible if that one is and then shows what the hit has of the column named
-- there. The second shows the hit's message, once, if it has one. The set of names is listed in any
-- order.
pub page_table-hits :
    (enabled : HashSet) (from_iter : List Bytes → List Bytes) (maps : List (HashMap Bytes Bytes))
    → Permᴰ (from_iter (key_set maps)) (key_set maps)
    → page_table enabled (table from_iter maps) ≡ (
      header_cells enabled (table from_iter maps).0,
      map (hit_rows (header_cells enabled (table from_iter maps).0)) maps,
    )
unfolding page_table table
page_table-hits enabled from_iter maps p =
    let keys = (table from_iter maps).0 in
    ap (λ rows. (header_cells enabled keys, rows))
      (map-map _ _ maps
        ∙ map-All _ (hit_rows (header_cells enabled keys)) maps (
            All-map (Listed keys) _
              (λ texts listed.
                ap₂ (λ a b. (a, b)) (body-header_from enabled (λ key. lookup key texts) [] keys)
                  (message-texts_from enabled (λ key. lookup key texts) [] keys
                    ∙ times-once (count (codes "message") keys) (lookup (codes "message") texts)
                        (table-single from_iter maps p (codes "message"))
                        (λ m found. listed (codes "message") m found)))
              maps (table-Listed from_iter maps p)))
