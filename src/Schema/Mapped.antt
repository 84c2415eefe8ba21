-- ===== src/Schema/Mapped.antt =====
-- The index's mapping of a document's columns.
use yaffle.Base.{
  ◌≡◌, refl, Bool, true, not, ◌&&◌, List, [], ◌∷◌, some, Bytes, map, text_eq, text_eq_iff, bytes_eq,
  if◌then◌else◌, arith, Bool-cases, inl, inr,
}
use yaffle.Base.HashMap.{lookup}
use yaffle.Macros.Attributes.{
  TantivyType, string, text, u64, i64, timestamp, fast_timestamp, json_object,
}
use yaffle.Macros.Mapping.{FieldMapping, quickwit_field, mapping_with}
use yaffle.Schema.{document_schema, quickwit_mapping}

-- the mappings with the name `n`
abbrev pub mappings_of : Bytes → List FieldMapping → List FieldMapping
mappings_of n [] = []
mappings_of n (m ∷ l) = if text_eq n m.name then m ∷ mappings_of n l else mappings_of n l

absent : Bytes → List (Bytes × TantivyType) → Bool
absent n [] = true
absent n ((k, t) ∷ l) = not (text_eq n k) && absent n l

distinct : List (Bytes × TantivyType) → Bool
distinct [] = true
distinct ((k, t) ∷ l) = absent k l && distinct l

quickwit_field-name : (k : Bytes) (t : TantivyType) → (quickwit_field (k, t)).name ≡ k
unfolding quickwit_field mapping_with
quickwit_field-name k string = refl
quickwit_field-name k text = refl
quickwit_field-name k u64 = refl
quickwit_field-name k i64 = refl
quickwit_field-name k timestamp = refl
quickwit_field-name k fast_timestamp = refl
quickwit_field-name k json_object = refl

mappings_of-absent :
    (n : Bytes) (l : List (Bytes × TantivyType))
    → absent n l ≡ true
    → mappings_of n (map quickwit_field l) ≡ []
unfolding absent
mappings_of-absent n [] h = refl
mappings_of-absent n ((k, t) ∷ l) h =
    ground (arith, quickwit_field-name k t, mappings_of-absent n l)

mappings_of-distinct :
    (n : Bytes) (t : TantivyType) (l : List (Bytes × TantivyType))
    → distinct l ≡ true
    → lookup n l ≡ some t
    → mappings_of n (map quickwit_field l) ≡ quickwit_field (n, t) ∷ []
unfolding distinct lookup
mappings_of-distinct n t [] h e = cc e
mappings_of-distinct n t ((k, u) ∷ l) h e = elim (Bool-cases (text_eq k n)) [
  | inl same ↦
      ground
        (arith, text_eq_iff k n, text_eq_iff n k, quickwit_field-name k u, mappings_of-absent k l)
  | inr other ↦
      ground (
        arith,
        text_eq_iff k n,
        text_eq_iff n k,
        quickwit_field-name k u,
        mappings_of-distinct n t l,
      )
]

-- Each column that has a storage type has exactly one mapping in the index, the one for that type.
pub quickwit_mapping_unique :
    (n : Bytes) (t : TantivyType)
    → lookup n document_schema.tantivy_fields ≡ some t
    → mappings_of n quickwit_mapping ≡ quickwit_field (n, t) ∷ []
unfolding quickwit_mapping
quickwit_mapping_unique n t e =
    mappings_of-distinct n t document_schema.tantivy_fields
      (unfold distinct absent document_schema text_eq in refl) e
