-- ===== src/App/Cookies/Kept.antt =====
-- The set of columns that a page writes into its cookie is the set that the next page reads.
use yaffle.Base.{
  ℕ, zero, suc, ◌≡◌, ◌≢◌, refl, ap, ◌∙◌, Bool, true, false, ◌&&◌, List, [], ◌∷◌, ◌++◌, append-nil,
  Option, none, some, Bytes, All, All-append, concat, map, all, nat_eq, text_eq, codes, split, join,
  Lacks, split-join, replicate, arith,
}
use yaffle.Base.HashSet.{from_iter}
use yaffle.App.Columns.{AppState}
use yaffle.App.Cookies.{
  state_from, state_or, app_state_from_cookies, extract_on_server, extract_in_browser, cookie_text,
  is_word, is_plain, ReadsPlain,
}

abbrev pub is_cols : Option (Bytes × Bytes) → Bool
is_cols none = false
is_cols (some (name, value)) = text_eq name (codes "cols")

abbrev pub IsName : Bytes → Type 0
IsName s = all is_word s ≡ true

plain-Lacks : (s : Bytes) → all is_plain s ≡ true → Lacks b';' s
plain-Lacks [] h = tt
plain-Lacks (c ∷ s) h = ground (arith, plain-Lacks s)

name-Lacks : (s : Bytes) → IsName s → Lacks b',' s
name-Lacks [] h = tt
name-Lacks (c ∷ s) h = ground (arith, name-Lacks s)

all-append : (p : ℕ → Bool) (s t : Bytes) → all p (s ++ t) ≡ (all p s && all p t)
all-append p [] t = refl
all-append p (c ∷ s) t = ground (arith, all-append p s t)

name-plain : (s : Bytes) → IsName s → all is_plain s ≡ true
name-plain [] h = refl
name-plain (c ∷ s) h = ground (arith, name-plain s)

join-plain : (listed : List Bytes) → All IsName listed → all is_plain (join b',' listed) ≡ true
join-plain [] h = refl
join-plain (s ∷ []) (here, h) = name-plain s here
join-plain (s ∷ t ∷ listed) (here, h) = ground (
  arith,
  all-append is_plain s (b',' ∷ join b',' (t ∷ listed)),
  name-plain s here,
  join-plain (t ∷ listed) h,
)

blanks-Lacks : (n : ℕ) (s : Bytes) → Lacks b';' s → Lacks b';' (replicate n b' ' ++ s)
blanks-Lacks zero s h = h
blanks-Lacks (suc n) s h = (refl, blanks-Lacks n s h)

middle-ne-nil : (before after : List Bytes) (ck : Bytes) → before ++ (ck ∷ after) ≢ []
middle-ne-nil [] after ck = cc
middle-ne-nil (c ∷ before) after ck = cc

All-names : (listed : List Bytes) → All IsName listed → All (Lacks b',') listed
All-names [] h = tt
All-names (s ∷ listed) (here, h) = (name-Lacks s here, All-names listed h)

-- cookies, with that for the listed columns behind `n` blanks among them
abbrev pub kept : List Bytes → List Bytes → List Bytes → ℕ → List Bytes
kept before after listed n = before ++ ((replicate n b' ' ++ cookie_text listed) ∷ after)

module _ (parse_encoded : Bytes → Option (Bytes × Bytes)) (R : ReadsPlain parse_encoded) where
  blanks : (n : ℕ) (s : Bytes) → parse_encoded (replicate n b' ' ++ s) ≡ parse_encoded s
  blanks zero s = refl
  blanks (suc n) s = R.blank (replicate n b' ' ++ s) ∙ blanks n s

  state_or_other :
      (later : AppState) (o : Option (Bytes × Bytes))
      → is_cols o ≡ false
      → state_or parse_encoded later o ≡ later
  state_or_other later none h = refl
  state_or_other later (some (name, value)) h = rw h refl

  state_from_cols :
      (before after : List Bytes) (ck value : Bytes)
      → All (λ c. is_cols (parse_encoded c) ≡ false) before
      → parse_encoded ck ≡ some (codes "cols", value)
      → state_from parse_encoded (before ++ (ck ∷ after))
        ≡ record { cols_enabled = from_iter (split b',' value) }
  unfolding state_from text_eq
  state_from_cols [] after ck value h read = rw read refl
  state_from_cols (c ∷ before) after ck value (here, h) read =
      state_or_other (state_from parse_encoded (before ++ (ck ∷ after))) (parse_encoded c) here
      ∙ state_from_cols before after ck value h read

  module _ (before after listed : List Bytes) (n : ℕ) where
    -- A page that shows some columns sets the cookie to their names, in whatever order. Behind
    -- cookies with other names, blanks and before any others, in the document's cookies or in a
    -- request's header, the server and the browser read the same set from it: the names are words.
    -- The library reads a plain text `name=value` as that name and value.
    pub extract-cookie_text :
        listed ≢ []
        → All IsName listed
        → All (λ c. is_cols (parse_encoded c) ≡ false) before
        → All (Lacks b';') before
        → All (Lacks b';') after
        → (extract_in_browser parse_encoded (some (join b';' (kept before after listed n)))
            ≡ record { cols_enabled = from_iter listed })
          × (extract_on_server parse_encoded
                (some (some (join b';' (kept before after listed n)) ∷ []))
              ≡ record { cols_enabled = from_iter listed })
    unfolding extract_in_browser extract_on_server app_state_from_cookies cookie_text
    extract-cookie_text some_column names other front back = (read, read)
      where
        parsed :
            parse_encoded (replicate n b' ' ++ cookie_text listed)
            ≡ some (codes "cols", join b',' listed)
        parsed =
            blanks n (cookie_text listed)
            ∙ R.plain (codes "cols") (join b',' listed) (cc) refl (join-plain listed names)

        no_separator : Lacks b';' (replicate n b' ' ++ cookie_text listed)
        no_separator = blanks-Lacks n (cookie_text listed) (
            All-append (λ c. nat_eq c b';' ≡ false) (codes "cols") (b'=' ∷ join b',' listed)
              (plain-Lacks (codes "cols") refl)
              (refl, plain-Lacks (join b',' listed) (join-plain listed names)))

        cookies : split b';' (join b';' (kept before after listed n)) ≡ kept before after listed n
        cookies =
            split-join b';' (kept before after listed n) (middle-ne-nil before after _)
              (All-append (Lacks b';') before _ front (no_separator, back))

        read :
            state_from parse_encoded
              (concat (map (split b';') (join b';' (kept before after listed n) ∷ [])))
            ≡ record { cols_enabled = from_iter listed }
        read =
            rw (cookies, append-nil)
              (state_from_cols before after _ (join b',' listed) other parsed
                ∙ ap (λ l. record { cols_enabled = from_iter l })
                    (split-join b',' listed some_column (All-names listed names)))
