-- ===== src/Server/Search/Order.antt =====
-- `field_custom_sort` orders distinct names in one way, with `source_timestamp` first.
use yaffle.Base.{
  ◌++◌, ◌≡◌, refl, ap, ◌∙◌, Bool, true, false, List, [], ◌∷◌, Bytes, text_eq, text_eq_iff,
  if◌then◌else◌, codes, arith, ◌⊎◌, inl, inr, Bool-cases,
}
use mathlib.Core.List.{Permᴰ}
use yaffle.Server.Search.{
  Ordering, less, equal, greater, cmp, field_custom_sort, insert_by, sort_by,
}

-- `cmp` is a total order.
cmp_same : (a : Bytes) → cmp a a ≡ equal
unfolding cmp
cmp_same [] = refl
cmp_same (x ∷ a) = ground (arith, cmp_same a)

cmp-equal : (a b : Bytes) → cmp a b ≡ equal → a ≡ b
unfolding cmp
cmp-equal [] [] e = refl
cmp-equal [] (y ∷ b) e = cc e
cmp-equal (x ∷ a) [] e = cc e
cmp-equal (x ∷ a) (y ∷ b) e = ground (arith, cmp-equal a b)

cmp-less : (a b : Bytes) → cmp a b ≡ less → cmp b a ≡ greater
unfolding cmp
cmp-less [] [] e = cc e
cmp-less [] (y ∷ b) e = refl
cmp-less (x ∷ a) [] e = cc e
cmp-less (x ∷ a) (y ∷ b) e = ground (arith, cmp-less a b)

cmp-greater : (a b : Bytes) → cmp a b ≡ greater → cmp b a ≡ less
unfolding cmp
cmp-greater [] [] e = cc e
cmp-greater [] (y ∷ b) e = cc e
cmp-greater (x ∷ a) [] e = refl
cmp-greater (x ∷ a) (y ∷ b) e = ground (arith, cmp-greater a b)

cmp_trans : (a b c : Bytes) → cmp a b ≡ greater → cmp b c ≡ greater → cmp a c ≡ greater
unfolding cmp
cmp_trans [] [] c e f = cc e
cmp_trans [] (y ∷ b) c e f = cc e
cmp_trans (x ∷ a) [] [] e f = refl
cmp_trans (x ∷ a) [] (z ∷ c) e f = cc f
cmp_trans (x ∷ a) (y ∷ b) [] e f = refl
cmp_trans (x ∷ a) (y ∷ b) (z ∷ c) e f = ground (arith, cmp_trans a b c)

abbrev is_greater : Ordering → Bool
is_greater less = false
is_greater equal = false
is_greater greater = true

pub behind : Bytes → Bytes → Bool
behind a b = is_greater (field_custom_sort a b)

abbrev pub first : Bytes
first = codes "source_timestamp"

behind_lem :
    (a b : Bytes)
    → behind a b
      ≡ (if text_eq a first then false else if text_eq b first then true else is_greater (cmp a b))
unfolding behind field_custom_sort
behind_lem a b = ground arith

-- Of two names one is behind the other, unless they are the same.
behind_cases :
    (a b : Bytes)
    → (a ≡ b)
      ⊎ (((behind a b ≡ true) × (behind b a ≡ false))
          ⊎ ((behind a b ≡ false) × (behind b a ≡ true)))
behind_cases a b = ground (
  arith,
  behind_lem a b,
  behind_lem b a,
  text_eq_iff a first,
  text_eq_iff b first,
  cmp-equal a b,
  cmp-less a b,
  cmp-greater a b,
)

behind_trans : (a b c : Bytes) → behind a b ≡ true → behind b c ≡ true → behind a c ≡ true
behind_trans a b c e f =
    ground (arith, behind_lem a b, behind_lem b c, behind_lem a c, cmp_trans a b c)

pub insert_by-cons :
    (a b : Bytes) (l : List Bytes)
    → insert_by a (b ∷ l) ≡ (if behind a b then b ∷ insert_by a l else a ∷ b ∷ l)
unfolding insert_by behind
insert_by-cons a b l = ground arith

pub insert_by-nil : (a : Bytes) → insert_by a [] ≡ a ∷ []
unfolding insert_by
insert_by-nil a = refl

-- The order in which two names are inserted does not matter.
insert_by_comm :
    (a b : Bytes) (l : List Bytes) → insert_by a (insert_by b l) ≡ insert_by b (insert_by a l)
insert_by_comm a b [] = ground (
  arith,
  insert_by-nil a,
  insert_by-nil b,
  insert_by-cons a b [],
  insert_by-cons b a [],
  behind_cases a b,
)
insert_by_comm a b (c ∷ l) = ground (
  arith,
  insert_by-cons a c l,
  insert_by-cons b c l,
  insert_by-cons a c (insert_by b l),
  insert_by-cons b c (insert_by a l),
  insert_by-cons a b (c ∷ l),
  insert_by-cons b a (c ∷ l),
  behind_cases a b,
  behind_trans a b c,
  behind_trans b a c,
  insert_by_comm a b l,
)

-- The names come out in one order, whatever order the set gave them in.
pub sort_by_perm : {l m : List Bytes} → Permᴰ l m → sort_by l ≡ sort_by m
unfolding sort_by
sort_by_perm Permᴰ.nil = refl
sort_by_perm (Permᴰ.cons {b = b} e p) = rw e (ap (insert_by b) (sort_by_perm p))
sort_by_perm (Permᴰ.swap {a' = a'} {b' = b'} {l = l} e f) =
    rw (e, f) (insert_by_comm b' a' (sort_by l))
sort_by_perm (Permᴰ.trans p q) = sort_by_perm p ∙ sort_by_perm q

insert_by-cons_first :
    (a : Bytes) (l : List Bytes) → (m : List Bytes) × (insert_by a (first ∷ l) ≡ first ∷ m)
insert_by-cons_first a l = elim (Bool-cases (text_eq a first)) [
  | inl same ↦ (
    first ∷ l,
    ground (
      arith,
      insert_by-cons a first l,
      behind_lem a first,
      text_eq_iff a first,
      text_eq_iff first first,
    ),
  )
  | inr other ↦ (
    insert_by a l,
    ground (
      arith,
      insert_by-cons a first l,
      behind_lem a first,
      text_eq_iff a first,
      text_eq_iff first first,
    ),
  )
]

insert_by-first : (l : List Bytes) → (m : List Bytes) × (insert_by first l ≡ first ∷ m)
insert_by-first [] = ([], insert_by-nil first)
insert_by-first (b ∷ l) =
    (b ∷ l, ground (arith, insert_by-cons first b l, behind_lem first b, text_eq_iff first first))

-- `source_timestamp` comes out first.
pub sort_by-first : (l r : List Bytes) → (m : List Bytes) × (sort_by (l ++ (first ∷ r)) ≡ first ∷ m)
unfolding sort_by
sort_by-first [] r = insert_by-first (sort_by r)
sort_by-first (a ∷ l) r =
    let (m, e) = sort_by-first l r in
    let (k, f) = insert_by-cons_first a m in (k, ap (insert_by a) e ∙ f)
