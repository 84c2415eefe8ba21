-- ===== src/Syslog/Nom/Reference.antt =====
-- The words in which nom's documentation says what its parsers accept, on byte slices.
use yaffle.Base.{
  ℕ, zero, suc, ◌-◌, Bool, Option, none, some, List, [], ◌∷◌, Bytes, Result, ok, err, length, take,
  nat_eq, leb, if◌then◌else◌,
}

-- What is left, and what was read; `none` if the parser gives an error.
abbrev pub Found : Type 0 → Type 0
Found A = Option (Bytes × A)

-- one parser after another
abbrev pub seq : {A B : Type 0} → Found A → (Bytes → A → Found B) → Found B
seq none f = none
seq (some (r, a)) f = f r a

-- what is left behind the text `t`
abbrev pub strip_prefix : Bytes → Bytes → Option Bytes
strip_prefix [] i = some i
strip_prefix (c ∷ t) [] = none
strip_prefix (c ∷ t) (d ∷ i) = if nat_eq c d then strip_prefix t i else none

abbrev with_text : Bytes → Option Bytes → Found Bytes
with_text t none = none
with_text t (some r) = some (r, t)

abbrev pub read_tag : Bytes → Bytes → Found Bytes
read_tag t i = with_text t (strip_prefix t i)

abbrev pub read_char : ℕ → Bytes → Found ℕ
read_char c [] = none
read_char c (d ∷ i) = if nat_eq d c then some (i, c) else none

-- the longest front of at most `n` bytes that pass the test, and what is left
abbrev cons_fst : ℕ → Bytes × Bytes → Bytes × Bytes
cons_fst c (s, r) = (c ∷ s, r)

abbrev pub span : (ℕ → Bool) → Bytes → Bytes × Bytes
span p [] = ([], [])
span p (c ∷ i) = if p c then cons_fst c (span p i) else ([], c ∷ i)

abbrev pub span_upto : ℕ → (ℕ → Bool) → Bytes → Bytes × Bytes
span_upto zero p i = ([], i)
span_upto (suc n) p [] = ([], [])
span_upto (suc n) p (c ∷ i) = if p c then cons_fst c (span_upto n p i) else ([], c ∷ i)

abbrev pub nonempty : Bytes × Bytes → Found Bytes
nonempty ([], r) = none
nonempty (c ∷ s, r) = some (r, c ∷ s)

abbrev pub read_while1 : (ℕ → Bool) → Bytes → Found Bytes
read_while1 p i = nonempty (span p i)

abbrev at_least : ℕ → Bytes × Bytes → Found Bytes
at_least lo (s, r) = if leb lo (length s) then some (r, s) else none

abbrev pub read_while_m_n : ℕ → ℕ → (ℕ → Bool) → Bytes → Found Bytes
read_while_m_n lo hi p i = at_least lo (span_upto hi p i)

-- up to the first place where the text `t` stands, which is left
abbrev later : ℕ → Found Bytes → Found Bytes
later c none = none
later c (some (r, s)) = some (r, c ∷ s)

abbrev here_or : Bytes → Option Bytes → Found Bytes → Found Bytes
here_or i none next = next
here_or i (some _) next = some (i, [])

abbrev pub read_until : Bytes → Bytes → Found Bytes
read_until t [] = here_or [] (strip_prefix t []) none
read_until t (c ∷ i) = here_or (c ∷ i) (strip_prefix t (c ∷ i)) (later c (read_until t i))

abbrev pub read_opt : {A : Type 0} → Bytes → Found A → Bytes × Option A
read_opt i none = (i, none)
read_opt i (some (r, a)) = (r, some a)

abbrev pub read_res : {X B : Type 0} → Bytes → Result X B → Found B
read_res r (ok b) = some (r, b)
read_res r (err e) = none

abbrev pub first_of_all : {A : Type 0} → List (Found A) → Found A
first_of_all [] = none
first_of_all (none ∷ os) = first_of_all os
first_of_all (some a ∷ os) = some a

-- the front of `i` up to where `r` is left
abbrev pub consumed : Bytes → Bytes → Bytes
consumed i r = take (length i - length r) i
