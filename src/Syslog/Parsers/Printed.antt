-- ===== src/Syslog/Parsers/Printed.antt =====
-- How a timestamp of RFC 3164 is printed.
use yaffle.Base.{
  ℕ, zero, suc, ◌+◌, ◌/◌, ◌%◌, ◌<◌, ◌≡◌, refl, ap, ◌∙◌, true, List, [], ◌∷◌, ◌++◌, some, Bytes, All,
  all, arith, ltb, if◌then◌else◌, ok, codes, length, take, length-append, append_assoc, subst,
  from_utf8-ascii, get_elem?,
}
use mathlib.Core.Option.{some_inj}
use yaffle.Syslog.Nom.Reference.{consumed}
use yaffle.Syslog.Number.{is_dec, decimal}
use yaffle.Syslog.Parsers.{month, utf8}

-- the months of RFC 3164, each with its number
abbrev pub months : List (ℕ × Bytes)
months =
    (1, codes "Jan")
    ∷ (2, codes "Feb")
    ∷ (3, codes "Mar")
    ∷ (4, codes "Apr")
    ∷ (5, codes "May")
    ∷ (6, codes "Jun")
    ∷ (7, codes "Jul")
    ∷ (8, codes "Aug")
    ∷ (9, codes "Sep")
    ∷ (10, codes "Oct")
    ∷ (11, codes "Nov")
    ∷ (12, codes "Dec")
    ∷ []

abbrev pub two : ℕ → Bytes
two n = (b'0' + n / 10) ∷ (b'0' + n % 10) ∷ []

-- a day below 10 has a blank in place of its first digit
abbrev pub day_text : ℕ → Bytes
day_text d = if ltb d 10 then b' ' ∷ (b'0' + d) ∷ [] else two d

abbrev pub clock : ℕ → ℕ → ℕ → Bytes
clock h m s = two h ++ (b':' ∷ (two m ++ (b':' ∷ two s)))

abbrev pub stamp : Bytes → ℕ → ℕ → ℕ → ℕ → Bytes
stamp month d h m s = month ++ (b' ' ∷ (day_text d ++ (b' ' ∷ clock h m s)))

pub stamp_append :
    (month : Bytes) (d h m s : ℕ) (r : Bytes)
    → stamp month d h m s ++ (b' ' ∷ r)
      ≡ month ++ (b' ' ∷ (day_text d ++ (b' ' ∷ (clock h m s ++ (b' ' ∷ r)))))
stamp_append month d h m s r =
    append_assoc month _ _ ∙ ap (λ t. month ++ (b' ' ∷ t)) (append_assoc (day_text d) _ _)

pub All-get_elem? :
    {A : Type 0} (P : A → Type 0) (xs : List A) (i : ℕ) (a : A)
    → All P xs
    → get_elem? xs i ≡ some a
    → P a
All-get_elem? P [] i a h e = cc e
All-get_elem? P (x ∷ xs) zero a (here, h) e = subst P (some_inj.0 e) here
All-get_elem? P (x ∷ xs) (suc i) a (here, h) e = All-get_elem? P xs i a h e

pub two-digits : (n : ℕ) → n < 100 → all is_dec (two n) ≡ true
two-digits n h = ground arith

pub two-decimal : (n : ℕ) → n < 100 → decimal (two n) ≡ n
two-decimal n h = omega arith

pub take-length : (t r : Bytes) → take (length t) (t ++ r) ≡ t
take-length [] r = refl
take-length (c ∷ t) r = ap (◌∷◌ c) (take-length t r)

pub consumed-append : (t r : Bytes) → consumed (t ++ r) r ≡ t
consumed-append t r = ap (λ n. take n (t ++ r)) (omega (arith, length-append t r)) ∙ take-length t r

pub utf8-clock : (h m s : ℕ) → h < 100 → m < 100 → s < 100 → utf8 (clock h m s) ≡ ok (clock h m s)
utf8-clock h m s hh hm hs = rw (from_utf8-ascii (clock h m s) (ground arith)) refl
