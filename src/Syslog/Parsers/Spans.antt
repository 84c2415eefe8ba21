-- ===== src/Syslog/Parsers/Spans.antt =====
-- How far the byte tests reach, and which texts are ASCII.
use yaffle.Base.{
  ℕ, ◌≡◌, refl, Bool, true, false, [], ◌∷◌, ◌++◌, Bytes, all, is_ascii, arith, ok, from_utf8-ascii,
}
use yaffle.Syslog.Nom.Reference.{span}
use yaffle.Syslog.Number.{is_dec}
use yaffle.Syslog.Parsers.{utf8}

pub span-append :
    (p : ℕ → Bool) (s : Bytes) (c : ℕ) (r : Bytes)
    → all p s ≡ true
    → p c ≡ false
    → span p (s ++ (c ∷ r)) ≡ (s, c ∷ r)
span-append p [] c r h stop = rw stop
span-append p (d ∷ s) c r h stop = ground (arith, span-append p s c r)

pub is_ascii-is_dec : (s : Bytes) → all is_dec s ≡ true → all is_ascii s ≡ true
is_ascii-is_dec [] h = refl
is_ascii-is_dec (c ∷ s) h = ground (arith, is_ascii-is_dec s)

pub utf8-digits : (s : Bytes) → all is_dec s ≡ true → utf8 s ≡ ok s
utf8-digits s h = rw (from_utf8-ascii s (is_ascii-is_dec s h))
