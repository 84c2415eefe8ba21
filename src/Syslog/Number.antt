-- ===== src/Syslog/Number.antt =====
-- `str::parse` into unsigned integers, as the standard library defines it: an optional `+`, then
-- decimal digits, with a value that fits.
use yaffle.Base.{
  ℕ, ◌+◌, ◌-◌, ◌*◌, ◌^◌, ◌≤◌, ◌≡◌, Bool, true, [], ◌∷◌, Bytes, within, all, leb, nat_eq,
  if◌then◌else◌, arith, Result, ok, err,
}

abbrev pub is_dec : ℕ → Bool
is_dec = within b'0' b'9'

-- the value of a row of digits, from the left
abbrev pub decimal_from : ℕ → Bytes → ℕ
decimal_from acc [] = acc
decimal_from acc (c ∷ s) = decimal_from (acc * 10 + (c - b'0')) s

abbrev pub decimal : Bytes → ℕ
decimal = decimal_from 0

abbrev pub u8_max : ℕ
u8_max = 2 ^ 8 - 1

abbrev pub u64_max : ℕ
u64_max = 2 ^ 64 - 1

-- `ParseIntError`
pub data ParseIntError : Type 0 where
  empty invalid_digit pos_overflow : ParseIntError

digits_value : ℕ → Bytes → Result ParseIntError ℕ
digits_value max s =
    if all is_dec s
    then (if leb (decimal s) max then ok (decimal s) else err pos_overflow)
    else err invalid_digit

parse_digits : ℕ → Bytes → Result ParseIntError ℕ
unfolding digits_value
parse_digits max [] = err invalid_digit
parse_digits max (c ∷ s) = digits_value max (c ∷ s)

unfoldable pub parse_uint : ℕ → Bytes → Result ParseIntError ℕ
unfolding parse_digits digits_value
parse_uint max [] = err empty
parse_uint max (c ∷ s) = if nat_eq c b'+' then parse_digits max s else digits_value max (c ∷ s)

-- On a row of digits.
pub parse_uint_lem :
    (max c : ℕ) (s : Bytes)
    → all is_dec (c ∷ s) ≡ true
    → parse_uint max (c ∷ s)
      ≡ (if leb (decimal (c ∷ s)) max then ok (decimal (c ∷ s)) else err pos_overflow)
unfolding parse_uint
parse_uint_lem max c s h = ground arith

-- What is read fits.
pub parse_uint-le : (max : ℕ) (s : Bytes) (n : ℕ) → parse_uint max s ≡ ok n → n ≤ max
unfolding parse_uint
parse_uint-le max [] n e = cc e
parse_uint-le max (c ∷ []) n e = ground arith
parse_uint-le max (c ∷ d ∷ s) n e = ground arith
