-- ===== src/Base/Utf8.antt =====
-- Texts as the bytes of their UTF-8: `str::from_utf8`, `String::from_utf8_lossy`, decimal digits.
use Prim.Native.Char.{code}
use Prim.Native.Nat.{ℕ, zero, suc, ◌-◌}
use Prim.Native.String.{String}
use mathlib.Core.Path.{◌≡◌, refl}
use mathlib.Core.Bool.{Bool, true, false, ◌&&◌}
use mathlib.Core.List.{[], ◌∷◌, ◌++◌}
use mathlib.Core.Option.{Option, none, some}
use native.Mathlib.Omega.{arith}
use yaffle.Base.Tests.{ltb, leb, nat_eq, if◌then◌else◌}
use yaffle.Base.Lists.{Bytes, all}

-- The bytes of a literal; every literal of the source that the model spells is ASCII.
abbrev pub codes : String → Bytes
codes String.[] = []
codes (String.◌∷◌ letter text) = code letter ∷ codes text

abbrev pub within : ℕ → ℕ → ℕ → Bool
within lo hi c = leb lo c && leb c hi

abbrev pub is_ascii : ℕ → Bool
is_ascii c = ltb c 0x80

-- How the bytes at the front of a text decode: a character of that many bytes, or an invalid
-- sequence of that many bytes (the longest prefix of a character), as `core::str` scans them.
pub data Front : Type 0 where
  valid invalid : ℕ → Front

abbrev cont : Bytes → Bool
cont [] = false
cont (c ∷ _) = within 0x80 0xbf c

abbrev tail : Bytes → Bytes
tail [] = []
tail (_ ∷ cs) = cs

abbrev second : ℕ → ℕ → Bytes → Bool
second lo hi [] = false
second lo hi (c ∷ _) = within lo hi c

-- the range of the second byte by the first
abbrev second_ok : ℕ → Bytes → Bool
second_ok b cs =
    if nat_eq b 0xe0
    then second 0xa0 0xbf cs
    else if nat_eq b 0xed
    then second 0x80 0x9f cs
    else if nat_eq b 0xf0
    then second 0x90 0xbf cs
    else if nat_eq b 0xf4
    then second 0x80 0x8f cs
    else cont cs

pub front : ℕ → Bytes → Front
front b cs =
    if is_ascii b
    then valid 1
    else if within 0xc2 0xdf b
    then (if cont cs then valid 2 else invalid 1)
    else if within 0xe0 0xef b
    then (if second_ok b cs then (if cont (tail cs) then valid 3 else invalid 2) else invalid 1)
    else if within 0xf0 0xf4 b
    then (if second_ok b cs
        then (if cont (tail cs)
            then (if cont (tail (tail cs)) then valid 4 else invalid 3)
            else invalid 2)
        else invalid 1)
    else invalid 1

-- U+FFFD
abbrev replacement : Bytes
replacement = 0xef ∷ 0xbf ∷ 0xbd ∷ []

-- One pass over the text. `keep` bytes are still to be copied and `skip` to be dropped.
lossy : ℕ → ℕ → Bytes → Bytes
lossy keep skip [] = []
lossy (suc keep) skip (b ∷ cs) = b ∷ lossy keep skip cs
lossy zero (suc skip) (b ∷ cs) = lossy zero skip cs
lossy zero zero (b ∷ cs) = elim (front b cs) [
  | valid n ↦ b ∷ lossy (n - 1) 0 cs
  | invalid n ↦ replacement ++ lossy 0 (n - 1) cs
]

-- `String::from_utf8_lossy`
unfoldable pub from_utf8_lossy : Bytes → Bytes
unfolding lossy front
from_utf8_lossy = lossy 0 0

is_utf8 : ℕ → Bytes → Bool
is_utf8 keep [] = true
is_utf8 (suc keep) (b ∷ cs) = is_utf8 keep cs
is_utf8 zero (b ∷ cs) = elim (front b cs) [ valid n ↦ is_utf8 (n - 1) cs | invalid n ↦ false ]

-- `std::str::from_utf8(..).ok()`
unfoldable pub from_utf8 : Bytes → Option Bytes
unfolding is_utf8 front
from_utf8 s = if is_utf8 0 s then some s else none

lossy-ascii : (s : Bytes) → all is_ascii s ≡ true → lossy 0 0 s ≡ s
unfolding lossy front
lossy-ascii [] h = refl
lossy-ascii (b ∷ cs) h = ground (arith, lossy-ascii cs)

-- A text of ASCII bytes is kept as it is.
pub from_utf8_lossy-ascii : (s : Bytes) → all is_ascii s ≡ true → from_utf8_lossy s ≡ s
unfolding from_utf8_lossy
from_utf8_lossy-ascii = lossy-ascii

is_utf8-ascii : (s : Bytes) → all is_ascii s ≡ true → is_utf8 0 s ≡ true
unfolding is_utf8 front
is_utf8-ascii [] h = refl
is_utf8-ascii (b ∷ cs) h = ground (arith, is_utf8-ascii cs)

pub from_utf8-ascii : (s : Bytes) → all is_ascii s ≡ true → from_utf8 s ≡ some s
unfolding from_utf8
from_utf8-ascii s h = rw (is_utf8-ascii s h)

lossy_test :
    from_utf8_lossy (0x61 ∷ 0xc3 ∷ 0xa9 ∷ 0xe2 ∷ 0x82 ∷ 0x62 ∷ 0xff ∷ [])
    ≡ 0x61 ∷ 0xc3 ∷ 0xa9 ∷ 0xef ∷ 0xbf ∷ 0xbd ∷ 0x62 ∷ 0xef ∷ 0xbf ∷ 0xbd ∷ []
unfolding from_utf8_lossy
lossy_test = refl
