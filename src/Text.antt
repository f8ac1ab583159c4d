-- ===== src/Text.antt =====
-- Texts as lists of bytes, and what the code uses of Rust's `str`: its UTF-8 check.
pub mod Decimal
use Prim.Native.Char.{code}
use Prim.Native.String.{String}
use esp_rf_ook.Prelude.{
  ℕ, zero, suc, Bool, true, false, ◌&&◌, Option, none, some, List, [], ◌∷◌, ltb, leb, if◌then◌else◌,
}

-- The code points of a literal: its bytes, as every literal of the program is ASCII.
abbrev pub codes : String → List ℕ
codes String.[] = []
codes (String.◌∷◌ c s) = code c ∷ codes s

-- How many bytes follow a first byte of UTF-8, and the range of the next one.
lead : ℕ → Option (ℕ × ℕ × ℕ)
lead b =
    if ltb b 0x80
    then some (0, 0x80, 0xbf)
    else if ltb b 0xc2
    then none
    else if ltb b 0xe0
    then some (1, 0x80, 0xbf)
    else if ltb b 0xe1
    then some (2, 0xa0, 0xbf)
    else if ltb b 0xed
    then some (2, 0x80, 0xbf)
    else if ltb b 0xee
    then some (2, 0x80, 0x9f)
    else if ltb b 0xf0
    then some (2, 0x80, 0xbf)
    else if ltb b 0xf1
    then some (3, 0x90, 0xbf)
    else if ltb b 0xf4
    then some (3, 0x80, 0xbf)
    else if ltb b 0xf5
    then some (3, 0x80, 0x8f)
    else none

is_utf8_from : ℕ → ℕ → ℕ → List ℕ → Bool
unfolding lead
is_utf8_from zero lo hi [] = true
is_utf8_from (suc n) lo hi [] = false
is_utf8_from zero lo hi (b ∷ bs) = elim (lead b) [
  | none ↦ false
  | some (n, lo', hi') ↦ is_utf8_from n lo' hi' bs
]
is_utf8_from (suc n) lo hi (b ∷ bs) = (leb lo b && leb b hi) && is_utf8_from n 0x80 0xbf bs

unfoldable pub is_utf8 : List ℕ → Bool
unfolding is_utf8_from
is_utf8 = is_utf8_from 0 0 0

unfoldable pub from_utf8 : List ℕ → Option (List ℕ)
from_utf8 bs = if is_utf8 bs then some bs else none
