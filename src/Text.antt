-- ===== src/Text.antt =====
-- Texts as lists of code points, for the code that searches, prints and parses them.
pub mod Decimal
pub mod Contains
pub mod Strip
use Prim.Native.Char.{code}
use Prim.Native.String.{String}
use rpinode.Prelude.{
  ℕ, zero, suc, ◌+◌, ◌-◌, ◌*◌, ◌/◌, ◌%◌, Bool, true, false, ◌&&◌, ◌||◌, List, [], ◌∷◌, ◌++◌, leb,
  ltb, ◌==◌, if◌then◌else◌,
}

abbrev pub Text : Type 0
Text = List ℕ

abbrev pub codes : String → Text
codes String.[] = []
codes (String.◌∷◌ c s) = code c ∷ codes s

-- Python's `==` on two texts.
unfoldable pub text_eq : Text → Text → Bool
text_eq [] [] = true
text_eq [] (b ∷ t) = false
text_eq (a ∷ s) [] = false
text_eq (a ∷ s) (b ∷ t) = a == b && text_eq s t

-- `s.startswith(prefix)`
unfoldable pub starts_with : Text → Text → Bool
starts_with s [] = true
starts_with [] (b ∷ prefix) = false
starts_with (a ∷ s) (b ∷ prefix) = a == b && starts_with s prefix

-- `needle in s`
unfoldable pub contains : Text → Text → Bool
unfolding starts_with
contains needle [] = starts_with [] needle
contains needle (a ∷ s) = starts_with (a ∷ s) needle || contains needle s

abbrev pub is_digit : ℕ → Bool
is_digit c = leb b'0' c && leb c b'9'

-- `str(n)`: the digits of n, with room for one more digit than n needs.
decimal_from : ℕ → ℕ → Text → Text
decimal_from zero n acc = acc
decimal_from (suc fuel) n acc =
    let more = decimal_from fuel (n / 10) ((b'0' + n % 10) ∷ acc) in
    if ltb n 10 then (b'0' + n) ∷ acc else more

unfoldable pub decimal : ℕ → Text
unfolding decimal_from
decimal n = decimal_from (suc n) n []

-- `int(digits)` of a row of digits.
unfoldable pub number_from : ℕ → Text → ℕ
number_from acc [] = acc
number_from acc (c ∷ s) = number_from (acc * 10 + (c - b'0')) s

unfoldable pub number : Text → ℕ
unfolding number_from
number s = number_from 0 s

-- A hexadecimal digit, in lower case from `a`, or in upper case from `A`.
abbrev pub hex_digit : ℕ → ℕ → ℕ
hex_digit letter d = if ltb d 10 then b'0' + d else letter + (d - 10)

abbrev pub is_hex : ℕ → Bool
is_hex c = is_digit c || (leb b'a' c && leb c b'f') || (leb b'A' c && leb c b'F')

-- `s.upper()` of hexadecimal digits.
unfoldable pub upper : Text → Text
upper [] = []
upper (c ∷ s) = (if leb b'a' c && leb c b'f' then c - 32 else c) ∷ upper s

-- `s.lower()` of a text of ASCII.
abbrev pub lower : Text → Text
lower [] = []
lower (c ∷ s) = (if leb b'A' c && leb c b'Z' then c + 32 else c) ∷ lower s

-- White space of ASCII.
abbrev pub is_space : ℕ → Bool
is_space c = (leb 9 c && leb c 13) || (leb 28 c && leb c 32)

abbrev lstrip : Text → Text
lstrip [] = []
lstrip (c ∷ s) = let rest = lstrip s in if is_space c then rest else c ∷ s

abbrev strip_before : ℕ → Text → Text
strip_before c [] = if is_space c then [] else c ∷ []
strip_before c (d ∷ s) = c ∷ d ∷ s

abbrev rstrip : Text → Text
rstrip [] = []
rstrip (c ∷ s) = strip_before c (rstrip s)

-- `s.strip()`
unfoldable pub strip : Text → Text
strip s = rstrip (lstrip s)
