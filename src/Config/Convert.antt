-- ===== src/Config/Convert.antt =====
-- What xcesp_l2tpv3d/config.py does with the values of a configuration: `int`, `float`, `bool`, `str`,
-- `lower`, `bytes.fromhex` and `ipaddress`.
use Prim.Native.Char.{code}
use Prim.Native.String.{String}
use xcesp_l2tpv3d.Common.{
  ℕ, suc, ◌+◌, ◌-◌, ◌*◌, ◌/◌, Bool, true, false, not, ◌&&◌, ◌||◌, Option, none, some, List, [], ◌∷◌,
  ltb, leb, ◌==◌, if◌then◌else◌,
}
use xcesp_l2tpv3d.Common.Int.{ℤ, pos, negsuc}
use xcesp_l2tpv3d.Struct.{Bytes, of_be32}
use xcesp_l2tpv3d.Config.Value.{
  Value, Float, finite, nan, infinite, string, integer, float, boolean, moment, array, table, nil,
  cons, end, entry,
}

-- What the standard library does with a text: `int`, `float` and `str` of a value that is no text,
-- and the recognition of an IPv6 address. `none` stands for a `ValueError`.
pub record Python : Type 0 where
  pub int_of_text : Bytes → Option ℤ
  pub float_of_text : Bytes → Option Float
  pub str_of : Value → Bytes
  pub is_ipv6_address : Bytes → Bool

-- The code points of an ASCII text.
abbrev pub codes : String → Bytes
codes String.[] = []
codes (String.◌∷◌ c s) = code c ∷ codes s

-- `str.lower`, of the letters that matter where the result is compared with an ASCII word.
unfoldable pub lower : Bytes → Bytes
lower [] = []
lower (c ∷ s) = (if leb b'A' c && leb c b'Z' then c + 32 else c) ∷ lower s

-- A number toward 0.
abbrev pub truncate : ℤ → ℤ
truncate (pos ms) = pos (ms / 1000)
truncate (negsuc ms) = if ltb (suc ms) 1000 then pos 0 else negsuc (suc ms / 1000 - 1)

abbrev pub is_zero : ℤ → Bool
is_zero (pos n) = n == 0
is_zero (negsuc n) = false

-- `bool(value)`
unfoldable pub truth : Value → Bool
truth (string []) = false
truth (string (b ∷ s)) = true
truth (integer n) = not (is_zero n)
truth (float (finite ms)) = not (is_zero ms)
truth (float nan) = true
truth (float infinite) = true
truth (boolean b) = b
truth (moment s) = true
truth (array nil) = false
truth (array (cons v vs)) = true
truth (table end) = false
truth (table (entry name v t)) = true

-- A character of `bytes.fromhex`: white space, a digit, or neither.
pub data HexClass : Type 0 where
  space : HexClass
  digit : ℕ → HexClass
  other : HexClass

unfoldable pub hex_class : ℕ → HexClass
hex_class c =
    if c == 32 || (leb 9 c && leb c 13)
    then space
    else if leb b'0' c && leb c b'9'
    then digit (c - b'0')
    else if leb b'a' c && leb c b'f'
    then digit (c - b'a' + 10)
    else if leb b'A' c && leb c b'F'
    then digit (c - b'A' + 10)
    else other

abbrev pub prefixed : ℕ → Option Bytes → Option Bytes
prefixed b none = none
prefixed b (some bytes) = some (b ∷ bytes)

-- `bytes.fromhex`, with the first digit of a byte where it stands between the two.
unfoldable pub from_hex_loop : Option ℕ → Bytes → Option Bytes
from_hex_loop none [] = some []
from_hex_loop (some high) [] = none
from_hex_loop none (c ∷ s) = elim (hex_class c) [
  | space ↦ from_hex_loop none s
  | digit high ↦ from_hex_loop (some high) s
  | other ↦ none
]
from_hex_loop (some high) (c ∷ s) = elim (hex_class c) [
  | digit low ↦ prefixed (16 * high + low) (from_hex_loop none s)
  | _ ↦ none
]

unfoldable pub from_hex : Bytes → Option Bytes
from_hex s = from_hex_loop none s

-- The value of a run of decimal digits.
unfoldable pub decimal : ℕ → Bytes → Option ℕ
decimal value [] = some value
decimal value (c ∷ s) =
    if leb b'0' c && leb c b'9' then decimal (10 * value + (c - b'0')) s else none

abbrev pub at_most_255 : Option ℕ → Option ℕ
at_most_255 none = none
at_most_255 (some n) = if leb n 255 then some n else none

-- An octet of `IPv4Address`: one to three digits, without a leading 0, and 255 at most.
unfoldable pub octet : Bytes → Option ℕ
octet (a ∷ []) = at_most_255 (decimal 0 (a ∷ []))
octet (a ∷ b ∷ []) = if a == b'0' then none else at_most_255 (decimal 0 (a ∷ b ∷ []))
octet (a ∷ b ∷ c ∷ []) = if a == b'0' then none else at_most_255 (decimal 0 (a ∷ b ∷ c ∷ []))
octet _ = none

abbrev pub onto_first : ℕ → List Bytes → List Bytes
onto_first c [] = (c ∷ []) ∷ []
onto_first c (part ∷ parts) = (c ∷ part) ∷ parts

-- `s.split(".")`
unfoldable pub split_dots : Bytes → List Bytes
split_dots [] = [] ∷ []
split_dots (c ∷ s) = if c == b'.' then [] ∷ split_dots s else onto_first c (split_dots s)

abbrev pub joined : Option ℕ → Option ℕ → Option ℕ → Option ℕ → Option ℕ
joined (some a) (some b) (some c) (some d) = some (of_be32 a b c d)
joined _ _ _ _ = none

-- `int(ipaddress.IPv4Address(s))`
unfoldable pub ipv4_address : Bytes → Option ℕ
ipv4_address s = elim (split_dots s) [
  | a ∷ b ∷ c ∷ d ∷ [] ↦ joined (octet a) (octet b) (octet c) (octet d)
  | _ ↦ none
]
