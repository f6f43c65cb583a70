-- ===== src/UniqueId/Text.antt =====
-- uniqueid/uniqueid.go: an id as text. A string is a list of bytes, an `ID` a number below 2^64.
pub mod RoundTrip
mod Examples
use framego.Prelude.{
  ℕ, zero, suc, ◌+◌, ◌-◌, ◌*◌, ◌/◌, ◌%◌, ◌^◌, ◌&&◌, List, [], ◌∷◌, Option, none, some, ltb, leb,
  ◌==◌, if◌then◌else◌,
}

pub data ParseError : Type 0 where
  syntax range : ParseError

-- `strconv.ParseUint` in base 16 at 64 bits: it stops at the first byte that is no digit, and at
-- the first digit that no longer fits, and then returns the largest value with its error.
pub hex_value : ℕ → Option ℕ
hex_value c =
    if leb b'0' c && leb c b'9'
    then some (c - b'0')
    else if leb b'a' c && leb c b'f'
    then some (c - b'a' + 10)
    else if leb b'A' c && leb c b'F'
    then some (c - b'A' + 10)
    else none

pub parse_digits : ℕ → List ℕ → ℕ × Option ParseError
parse_digits n [] = (n, none)
parse_digits n (c ∷ cs) = elim (hex_value c) [
  | none ↦ (0, some syntax)
  | some d ↦ if leb (2 ^ 60) n then (2 ^ 64 - 1, some range) else parse_digits (n * 16 + d) cs
]

parse_uint : List ℕ → ℕ × Option ParseError
unfolding parse_digits
parse_uint [] = (0, some syntax)
parse_uint (c ∷ cs) = parse_digits 0 (c ∷ cs)

pub parse_id : List ℕ → ℕ × Option ParseError
unfolding parse_uint
parse_id id = parse_uint id

pub parse_id_optional : List ℕ → ℕ × Option ParseError
unfolding parse_id
parse_id_optional [] = (0, none)
parse_id_optional (c ∷ cs) = parse_id (c ∷ cs)

pub parse_id_safe : List ℕ → ℕ
unfolding parse_uint
parse_id_safe id = (parse_uint id).0

pub hex_digit : ℕ → ℕ
hex_digit d = if ltb d 10 then b'0' + d else b'a' + (d - 10)

-- The `k` lowest hexadecimal digits, highest first.
pub hex_digits : ℕ → ℕ → List ℕ
unfolding hex_digit
hex_digits zero h = []
hex_digits (suc k) h = hex_digit (h / 16 ^ k % 16) ∷ hex_digits k h

-- `fmt.Sprintf("%016x", h)` of a 64-bit number.
pub string : ℕ → List ℕ
unfolding hex_digits
string h = hex_digits 16 h

pub string_or_empty : ℕ → List ℕ
unfolding string
string_or_empty h = if h == 0 then [] else string h
