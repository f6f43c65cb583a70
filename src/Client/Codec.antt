-- ===== src/Client/Codec.antt =====
-- client/cache/utils.go. `strconv` and `encoding/gob` are parameters.
pub mod RoundTrip
pub mod Widths
use framego.Prelude.{ℕ, ◌-◌, ◌*◌, ◌%◌, ◌<◌, ltb, List, Option, none, some, if◌then◌else◌}
use framego.Prelude.Int.{ℤ, pos, negsuc}
use framego.Prelude.Text.{Str}

pub data Width : Type 0 where
  w8 w16 w32 w64 : Width

-- Half the number of values of a width.
abbrev pub half : Width → ℕ
half w8 = 128
half w16 = 32768
half w32 = 2147483648
half w64 = 9223372036854775808

-- A value by its kind. A float is known by the float64 that it is as one, all
-- NaN being one; `other` is of a type that
-- gob encodes, with the type and the content.
pub data Value : Type 0 where
  byte_slice : Str → Value
  int : Width → ℤ → Value
  uint : Width → ℕ → Value
  float : Width → ℕ → Value
  string : Str → Value
  other : ℕ → ℕ → Value

-- What `Deserialize` is given to write to; gob decodes into what the target holds, by its type and its
-- content.
pub data Pointer : Type 0 where
  to_byte_slice : Pointer
  to_int : Width → Pointer
  to_uint : Width → Pointer
  to_float : Width → Pointer
  to_string : Pointer
  to_other : ℕ → ℕ → Pointer
  no_pointer : Pointer

-- Formatting and parsing with the arguments that the code gives, `none` for an error; `set_float` is what
-- `SetFloat` makes of a float64 in a float of the width.
pub record Codec : Type 0 where
  pub format_int : ℤ → Str
  pub parse_int : Str → Option ℤ
  pub format_uint : ℕ → Str
  pub parse_uint : Str → Option ℕ
  pub format_float : ℕ → Str
  pub parse_float : Str → Option ℕ
  pub set_float : Width → ℕ → ℕ
  pub gob_encode : ℕ → ℕ → Option Str
  pub gob_decode : Str → Pointer → Option Value

unfoldable pub serialize : Codec → Value → Option Str
serialize c (byte_slice b) = some b
serialize c (int w i) = some (c.format_int i)
serialize c (uint w u) = some (c.format_uint u)
serialize c (float w f) = some (c.format_float f)
serialize c (string s) = some s
serialize c (other t n) = c.gob_encode t n

abbrev pub low_int : ℕ → ℕ → ℤ
low_int h n = if ltb n h then pos n else negsuc (h * 2 - 1 - n)

-- `SetInt`, which keeps the low bits.
unfoldable pub set_int : Width → ℤ → ℤ
set_int w (pos n) = low_int (half w) (n % (half w * 2))
set_int w (negsuc n) = low_int (half w) (half w * 2 - 1 - n % (half w * 2))

-- `SetUint`.
unfoldable pub set_uint : Width → ℕ → ℕ
set_uint w n = n % (half w * 2)

abbrev pub int_value : Width → Option ℤ → Option Value
int_value w none = none
int_value w (some i) = some (int w (set_int w i))

abbrev pub uint_value : Width → Option ℕ → Option Value
uint_value w none = none
uint_value w (some u) = some (uint w (set_uint w u))

abbrev pub float_value : Codec → Width → Option ℕ → Option Value
float_value c w none = none
float_value c w (some f) = some (float w (c.set_float w f))

-- The value that is written, `none` for an error.
unfoldable pub deserialize : Codec → Str → Pointer → Option Value
unfolding set_int set_uint
deserialize c byt to_byte_slice = some (byte_slice byt)
deserialize c byt (to_int w) = int_value w (c.parse_int byt)
deserialize c byt (to_uint w) = uint_value w (c.parse_uint byt)
deserialize c byt (to_float w) = float_value c w (c.parse_float byt)
deserialize c byt to_string = some (string byt)
deserialize c byt (to_other t n) = c.gob_decode byt (to_other t n)
deserialize c byt no_pointer = c.gob_decode byt no_pointer
