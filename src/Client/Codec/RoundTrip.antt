-- ===== src/Client/Codec/RoundTrip.antt =====
-- A value that is serialized is read back.
use framego.Prelude.{ℕ, ◌≡◌, refl, ap, sym, some, arith, some-eq}
use framego.Prelude.Int.{ℤ, pos, negsuc}
use framego.Prelude.Text.{Str}
use framego.Client.Codec.{
  Width, w64, w8, w16, w32, Codec, Value, Pointer, byte_slice, int, uint, float, string, other,
  to_byte_slice, to_int, to_uint, to_float, to_string, to_other, serialize, deserialize,
}
use framego.Client.Codec.Widths.{IsInt, IsUint, set_int-eq, set_uint-eq}

-- What strconv documents: what it writes it reads back, for a number of 64 bits.
pub record IsFaithful (c : Codec) : Type 0 where
  pub parse_int-format : (i : ℤ) → IsInt w64 i → c.parse_int (c.format_int i) ≡ some i
  pub parse_uint-format : (u : ℕ) → IsUint w64 u → c.parse_uint (c.format_uint u) ≡ some u
  pub parse_float-format : (f : ℕ) → c.parse_float (c.format_float f) ≡ some f

abbrev pub pointer_to : Value → Pointer
pointer_to (byte_slice b) = to_byte_slice
pointer_to (int w i) = to_int w
pointer_to (uint w u) = to_uint w
pointer_to (float w f) = to_float w
pointer_to (string s) = to_string
pointer_to (other t n) = to_other t n

-- A number is one of its width, and setting a float of its width to it keeps it; gob is not used.
abbrev pub IsValue : Codec → Value → Type 0
IsValue c (byte_slice b) = Unit {0}
IsValue c (int w i) = IsInt w i
IsValue c (uint w u) = IsUint w u
IsValue c (float w f) = c.set_float w f ≡ f
IsValue c (string s) = Unit {0}
IsValue c (other t n) = ⊥

widen-IsInt : (w : Width) (i : ℤ) → IsInt w i → IsInt w64 i
widen-IsInt w8 (pos n) h = ground arith
widen-IsInt w8 (negsuc n) h = ground arith
widen-IsInt w16 (pos n) h = ground arith
widen-IsInt w16 (negsuc n) h = ground arith
widen-IsInt w32 (pos n) h = ground arith
widen-IsInt w32 (negsuc n) h = ground arith
widen-IsInt w64 (pos n) h = h
widen-IsInt w64 (negsuc n) h = h

widen-IsUint : (w : Width) (n : ℕ) → IsUint w n → IsUint w64 n
widen-IsUint w8 n h = ground arith
widen-IsUint w16 n h = ground arith
widen-IsUint w32 n h = ground arith
widen-IsUint w64 n h = h

-- What `Serialize` makes of a value `Deserialize` reads back into a variable of its type; conditions: strconv reads back what it writes, the value's number is one of its width, and the value is not one that gob encodes.
pub deserialize-serialize :
    (c : Codec) (v : Value) (b : Str)
    → IsFaithful c
    → IsValue c v
    → serialize c v ≡ some b
    → deserialize c b (pointer_to v) ≡ some v
unfolding serialize deserialize
deserialize-serialize c (byte_slice s) b faithful h e =
    ap (λ (t : Str). some (byte_slice t)) (sym (some-eq e))
deserialize-serialize c (int w i) b faithful h e =
    rw (← some-eq e, faithful.parse_int-format i (widen-IsInt w i h), set_int-eq w i h) refl
deserialize-serialize c (uint w u) b faithful h e =
    rw (← some-eq e, faithful.parse_uint-format u (widen-IsUint w u h), set_uint-eq w u h) refl
deserialize-serialize c (float w f) b faithful h e =
    rw (← some-eq e, faithful.parse_float-format f, h) refl
deserialize-serialize c (string s) b faithful h e =
    ap (λ (t : Str). some (string t)) (sym (some-eq e))
deserialize-serialize c (other t n) b faithful h e = absurd h
