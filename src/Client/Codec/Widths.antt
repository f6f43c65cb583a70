-- ===== src/Client/Codec/Widths.antt =====
-- Numbers in the integers of a width.
use framego.Prelude.{ℕ, ◌≡◌, ◌↔◌, ◌*◌, ◌<◌, refl, subst, some, arith}
use framego.Prelude.Int.{ℤ, pos, negsuc}
use framego.Prelude.Text.{Str}
use framego.Client.Codec.{
  Width, w8, w16, w32, w64, half, Codec, int, to_int, set_int, set_uint, deserialize,
}

abbrev pub IsInt : Width → ℤ → Type 0
IsInt w (pos n) = n < half w
IsInt w (negsuc n) = n < half w

abbrev pub IsUint : Width → ℕ → Type 0
IsUint w n = n < half w * 2

set_int-IsInt : (w : Width) (z : ℤ) → IsInt w (set_int w z)
unfolding set_int
set_int-IsInt w8 (pos n) = ground arith
set_int-IsInt w8 (negsuc n) = ground arith
set_int-IsInt w16 (pos n) = ground arith
set_int-IsInt w16 (negsuc n) = ground arith
set_int-IsInt w32 (pos n) = ground arith
set_int-IsInt w32 (negsuc n) = ground arith
set_int-IsInt w64 (pos n) = ground arith
set_int-IsInt w64 (negsuc n) = ground arith

pub set_int-eq : (w : Width) (z : ℤ) → IsInt w z → set_int w z ≡ z
unfolding set_int
set_int-eq w8 (pos n) h = ground arith
set_int-eq w8 (negsuc n) h = ground arith
set_int-eq w16 (pos n) h = ground arith
set_int-eq w16 (negsuc n) h = ground arith
set_int-eq w32 (pos n) h = ground arith
set_int-eq w32 (negsuc n) h = ground arith
set_int-eq w64 (pos n) h = ground arith
set_int-eq w64 (negsuc n) h = ground arith

-- A text that holds a number is read into an integer of a width as a number of that width, which is the number of the text exactly if that one fits the width; there is no error where it does not fit.
pub deserialize_int_bounds :
    (c : Codec) (byt : Str) (w : Width) (i : ℤ)
    → c.parse_int byt ≡ some i
    → (z : ℤ) × ((deserialize c byt (to_int w) ≡ some (int w z))
        × (IsInt w z × ((z ≡ i) ↔ IsInt w i)))
unfolding deserialize
deserialize_int_bounds c byt w i e = (
  set_int w i,
  (
    rw e refl,
    (set_int-IsInt w i, (λ same. subst (IsInt w) same (set_int-IsInt w i), set_int-eq w i)),
  ),
)

pub set_uint-eq : (w : Width) (n : ℕ) → IsUint w n → set_uint w n ≡ n
unfolding set_uint
set_uint-eq w8 n h = ground arith
set_uint-eq w16 n h = ground arith
set_uint-eq w32 n h = ground arith
set_uint-eq w64 n h = ground arith
