-- ===== src/UniqueId/Text/Examples.antt =====
-- Tests and instances for the text of an id.
use framego.Prelude.{◌≡◌, refl, [], ◌∷◌, none, length, arith}
use framego.UniqueId.Text.{parse_id, parse_id_safe, string, hex_value}
use framego.UniqueId.Text.RoundTrip.{parse_id-string}

mixed_case : parse_id (b'0' ∷ b'f' ∷ b'F' ∷ []) ≡ (255, none)
unfolding parse_id hex_value
mixed_case = refl

malformed : parse_id_safe (b'1' ∷ b'x' ∷ []) ≡ 0
unfolding parse_id_safe hex_value
malformed = refl

parse_id-string_example : (parse_id (string 48879) ≡ (48879, none)) × (length (string 48879) ≡ 16)
parse_id-string_example = parse_id-string 48879 (omega arith)
