-- ===== src/UniqueId/Text/RoundTrip.antt =====
-- Parsing an id that was printed, and what is parsed from anything else.
use native.Mathlib.Nat.{div-div-eq-div-mul, div-le_self, pow-suc}
use mathlib.Core.List.{append-nil}
use framego.Prelude.{
  ℕ, zero, suc, ◌+◌, ◌-◌, ◌*◌, ◌/◌, ◌%◌, ◌^◌, ◌≤◌, ◌<◌, ◌≡◌, refl, sym, ap, ◌∙◌, List, [], ◌∷◌,
  ◌++◌, Option, none, some, inl, inr, length, Bool-cases, ◌==◌, ==_iff, arith,
}
use framego.UniqueId.Text.{
  ParseError, range, hex_value, parse_digits, parse_id, parse_id_optional, parse_id_safe, hex_digit,
  hex_digits, string, string_or_empty,
}

hex_value-hex_digit : (d : ℕ) → d < 16 → hex_value (hex_digit d) ≡ some d
unfolding hex_value hex_digit
hex_value-hex_digit d h = ground arith

halved : (h k : ℕ) → h / 16 ^ k / 16 ≡ h / 16 ^ suc k
halved h k = div-div-eq-div-mul h (16 ^ k) 16 ∙ ap (λ (m : ℕ). h / m) (sym (pow-suc 16 k))

-- One digit more: the value so far is the number without its `k` lowest digits.
digit_step : (h k : ℕ) → h / 16 ^ suc k * 16 + h / 16 ^ k % 16 ≡ h / 16 ^ k
digit_step h k = omega (arith, halved h k)

high_fits : (h k : ℕ) → h < 2 ^ 64 → h / 16 ^ suc k < 2 ^ 60
high_fits h k b = omega (arith, halved h k, div-le_self h (16 ^ k))

parse_digits-digit :
    (n c d : ℕ) (cs : List ℕ)
    → hex_value c ≡ some d
    → n < 2 ^ 60
    → parse_digits n (c ∷ cs) ≡ parse_digits (n * 16 + d) cs
unfolding parse_digits
parse_digits-digit n c d cs e b = ground arith

parse_digits-hex_digits :
    (k h : ℕ) (rest : List ℕ)
    → h < 2 ^ 64
    → parse_digits (h / 16 ^ k) (hex_digits k h ++ rest) ≡ parse_digits (h / 16 ^ 0) rest
unfolding hex_digits
parse_digits-hex_digits zero h rest b = refl
parse_digits-hex_digits (suc k) h rest b =
    parse_digits-digit (h / 16 ^ suc k) (hex_digit (h / 16 ^ k % 16)) (h / 16 ^ k % 16) _
      (hex_value-hex_digit (h / 16 ^ k % 16) (omega arith)) (high_fits h k b)
    ∙ ap (λ (n : ℕ). parse_digits n (hex_digits k h ++ rest)) (digit_step h k)
    ∙ parse_digits-hex_digits k h rest b

-- A printed id with more text behind it is read as the id first.
parse_id-string_append :
    (h : ℕ) (rest : List ℕ) → h < 2 ^ 64 → parse_id (string h ++ rest) ≡ parse_digits h rest
unfolding parse_id string
parse_id-string_append h rest b =
    let top : 0 ≡ h / 16 ^ 16 = omega arith in
    let whole : h / 16 ^ 0 ≡ h = omega arith in
    ap (λ (n : ℕ). parse_digits n (hex_digits 16 h ++ rest)) top
    ∙ parse_digits-hex_digits 16 h rest b
    ∙ ap (λ (n : ℕ). parse_digits n rest) whole

-- An id of 64 bits that is printed has 16 digits and is parsed back, with no error.
pub parse_id-string :
    (h : ℕ) → h < 2 ^ 64 → (parse_id (string h) ≡ (h, none)) × (length (string h) ≡ 16)
unfolding string parse_digits
parse_id-string h b =
    (ap parse_id (sym (append-nil (string h))) ∙ parse_id-string_append h [] b, refl)

-- An optional id of 64 bits that is printed, the zero id as the empty text, is parsed back with no
-- error.
pub parse_id_optional-string_or_empty :
    (h : ℕ) → h < 2 ^ 64 → parse_id_optional (string_or_empty h) ≡ (h, none)
unfolding parse_id_optional string_or_empty
parse_id_optional-string_or_empty h b = elim (Bool-cases (h == 0)) [
  | inl zero_id ↦ rw zero_id (λ i. (sym ((==_iff h 0).0 zero_id) i, none))
  | inr other ↦ rw other (parse_id-string h b).0
]

parse_digits-overflow :
    (n c d : ℕ) (cs : List ℕ)
    → hex_value c ≡ some d
    → 2 ^ 60 ≤ n
    → parse_digits n (c ∷ cs) ≡ (2 ^ 64 - 1, some range)
unfolding parse_digits
parse_digits-overflow n c d cs e b = ground arith

-- A text of 16 hexadecimal digits that does not begin with a zero, a further digit and anything
-- behind it is read as the largest id with a range error, and `ParseIDSafe` returns that id and
-- not the zero id.
pub parse_id_safe_overflow :
    (h c d : ℕ) (rest : List ℕ)
    → 2 ^ 60 ≤ h
    → h < 2 ^ 64
    → hex_value c ≡ some d
    → (parse_id (string h ++ c ∷ rest) ≡ (2 ^ 64 - 1, some range))
      × (parse_id_safe (string h ++ c ∷ rest) ≡ 2 ^ 64 - 1)
unfolding parse_id_safe parse_id
parse_id_safe_overflow h c d rest big b e =
    let first = parse_id-string_append h (c ∷ rest) b ∙ parse_digits-overflow h c d rest e big in
    (first, ap (λ (r : ℕ × Option ParseError). r.0) first)
