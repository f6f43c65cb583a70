-- ===== src/Prelude/Text.antt =====
-- Texts as lists of bytes, and maps with texts for keys.
use Prim.Native.Char.{code}
use Prim.Native.String.{String}
use Prim.Native.Nat.{ℕ, ◌+◌}
use mathlib.Core.Path.{◌≡◌, refl}
use mathlib.Core.Logic.{◌↔◌}
use mathlib.Core.Bool.{Bool, true, false, ◌&&◌}
use mathlib.Core.Option.{Option, none, some}
use mathlib.Core.List.{List, [], ◌∷◌, map}
use native.Mathlib.Omega.{arith}
use framego.Prelude.Tests.{leb, ◌==◌, if◌then◌else◌}

abbrev pub Str : Type 0
Str = List ℕ

-- The bytes of an ASCII text.
abbrev pub bytes : String → Str
bytes String.[] = []
bytes (String.◌∷◌ c s) = code c ∷ bytes s

abbrev pub is_same : Str → Str → Bool
is_same [] [] = true
is_same (a ∷ x) (b ∷ y) = let rest = is_same x y in if a == b then rest else false
is_same _ _ = false

pub is_same_iff : (x y : Str) → (is_same x y ≡ true) ↔ (x ≡ y)
is_same_iff [] [] = ground arith
is_same_iff [] (b ∷ y) = ground arith
is_same_iff (a ∷ x) [] = ground arith
is_same_iff (a ∷ x) (b ∷ y) = grind (arith, is_same_iff x y)

pub is_same_refl : (x : Str) → is_same x x ≡ true
is_same_refl x = (is_same_iff x x).1 refl

-- `strings.HasPrefix`.
abbrev pub has_prefix : Str → Str → Bool
has_prefix s [] = true
has_prefix [] (p ∷ ps) = false
has_prefix (c ∷ s) (p ∷ ps) = let rest = has_prefix s ps in if c == p then rest else false

-- `strings.ToLower` of an ASCII text.
unfoldable pub lower : ℕ → ℕ
lower c = if leb b'A' c && leb c b'Z' then c + 32 else c

abbrev pub to_lower : Str → Str
to_lower s = map lower s

lower_idem : (c : ℕ) → lower (lower c) ≡ lower c
unfolding lower
lower_idem c = ground arith

pub to_lower_idem : (s : Str) → to_lower (to_lower s) ≡ to_lower s
to_lower_idem [] = refl
to_lower_idem (c ∷ s) = cc (lower_idem c, to_lower_idem s)

module _ {V : Type 0} where
  abbrev pub find : Str → List (Str × V) → Option V
  find k [] = none
  find k ((j, v) ∷ m) = if is_same j k then some v else find k m

  abbrev pub without : Str → List (Str × V) → List (Str × V)
  without k [] = []
  without k ((j, v) ∷ m) = let rest = without k m in if is_same j k then rest else (j, v) ∷ rest

  abbrev pub put : Str → V → List (Str × V) → List (Str × V)
  put k v m = (k, v) ∷ without k m

  pub find-without :
      (k j : Str) (m : List (Str × V))
      → find k (without j m) ≡ (if is_same j k then none else find k m)
  find-without k j [] = ground arith
  find-without k j ((i, v) ∷ m) =
      grind (arith, find-without k j m, is_same_iff i j, is_same_iff i k, is_same_iff j k)

  pub find-put :
      (k j : Str) (v : V) (m : List (Str × V))
      → find k (put j v m) ≡ (if is_same j k then some v else find k m)
  find-put k j v m = ground (arith, find-without k j m)
