-- ===== src/Prelude/Assoc.antt =====
-- Maps as association lists, with numbers for keys.
use framego.Prelude.Tests.{◌==◌, if◌then◌else◌}
use Prim.Native.Nat.{ℕ}
use mathlib.Core.Path.{◌≡◌, refl}
use mathlib.Core.Bool.{Bool, true, false}
use mathlib.Core.Option.{Option, none, some}
use mathlib.Core.List.{List, [], ◌∷◌}
use native.Mathlib.Omega.{arith}

module _ {V : Type 0} where
  abbrev pub lookup : ℕ → List (ℕ × V) → Option V
  lookup k [] = none
  lookup k ((j, v) ∷ m) = if j == k then some v else lookup k m

  abbrev pub delete : ℕ → List (ℕ × V) → List (ℕ × V)
  delete k [] = []
  delete k ((j, v) ∷ m) = let rest = delete k m in if j == k then rest else (j, v) ∷ rest

  abbrev pub insert : ℕ → V → List (ℕ × V) → List (ℕ × V)
  insert k v m = (k, v) ∷ delete k m

  abbrev pub delete_all : List ℕ → List (ℕ × V) → List (ℕ × V)
  delete_all [] m = m
  delete_all (k ∷ ks) m = delete_all ks (delete k m)

  -- Each key has one entry.
  abbrev pub IsMap : List (ℕ × V) → Type 0
  IsMap [] = Unit {0}
  IsMap ((k, v) ∷ m) = (lookup k m ≡ none) × IsMap m

  pub lookup-delete :
      (k j : ℕ) (m : List (ℕ × V)) → lookup k (delete j m) ≡ (if j == k then none else lookup k m)
  lookup-delete k j [] = ground arith
  lookup-delete k j ((i, v) ∷ m) = ground (arith, lookup-delete k j m)

  pub lookup-insert :
      (k j : ℕ) (v : V) (m : List (ℕ × V))
      → lookup k (insert j v m) ≡ (if j == k then some v else lookup k m)
  lookup-insert k j v m = ground (arith, lookup-delete k j m)

  pub IsMap-delete : (k : ℕ) (m : List (ℕ × V)) → IsMap m → IsMap (delete k m)
  IsMap-delete k [] h = tt
  IsMap-delete k ((j, v) ∷ m) h = ground (arith, lookup-delete j k m, IsMap-delete k m h.1)

  pub IsMap-insert : (k : ℕ) (v : V) (m : List (ℕ × V)) → IsMap m → IsMap (insert k v m)
  IsMap-insert k v m h = (ground (arith, lookup-delete k k m), IsMap-delete k m h)

abbrev pub elem : ℕ → List ℕ → Bool
elem k [] = false
elem k (j ∷ js) = if j == k then true else elem k js

pub lookup-delete_all :
    {V : Type 0}
    → (k : ℕ) (ks : List ℕ) (m : List (ℕ × V))
    → lookup k (delete_all ks m) ≡ (if elem k ks then none else lookup k m)
lookup-delete_all k [] m = refl
lookup-delete_all k (j ∷ js) m =
    ground (arith, lookup-delete_all k js (delete j m), lookup-delete k j m)
