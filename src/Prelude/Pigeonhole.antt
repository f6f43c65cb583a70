-- ===== src/Prelude/Pigeonhole.antt =====
-- Distinct numbers below `n` are at most `n`.
use Prim.Native.Nat.{ℕ, zero, suc, ◌≤◌, ◌<◌}
use mathlib.Core.Path.{◌≡◌, refl, sym, subst}
use mathlib.Core.Logic.{inl, inr}
use mathlib.Core.List.{List, [], ◌∷◌}
use native.Mathlib.Omega.{arith}
use framego.Prelude.Tests.{◌==◌, ==_iff, if◌then◌else◌, Bool-cases}
use framego.Prelude.Lists.{length, All, Distinct}

without : ℕ → List ℕ → List ℕ
without m [] = []
without m (x ∷ xs) = if x == m then without m xs else x ∷ without m xs

All-without {ℓ} : (P : ℕ → Type ℓ) (m : ℕ) (xs : List ℕ) → All P xs → All P (without m xs)
unfolding without
All-without P m [] h = tt
All-without P m (x ∷ xs) h = elim (Bool-cases (x == m)) [
  | inl e ↦ rw e (All-without P m xs h.1)
  | inr e ↦ rw e (h.0, All-without P m xs h.1)
]

Distinct-without : (m : ℕ) (xs : List ℕ) → Distinct xs → Distinct (without m xs)
unfolding without
Distinct-without m [] d = tt
Distinct-without m (x ∷ xs) d = elim (Bool-cases (x == m)) [
  | inl e ↦ rw e (Distinct-without m xs d.1)
  | inr e ↦ rw e (All-without _ m xs d.0, Distinct-without m xs d.1)
]

without-absent : (m : ℕ) (xs : List ℕ) → All (λ y. ¬ (m ≡ y)) xs → length (without m xs) ≡ length xs
unfolding without
without-absent m [] h = refl
without-absent m (x ∷ xs) h = elim (Bool-cases (x == m)) [
  | inl e ↦ absurd (h.0 (sym ((==_iff x m).0 e)))
  | inr e ↦ rw e (omega (arith, without-absent m xs h.1))
]

length-without : (m : ℕ) (xs : List ℕ) → Distinct xs → length xs ≤ suc (length (without m xs))
unfolding without
length-without m [] d = omega arith
length-without m (x ∷ xs) d = elim (Bool-cases (x == m)) [
  | inl e ↦ rw e (
      omega
        (arith, without-absent m xs (subst (λ k. All (λ y. ¬ (k ≡ y)) xs) ((==_iff x m).0 e) d.0)))
  | inr e ↦ rw e (omega (arith, length-without m xs d.1))
]

without-below : (n : ℕ) (xs : List ℕ) → All (λ x. x < suc n) xs → All (λ x. x < n) (without n xs)
unfolding without
without-below n [] h = tt
without-below n (x ∷ xs) h = elim (Bool-cases (x == n)) [
  | inl e ↦ rw e (without-below n xs h.1)
  | inr e ↦ rw e (ground (arith, h.0), without-below n xs h.1)
]

pub length-le-bound : (n : ℕ) (xs : List ℕ) → Distinct xs → All (λ x. x < n) xs → length xs ≤ n
length-le-bound zero [] d h = omega arith
length-le-bound zero (x ∷ xs) d h = absurd (omega arith)
length-le-bound (suc n) xs d h = omega (
  arith,
  length-without n xs d,
  length-le-bound n (without n xs) (Distinct-without n xs d) (without-below n xs h),
)
