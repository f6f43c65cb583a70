-- ===== src/Health/Composite/Verdict.antt =====
-- The final status where the goroutines end one after the other.
use mathlib.Core.List.{Perm, Permᴰ, Memᴰ}
use mathlib.Core.Logic.{∥∥₁_elim}
use mathlib.Core.Path.{ap₂}
use framego.Prelude.{◌≡◌, refl, sym, ◌∙◌, ap, ◌⊎◌, inl, inr, List, [], ◌∷◌, arith}
use framego.Health.Status.{State, unknown, healthy, unhealthy, Status}
use framego.Health.Composite.{start, merge, merge_all, check_all}

-- The worst of two states: unhealthy, then unknown, then healthy.
abbrev pub worse : State → State → State
worse unhealthy t = unhealthy
worse healthy t = t
worse unknown unhealthy = unhealthy
worse unknown healthy = unknown
worse unknown unknown = unknown

abbrev pub worst : List Status → State
worst [] = healthy
worst (s ∷ rest) = worse s.state (worst rest)

worse_assoc : (a b c : State) → worse (worse a b) c ≡ worse a (worse b c)
worse_assoc a b c = ground arith

merge_state : (final s : Status) → (merge final s).state ≡ worse final.state s.state
unfolding merge
merge_state final s = ground arith

merge_origin : (final s : Status) → (merge final s ≡ final) ⊎ (merge final s ≡ s)
unfolding merge
merge_origin final s = ground arith

merge_all_state :
    (final : Status) (statuses : List Status)
    → (merge_all final statuses).state ≡ worse final.state (worst statuses)
unfolding merge_all
merge_all_state final [] = ground arith
merge_all_state final (s ∷ later) =
    merge_all_state (merge final s) later
    ∙ ap (λ (t : State). worse t (worst later)) (merge_state final s)
    ∙ worse_assoc final.state s.state (worst later)

-- The final state is the worst state of the checks.
pub check_all_state : (statuses : List Status) → (check_all statuses).state ≡ worst statuses
unfolding check_all
check_all_state statuses = merge_all_state start statuses

worse_swap : (a b c : State) → worse a (worse b c) ≡ worse b (worse a c)
worse_swap a b c = ground arith

worst-permᴰ : {xs ys : List Status} → Permᴰ xs ys → worst xs ≡ worst ys
worst-permᴰ Permᴰ.nil = refl
worst-permᴰ (Permᴰ.cons e p) = ap₂ (λ (s : Status) (t : State). worse s.state t) e (worst-permᴰ p)
worst-permᴰ (Permᴰ.swap {a} {b} {a' = a'} {b' = b'} {l} e f) =
    worse_swap a.state b.state (worst l)
    ∙ ap₂ (λ (x y : Status). worse x.state (worse y.state (worst l))) f e
worst-permᴰ (Permᴰ.trans p q) = worst-permᴰ p ∙ worst-permᴰ q

State-set : IsSet State
State-set = hlevel

-- The final state does not depend on the order in which the checks end.
pub check_all_perm :
    (xs ys : List Status) → Perm xs ys → (check_all xs).state ≡ (check_all ys).state
check_all_perm xs ys p =
    check_all_state xs ∙ ∥∥₁_elim p (State-set _ _) worst-permᴰ ∙ sym (check_all_state ys)

merge_all_origin :
    (final : Status) (xs : List Status)
    → (merge_all final xs ≡ final) ⊎ Memᴰ (merge_all final xs) xs
unfolding merge_all
merge_all_origin final [] = inl refl
merge_all_origin final (s ∷ later) = elim (merge_all_origin (merge final s) later) [
  | inl e ↦ elim (merge_origin final s) [
    | inl old ↦ inl (e ∙ old)
    | inr own ↦ inr (Memᴰ.head (e ∙ own))
  ]
  | inr m ↦ inr (Memᴰ.tail m)
]

-- The final status is one of the checks' own, with its error and its source, unless it is the
-- blank healthy status.
pub check_all_origin :
    (statuses : List Status) → (check_all statuses ≡ start) ⊎ Memᴰ (check_all statuses) statuses
unfolding check_all
check_all_origin statuses = merge_all_origin start statuses
