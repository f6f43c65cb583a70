-- ===== src/Pool/IdleList/Refines.antt =====
-- The linked list does what a plain list of connections does.
use framego.Prelude.{
  ℕ, ◌≡◌, ◌≢◌, refl, ap, ◌∙◌, subst, List, [], ◌∷◌, ◌++◌, Option, none, some, inl, inr,
}
use framego.Pool.IdleList.{IdleList, Heap, push_front, pop_front, pop_back}
use framego.Pool.IdleList.Links.{
  header, Represents, Avoids, Leaves, push_front-header, pop_front-header, pop_back-header,
  snoc_cases,
}

-- The three methods, and what they do to a plain list.
pub data Call : Type 0 where
  pushes_front : ℕ → Call
  pops_front pops_back : Call

abbrev pub call : Call → Heap → IdleList → Option (Heap × IdleList)
call (pushes_front a) h l = push_front h l a
call pops_front h l = pop_front h l
call pops_back h l = pop_back h l

abbrev pub init : List ℕ → List ℕ
init [] = []
init (x ∷ []) = []
init (x ∷ y ∷ xs) = x ∷ init (y ∷ xs)

abbrev pub after : Call → List ℕ → List ℕ
after (pushes_front a) xs = a ∷ xs
after pops_front [] = []
after pops_front (x ∷ xs) = xs
after pops_back xs = init xs

-- A node is pushed only if it is not in the list, and nothing is popped from an empty list.
abbrev pub IsAllowed : Call → List ℕ → Type 0
IsAllowed (pushes_front a) xs = Avoids a xs
IsAllowed pops_front xs = xs ≢ []
IsAllowed pops_back xs = xs ≢ []

init-snoc : (xs : List ℕ) (a : ℕ) → init (xs ++ a ∷ []) ≡ xs
init-snoc [] a = refl
init-snoc (x ∷ []) a = refl
init-snoc (x ∷ y ∷ xs) a = ap (λ (l : List ℕ). x ∷ l) (init-snoc (y ∷ xs) a)

call-header :
    (c : Call) (h : Heap) (xs : List ℕ)
    → IsAllowed c xs
    → Represents h (header xs) xs
    → Leaves h (call c h (header xs)) (after c xs)
call-header (pushes_front a) h xs v r = push_front-header h a xs v r
call-header pops_front h [] v r = absurd (v refl)
call-header pops_front h (x ∷ xs) v r = pop_front-header h x xs r
call-header pops_back h xs v r = elim (snoc_cases xs) [
  | inl e ↦ absurd (v e)
  | inr (ys, b, e) ↦
      rw (e, init-snoc ys b) (pop_back-header h ys b (subst (λ l. Represents h (header l) l) e r))
]

call-Represents :
    (c : Call) (h : Heap) (l : IdleList) (xs : List ℕ)
    → IsAllowed c xs
    → Represents h l xs
    → Leaves h (call c h l) (after c xs)
call-Represents c h l xs v r =
    rw r.header_eq (call-header c h xs v (subst (λ k. Represents h k xs) r.header_eq r))

-- A series of calls; `none` if one of them panics.
abbrev pub calls : List Call → Option (Heap × IdleList) → Option (Heap × IdleList)
calls cs none = none
calls [] (some (h, l)) = some (h, l)
calls (c ∷ cs) (some (h, l)) = calls cs (call c h l)

abbrev pub after_all : List Call → List ℕ → List ℕ
after_all [] xs = xs
after_all (c ∷ cs) xs = after_all cs (after c xs)

abbrev pub AreAllowed : List Call → List ℕ → Type 0
AreAllowed [] xs = Unit {0}
AreAllowed (c ∷ cs) xs = IsAllowed c xs × AreAllowed cs (after c xs)

-- From a list that is well linked, no series of calls panics in which every pushed node is new to
-- the list and nothing is popped from an empty list. It leaves a list that is linked both ways,
-- with its count, and holds what the same calls leave of a plain list. No connection and no time
-- is changed.
pub calls-Represents :
    (cs : List Call) (h : Heap) (l : IdleList) (xs : List ℕ)
    → AreAllowed cs xs
    → Represents h l xs
    → Leaves h (calls cs (some (h, l))) (after_all cs xs)
calls-Represents [] h l xs v r = (h, l, refl, r, λ q. (refl, refl, refl))
calls-Represents (c ∷ cs) h l xs v r =
    let (k, m, e, r', same) = call-Represents c h l xs v.0 r in
    let (k', m', e', r'', same') = calls-Represents cs k m (after c xs) v.1 r' in
    (
      k',
      m',
      ap (calls cs) e ∙ e',
      r'',
      λ q. let (c₁, t₁, d₁) = same q in let (c₂, t₂, d₂) = same' q in (c₂ ∙ c₁, t₂ ∙ t₁, d₂ ∙ d₁),
    )
