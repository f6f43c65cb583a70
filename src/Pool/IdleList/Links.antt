-- ===== src/Pool/IdleList/Links.antt =====
-- How each method changes the links of the nodes.
use mathlib.Core.List.{append_assoc}
use framego.Prelude.{
  ℕ, suc, ◌≡◌, refl, sym, ap, ◌∙◌, subst, ◌⊎◌, List, [], ◌∷◌, ◌++◌, Option, none, some, length,
  length-append, All, Distinct, Bool-cases, ==_iff, ◌==◌, inl, inr, arith,
}
use framego.Prelude.Int.{pos}
use framego.Pool.IdleList.{
  Node, IdleList, Heap, update, set_next, set_prev, push_front, pop_front, pop_back, clear,
  drop_front, drop_back, link_front,
}

abbrev pub first : List ℕ → Option ℕ
first [] = none
first (x ∷ xs) = some x

abbrev pub last : Option ℕ → List ℕ → Option ℕ
last p [] = p
last p (x ∷ xs) = last (some x) xs

-- The nodes are linked in this order, both ways, and the first has `p` as its `prev`.
abbrev pub Chain : Heap → Option ℕ → List ℕ → Type 0
Chain h p [] = Unit {0}
Chain h p (x ∷ xs) = ((h x).prev ≡ p) × ((h x).next ≡ first xs) × Chain h (some x) xs

abbrev pub header : List ℕ → IdleList
header xs = record { count = pos (length xs); front = first xs; back = last none xs }

pub record Represents (h : Heap) (l : IdleList) (xs : List ℕ) : Type 0 where
  pub header_eq : l ≡ header xs
  pub chain : Chain h none xs
  pub distinct : Distinct xs

abbrev pub Avoids : ℕ → List ℕ → Type 0
Avoids a = All (λ b. ¬ (a ≡ b))

-- No connection and no time is changed.
abbrev pub SameContents : Heap → Heap → Type 0
SameContents h k =
    (q : ℕ) → ((k q).c ≡ (h q).c) × ((k q).t ≡ (h q).t) × ((k q).created ≡ (h q).created)

-- Writing a node that is not in the chain does not change the chain.
Chain-update :
    (h : Heap) (p : Option ℕ) (a : ℕ) (n : Node) (xs : List ℕ)
    → Avoids a xs
    → Chain h p xs
    → Chain (update h a n) p xs
Chain-update h p a n [] v c = tt
Chain-update h p a n (b ∷ rest) v c = elim (Bool-cases (a == b)) [
  | inl same ↦ absurd (v.0 ((==_iff a b).0 same))
  | inr other ↦ (rw other c.0, rw other c.1, Chain-update h (some b) a n rest v.1 c.2)
]

-- What a method of the list that returned must leave.
abbrev pub Leaves : Heap → Option (Heap × IdleList) → List ℕ → Type 0
Leaves h r xs =
    (k : Heap) × (l : IdleList) × (r ≡ some (k, l)) × Represents k l xs × SameContents h k

pub push_front-header :
    (h : Heap) (a : ℕ) (xs : List ℕ)
    → Avoids a xs
    → Represents h (header xs) xs
    → Leaves h (push_front h (header xs) a) (a ∷ xs)
unfolding push_front link_front
push_front-header h a [] v r = (
  set_prev (set_next h a none) a none,
  header (a ∷ []),
  refl,
  record { header_eq = refl; chain = ground arith; distinct = (tt, tt) },
  λ q. ground arith,
)
push_front-header h a (x ∷ xs) v r =
    let h₁ : Heap = set_prev (set_next h a (some x)) a none in
    (
      set_prev h₁ x (some a),
      header (a ∷ x ∷ xs),
      refl,
      record {
        header_eq = refl;
        chain = (
          ground (arith, v.0),
          ground (arith, v.0),
          (
            ground (arith, v.0),
            ground (arith, v.0, r.chain.1),
            Chain-update h₁ (some x) x _ xs r.distinct.0
                (Chain-update _ (some x) a _ xs v.1 (Chain-update h (some x) a _ xs v.1 r.chain.2)),
          ),
        );
        distinct = (v, r.distinct);
      },
      λ q. ground arith,
    )

pub pop_front-header :
    (h : Heap) (a : ℕ) (xs : List ℕ)
    → Represents h (header (a ∷ xs)) (a ∷ xs)
    → Leaves h (pop_front h (header (a ∷ xs))) xs
unfolding pop_front drop_front clear
pop_front-header h a [] r = (
  clear h a,
  header [],
  refl,
  record { header_eq = refl; chain = tt; distinct = tt },
  λ q. ground arith,
)
pop_front-header h a (b ∷ xs) r =
    let apart : ¬ (a ≡ b) = r.distinct.0.0 in
    (
      clear (set_prev h b none) a,
      header (b ∷ xs),
      ground (arith, r.chain.1),
      record {
        header_eq = refl;
        chain = (
          ground (arith, apart),
          ground (arith, apart, r.chain.2.1),
          Chain-update _ (some b) a _ xs r.distinct.0.1 (
              Chain-update _ (some b) a _ xs r.distinct.0.1
                (Chain-update h (some b) b _ xs r.distinct.1.0 r.chain.2.2)),
        );
        distinct = r.distinct.1;
      },
      λ q. ground arith,
    )

-- The last two nodes.
last_two :
    (h : Heap) (p : Option ℕ) (xs : List ℕ) (b a : ℕ)
    → Chain h p (xs ++ b ∷ a ∷ [])
    → ((h a).prev ≡ some b) × ((h b).prev ≡ last p xs)
last_two h p [] b a c = (c.2.0, c.0)
last_two h p (x ∷ xs) b a c = last_two h (some x) xs b a c.2

Avoids-last_two :
    (x : ℕ) (xs : List ℕ) (b a : ℕ) → Avoids x (xs ++ b ∷ a ∷ []) → ¬ (x ≡ b) × ¬ (x ≡ a)
Avoids-last_two x [] b a v = (v.0, v.1.0)
Avoids-last_two x (y ∷ xs) b a v = Avoids-last_two x xs b a v.1

first_same : (xs : List ℕ) (b a : ℕ) → first (xs ++ b ∷ a ∷ []) ≡ first (xs ++ b ∷ [])
first_same [] b a = refl
first_same (x ∷ xs) b a = refl

last_end : (p : Option ℕ) (xs : List ℕ) (a : ℕ) → last p (xs ++ a ∷ []) ≡ some a
last_end p [] a = refl
last_end p (x ∷ xs) a = last_end (some x) xs a

last_end_two : (p : Option ℕ) (xs : List ℕ) (b a : ℕ) → last p (xs ++ b ∷ a ∷ []) ≡ some a
last_end_two p [] b a = refl
last_end_two p (x ∷ xs) b a = last_end_two (some x) xs b a

Avoids-init :
    (x : ℕ) (xs : List ℕ) (b a : ℕ) → Avoids x (xs ++ b ∷ a ∷ []) → Avoids x (xs ++ b ∷ [])
Avoids-init x [] b a v = (v.0, tt)
Avoids-init x (y ∷ xs) b a v = (v.0, Avoids-init x xs b a v.1)

Distinct-init : (xs : List ℕ) (b a : ℕ) → Distinct (xs ++ b ∷ a ∷ []) → Distinct (xs ++ b ∷ [])
Distinct-init [] b a d = (tt, tt)
Distinct-init (x ∷ xs) b a d = (Avoids-init x xs b a d.0, Distinct-init xs b a d.1)

-- The heap after the last node, `a`, is taken off behind `b`.
abbrev without_back : Heap → ℕ → ℕ → Heap
without_back h b a = set_prev (set_next (set_next h b none) a none) a none

Chain-without_back :
    (h : Heap) (p : Option ℕ) (xs : List ℕ) (b a : ℕ)
    → Distinct (xs ++ b ∷ a ∷ [])
    → Chain h p (xs ++ b ∷ a ∷ [])
    → Chain (without_back h b a) p (xs ++ b ∷ [])
Chain-without_back h p [] b a d c =
    let apart : ¬ (b ≡ a) = d.0.0 in (ground (arith, apart, c.0), ground (arith, apart), tt)
Chain-without_back h p (x ∷ xs) b a d c =
    let (not_b, not_a) = Avoids-last_two x xs b a d.0 in
    (
      ground (arith, not_b, not_a, c.0),
      ground (arith, not_b, not_a, c.1, first_same xs b a),
      Chain-without_back h (some x) xs b a d.1 c.2,
    )

pop_back-eq :
    (h : Heap) (l : IdleList) (a b n : ℕ)
    → l.count ≡ pos (suc (suc n))
    → l.back ≡ some a
    → (h a).prev ≡ some b
    → pop_back h l ≡ some (without_back h b a, record l { count = pos (suc n); back = some b })
unfolding pop_back drop_back clear
pop_back-eq h l a b n ec eb ep = ground arith

header-init :
    (xs : List ℕ) (b a : ℕ)
    → record (header (xs ++ b ∷ a ∷ [])) { count = pos (suc (length xs)); back = some b }
      ≡ header (xs ++ b ∷ [])
header-init xs b a =
    let n : suc (length xs) ≡ length (xs ++ b ∷ []) = omega (arith, length-append xs (b ∷ [])) in
    λ i. record {
      count = pos (n i);
      front = first_same xs b a i;
      back = sym (last_end none xs b) i;
    }

pop_back-two :
    (h : Heap) (xs : List ℕ) (b a : ℕ)
    → Represents h (header (xs ++ b ∷ a ∷ [])) (xs ++ b ∷ a ∷ [])
    → Leaves h (pop_back h (header (xs ++ b ∷ a ∷ []))) (xs ++ b ∷ [])
pop_back-two h xs b a r =
    let n : length (xs ++ b ∷ a ∷ []) ≡ suc (suc (length xs)) =
      omega (arith, length-append xs (b ∷ a ∷ [])) in
    (
      without_back h b a,
      header (xs ++ b ∷ []),
      pop_back-eq h (header (xs ++ b ∷ a ∷ [])) a b (length xs) (ap pos n)
            (last_end_two none xs b a) (last_two h none xs b a r.chain).0
          ∙ ap (λ (l : IdleList). some (without_back h b a, l)) (header-init xs b a),
      record {
        header_eq = refl;
        chain = Chain-without_back h none xs b a r.distinct r.chain;
        distinct = Distinct-init xs b a r.distinct;
      },
      λ q. ground arith,
    )

pop_back-one : (h : Heap) (a : ℕ) → Leaves h (pop_back h (header (a ∷ []))) []
unfolding pop_back drop_back clear
pop_back-one h a = (
  clear h a,
  header [],
  refl,
  record { header_eq = refl; chain = tt; distinct = tt },
  λ q. ground arith,
)

pub snoc_cases : (xs : List ℕ) → (xs ≡ []) ⊎ ((ys : List ℕ) × (b : ℕ) × (xs ≡ ys ++ b ∷ []))
snoc_cases [] = inl refl
snoc_cases (x ∷ xs) = elim (snoc_cases xs) [
  | inl e ↦ inr ([], x, ap (λ (l : List ℕ). x ∷ l) e)
  | inr (ys, b, e) ↦ inr (x ∷ ys, b, ap (λ (l : List ℕ). x ∷ l) e)
]

pub pop_back-header :
    (h : Heap) (xs : List ℕ) (a : ℕ)
    → Represents h (header (xs ++ a ∷ [])) (xs ++ a ∷ [])
    → Leaves h (pop_back h (header (xs ++ a ∷ []))) xs
pop_back-header h xs a r = elim (snoc_cases xs) [
  | inl e ↦ rw e (pop_back-one h a)
  | inr (ys, b, e) ↦
      let joined : xs ++ a ∷ [] ≡ ys ++ b ∷ a ∷ [] =
        ap (λ (l : List ℕ). l ++ a ∷ []) e ∙ append_assoc ys (b ∷ []) (a ∷ []) in
      rw (joined, e) (pop_back-two h ys b a (subst (λ l. Represents h (header l) l) joined r))
]
