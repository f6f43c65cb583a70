-- ===== src/DataCache/Keyed/Claimed.antt =====
-- Which items `GetMany` claims for loading.
use framego.Prelude.{
  ℕ, ◌<◌, ◌≡◌, inl, inr, refl, sym, subst, ap, ◌∙◌, Bool-cases, Bool, true, false, List, [], ◌∷◌,
  Option, none, some, ◌==◌, arith, some-eq,
}
use framego.Prelude.Int.{ℤ, ltb_ℤ}
use framego.Prelude.Assoc.{lookup, elem, lookup-insert, IsMap, IsMap-insert}
use framego.DataCache.Keyed.{CacheMap, claim_key, claim_many}

eq_of : {a b : ℕ} → a == b ≡ true → a ≡ b
eq_of e = ground (e, arith)

module _ {V : Type 0} where
  module _ (k : ℕ) (now : ℤ) where
    -- Claims of other keys leave the key out.
    pub claims_other :
        (keys : List ℕ) (s : CacheMap V × List (ℕ × ℕ) × Bool)
        → elem k keys ≡ false
        → lookup k s.1 ≡ none
        → lookup k (claim_many now keys s).1 ≡ none
    unfolding claim_many claim_key
    claims_other [] s e h = h
    claims_other (j ∷ keys) (c, um, new) e h = elim (Bool-cases (j == k)) [
      | inl same ↦ absurd (ground (e, same, arith))
      | inr other ↦
          claims_other keys (claim_key now j (lookup j c.data_map) (c, um, new))
            (ground (e, other, arith)) (by (lookup j c.data_map) other)
    ]
      where
        by : (o : Option ℕ) → j == k ≡ false → lookup k (claim_key now j o (c, um, new)).1 ≡ none
        by none other = rw (lookup-insert k j c.next um, other) h
        by (some a) other = elim (Bool-cases (ltb_ℤ (c.items a).next_update_time now)) [
          | inl stale ↦ rw (stale, lookup-insert k j a um, other) h
          | inr fine ↦ rw fine h
        ]

    -- The key has this address, among the items to load too.
    abbrev pub IsClaimed : ℕ → CacheMap V × List (ℕ × ℕ) × Bool → Type 0
    IsClaimed a s = (lookup k s.1 ≡ some a) × (lookup k s.0.data_map ≡ some a)

    claim_key-IsClaimed :
        (j a : ℕ) (o : Option ℕ) (c : CacheMap V) (um : List (ℕ × ℕ)) (new : Bool)
        → lookup j c.data_map ≡ o
        → IsClaimed a (c, um, new)
        → IsClaimed a (claim_key now j o (c, um, new))
    unfolding claim_key
    claim_key-IsClaimed j a none c um new e h = elim (Bool-cases (j == k)) [
      | inl same ↦ absurd (
          let none_yet = subst (λ (i : ℕ). lookup i c.data_map ≡ none) (eq_of same) e in
          ground (none_yet, h.1, arith))
      | inr other ↦ (
        rw (lookup-insert k j c.next um, other) h.0,
        rw (lookup-insert k j c.next c.data_map, other) h.1,
      )
    ]
    claim_key-IsClaimed j a (some b) c um new e h =
        elim (Bool-cases (ltb_ℤ (c.items b).next_update_time now)) [
          | inr fine ↦ rw fine h
          | inl stale ↦ rw stale (elim (Bool-cases (j == k)) [
            | inl same ↦ (
              rw (lookup-insert k j b um, same)
                  (sym (subst (λ (i : ℕ). lookup i c.data_map ≡ some b) (eq_of same) e) ∙ h.1),
              h.1,
            )
            | inr other ↦ (rw (lookup-insert k j b um, other) h.0, h.1)
          ])
        ]

    claim_many-IsClaimed :
        (keys : List ℕ) (a : ℕ) (s : CacheMap V × List (ℕ × ℕ) × Bool)
        → IsClaimed a s
        → IsClaimed a (claim_many now keys s)
    unfolding claim_many
    claim_many-IsClaimed [] a s h = h
    claim_many-IsClaimed (j ∷ keys) a (c, um, new) h =
        claim_many-IsClaimed keys a (claim_key now j (lookup j c.data_map) (c, um, new))
          (claim_key-IsClaimed j a (lookup j c.data_map) c um new refl h)

    pub claims-IsMap :
        (keys : List ℕ) (s : CacheMap V × List (ℕ × ℕ) × Bool)
        → IsMap s.1
        → IsMap (claim_many now keys s).1
    unfolding claim_many claim_key
    claims-IsMap [] s h = h
    claims-IsMap (j ∷ keys) (c, um, new) h =
        claims-IsMap keys (claim_key now j (lookup j c.data_map) (c, um, new))
          (by (lookup j c.data_map))
      where
        by : (o : Option ℕ) → IsMap (claim_key now j o (c, um, new)).1
        by none = IsMap-insert j c.next um h
        by (some a) = elim (Bool-cases (ltb_ℤ (c.items a).next_update_time now)) [
          | inl stale ↦ rw stale (IsMap-insert j a um h)
          | inr fine ↦ rw fine h
        ]

    -- A key without an item is given one.
    pub claims_new :
        (keys : List ℕ) (s : CacheMap V × List (ℕ × ℕ) × Bool)
        → elem k keys ≡ true
        → lookup k s.0.data_map ≡ none
        → (a : ℕ) × IsClaimed a (claim_many now keys s)
    unfolding claim_many claim_key
    claims_new [] s e h = absurd (ground (e, arith))
    claims_new (j ∷ keys) (c, um, new) e h = elim (Bool-cases (j == k)) [
      | inl same ↦ (
        c.next,
        claim_many-IsClaimed keys c.next (claim_key now j (lookup j c.data_map) (c, um, new)) (
            rw (subst (λ (i : ℕ). lookup i c.data_map ≡ none) (sym (eq_of same)) h) (
              rw (lookup-insert k j c.next um, same) refl,
              rw (lookup-insert k j c.next c.data_map, same) refl,
            )),
      )
      | inr other ↦
          claims_new keys (claim_key now j (lookup j c.data_map) (c, um, new))
            (ground (e, other, arith)) (by (lookup j c.data_map) other)
    ]
      where
        by :
            (o : Option ℕ)
            → j == k ≡ false
            → lookup k (claim_key now j o (c, um, new)).0.data_map ≡ none
        by none other = rw (lookup-insert k j c.next c.data_map, other) h
        by (some a) other = elim (Bool-cases (ltb_ℤ (c.items a).next_update_time now)) [
          | inl stale ↦ rw stale h
          | inr fine ↦ rw fine h
        ]

    -- An item of the key alone, which is to be updated.
    abbrev pub IsDue : ℕ → CacheMap V → Type 0
    IsDue a c =
        (lookup k c.data_map ≡ some a)
        × (ltb_ℤ (c.items a).next_update_time now ≡ true)
        × (a < c.next)
        × ((j : ℕ) → lookup j c.data_map ≡ some a → j ≡ k)

    claim_key-IsDue :
        (j a : ℕ) (o : Option ℕ) (c : CacheMap V) (um : List (ℕ × ℕ)) (new : Bool)
        → lookup j c.data_map ≡ o
        → j == k ≡ false
        → IsDue a c
        → IsDue a (claim_key now j o (c, um, new)).0
    unfolding claim_key
    claim_key-IsDue j a none c um new e other (at, due, below, alone) = (
      rw (lookup-insert k j c.next c.data_map, other) at,
      elim (Bool-cases (c.next == a)) [
        | inl same ↦ absurd (ground (same, below, arith))
        | inr d ↦ rw d due
      ],
      ground (below, arith),
      λ i f. elim (Bool-cases (j == i)) [
        | inl same ↦ absurd (
            let new_at : some c.next ≡ some a =
              sym (rw (lookup-insert i j c.next c.data_map, same) refl) ∙ f in
            ground (some-eq new_at, below, arith))
        | inr d ↦ alone i (sym (rw (lookup-insert i j c.next c.data_map, d) refl) ∙ f)
      ],
    )
    claim_key-IsDue j a (some b) c um new e other (at, due, below, alone) =
        elim (Bool-cases (ltb_ℤ (c.items b).next_update_time now)) [
          | inr fine ↦ rw fine (at, due, below, alone)
          | inl stale ↦ rw stale (elim (Bool-cases (b == a)) [
            | inl same ↦
                absurd (let its = alone j (e ∙ ap some (eq_of same)) in ground (its, other, arith))
            | inr d ↦ (at, rw d due, below, alone)
          ])
        ]

    pub claims_due :
        (keys : List ℕ) (a : ℕ) (s : CacheMap V × List (ℕ × ℕ) × Bool)
        → elem k keys ≡ true
        → IsDue a s.0
        → IsClaimed a (claim_many now keys s)
    unfolding claim_many claim_key
    claims_due [] a s e h = absurd (ground (e, arith))
    claims_due (j ∷ keys) a (c, um, new) e h = elim (Bool-cases (j == k)) [
      | inl same ↦
          claim_many-IsClaimed keys a (claim_key now j (lookup j c.data_map) (c, um, new)) (
            rw (subst (λ (i : ℕ). lookup i c.data_map ≡ some a) (sym (eq_of same)) h.0, h.1)
              (rw (lookup-insert k j a um, same) refl, h.0))
      | inr other ↦
          claims_due keys a (claim_key now j (lookup j c.data_map) (c, um, new))
            (ground (e, other, arith))
            (claim_key-IsDue j a (lookup j c.data_map) c um new refl other h)
    ]
