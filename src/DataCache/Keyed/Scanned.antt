-- ===== src/DataCache/Keyed/Scanned.antt =====
-- What `GetMany` reads under its first lock.
use framego.Prelude.{
  ℕ, ◌≡◌, ◌⊎◌, inl, inr, refl, sym, subst, ap, ◌∙◌, Bool-cases, Bool, true, false, List, [], ◌∷◌,
  Option, none, some, ◌==◌, arith, ==_refl,
}
use framego.Prelude.Int.{ℤ, ltb_ℤ, add_i64}
use framego.Prelude.Assoc.{lookup, elem, lookup-insert}
use framego.DataCache.Keyed.{CacheMap, scan, scan_key, update_evict_time, value_of}
use framego.DataCache.Keyed.GetMany.{elem-snoc}

eq_of : {a b : ℕ} → a == b ≡ true → a ≡ b
eq_of e = ground (e, arith)

module _ {V : Type 0} (zero_value : V) where
  -- Reading changes no item but in its eviction time.
  abbrev pub IsRead : CacheMap V → CacheMap V → Type 0
  IsRead c0 c =
      (c.data_map ≡ c0.data_map)
      × (c.next ≡ c0.next)
      × ((b : ℕ) → (c.items b).data_ ≡ (c0.items b).data_)
      × ((b : ℕ) → (c.items b).next_update_time ≡ (c0.items b).next_update_time)

  update_evict_time-IsRead :
      (c0 c : CacheMap V) (a : ℕ) (now : ℤ) → IsRead c0 c → IsRead c0 (update_evict_time c a now)
  unfolding update_evict_time
  update_evict_time-IsRead c0 c a now (m, n, d, u) =
      elim (Bool-cases (ltb_ℤ (c.items a).evict_time (add_i64 now c.evict_timeout))) [
        | inr kept ↦ rw kept (m, n, d, u)
        | inl later ↦ rw later (
          m,
          n,
          λ b. elim (Bool-cases (a == b)) [
            | inl same ↦ rw same (ap (λ (i : ℕ). (c.items i).data_) (eq_of same) ∙ d b)
            | inr other ↦ rw other (d b)
          ],
          λ b. elim (Bool-cases (a == b)) [
            | inl same ↦ rw same (ap (λ (i : ℕ). (c.items i).next_update_time) (eq_of same) ∙ u b)
            | inr other ↦ rw other (u b)
          ],
        )
      ]

  module _ (k : ℕ) (now : ℤ) (c0 : CacheMap V) where
    -- Whether a key is to be loaded, and what is read of it.
    abbrev pub is_due : Option ℕ → Bool
    is_due none = true
    is_due (some a) = ltb_ℤ (c0.items a).next_update_time now

    abbrev pub read_of : Option ℕ → Option V
    read_of none = none
    read_of (some a) = some (value_of zero_value (c0.items a).data_)

    -- At the key itself.
    scan_own :
        (o : Option ℕ) (c : CacheMap V) (data_ : List (ℕ × V)) (unc : List ℕ)
        → IsRead c0 c
        → (lookup k data_ ≡ read_of o) ⊎ (lookup k data_ ≡ none)
        → ((is_due o ≡ false) → elem k unc ≡ false)
        → (IsRead c0 (scan_key zero_value now k o (c, data_, unc)).0)
          × (lookup k (scan_key zero_value now k o (c, data_, unc)).1 ≡ read_of o)
          × (elem k (scan_key zero_value now k o (c, data_, unc)).2 ≡ is_due o)
    unfolding scan_key
    scan_own none c data_ unc r h f =
        (r, elim h [ inl e ↦ e | inr e ↦ e ], elem-snoc k k unc ∙ rw (==_refl k) (ground arith))
    scan_own (some a) c data_ unc r h f = (
      update_evict_time-IsRead c0 c a now r,
      lookup-insert k k (value_of zero_value (c.items a).data_) data_
          ∙ rw (==_refl k) (ap (λ (o : Option V). some (value_of zero_value o)) (r.2 a)),
      elim (Bool-cases (ltb_ℤ (c0.items a).next_update_time now)) [
        | inl due ↦ rw (r.3 a, due) (elem-snoc k k unc ∙ rw (==_refl k) (ground arith))
        | inr fine ↦ rw (r.3 a, fine) (f fine)
      ],
    )

    scan_other :
        (j : ℕ) (o : Option ℕ) (c : CacheMap V) (data_ : List (ℕ × V)) (unc : List ℕ)
        → j == k ≡ false
        → IsRead c0 c
        → (IsRead c0 (scan_key zero_value now j o (c, data_, unc)).0)
          × (lookup k (scan_key zero_value now j o (c, data_, unc)).1 ≡ lookup k data_)
          × (elem k (scan_key zero_value now j o (c, data_, unc)).2 ≡ elem k unc)
    unfolding scan_key
    scan_other j none c data_ unc other r = (r, refl, elem-snoc k j unc ∙ rw other (ground arith))
    scan_other j (some a) c data_ unc other r = (
      update_evict_time-IsRead c0 c a now r,
      lookup-insert k j (value_of zero_value (c.items a).data_) data_ ∙ rw other refl,
      elim (Bool-cases (ltb_ℤ (c.items a).next_update_time now)) [
        | inl due ↦ rw due (elem-snoc k j unc ∙ rw other (ground arith))
        | inr fine ↦ rw fine refl
      ],
    )

    abbrev pub IsScanned : CacheMap V × List (ℕ × V) × List ℕ → Type 0
    IsScanned (c, data_, unc) =
        IsRead c0 c
        × (lookup k data_ ≡ read_of (lookup k c0.data_map))
        × (elem k unc ≡ is_due (lookup k c0.data_map))

    own_turn :
        (j : ℕ) (c : CacheMap V) (data_ : List (ℕ × V)) (unc : List ℕ)
        → j == k ≡ true
        → IsRead c0 c
        → (lookup k data_ ≡ read_of (lookup k c0.data_map)) ⊎ (lookup k data_ ≡ none)
        → ((is_due (lookup k c0.data_map) ≡ false) → elem k unc ≡ false)
        → IsScanned (scan_key zero_value now j (lookup j c.data_map) (c, data_, unc))
    own_turn j c data_ unc same r h f =
        subst
          (λ (i : ℕ). IsScanned (scan_key zero_value now i (lookup i c.data_map) (c, data_, unc)))
          (sym (eq_of same))
          (subst (λ (o : Option ℕ). IsScanned (scan_key zero_value now k o (c, data_, unc)))
            (sym (ap (λ (m : List (ℕ × ℕ)). lookup k m) r.0))
            (scan_own (lookup k c0.data_map) c data_ unc r h f))

    scan_keeps :
        (keys : List ℕ) (s : CacheMap V × List (ℕ × V) × List ℕ)
        → IsScanned s
        → IsScanned (scan zero_value now keys s)
    unfolding scan
    scan_keeps [] s h = h
    scan_keeps (j ∷ keys) (c, data_, unc) h =
        scan_keeps keys (scan_key zero_value now j (lookup j c.data_map) (c, data_, unc))
          (elim (Bool-cases (j == k)) [
            | inl same ↦ own_turn j c data_ unc same h.0 (inl h.1) (λ e. h.2 ∙ e)
            | inr other ↦
                let kept = scan_other j (lookup j c.data_map) c data_ unc other h.0 in
                (kept.0, kept.1 ∙ h.1, kept.2 ∙ h.2)
          ])

    pub scan-IsScanned :
        (keys : List ℕ) (c : CacheMap V) (data_ : List (ℕ × V)) (unc : List ℕ)
        → elem k keys ≡ true
        → IsRead c0 c
        → lookup k data_ ≡ none
        → elem k unc ≡ false
        → IsScanned (scan zero_value now keys (c, data_, unc))
    unfolding scan
    scan-IsScanned [] c data_ unc e r h f = absurd (ground (e, arith))
    scan-IsScanned (j ∷ keys) c data_ unc e r h f = elim (Bool-cases (j == k)) [
      | inl same ↦
          scan_keeps keys (scan_key zero_value now j (lookup j c.data_map) (c, data_, unc))
            (own_turn j c data_ unc same r (inr h) (λ x. f))
      | inr other ↦
          let kept = scan_other j (lookup j c.data_map) c data_ unc other r in
          let s = scan_key zero_value now j (lookup j c.data_map) (c, data_, unc) in
          scan-IsScanned keys s.0 s.1 s.2 (ground (e, other, arith)) kept.0 (kept.1 ∙ h)
            (kept.2 ∙ f)
    ]
