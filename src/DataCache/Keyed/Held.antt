-- ===== src/DataCache/Keyed/Held.antt =====
-- What each step of the keyed cache leaves of an item that is not to be updated yet.
use framego.Prelude.{
  ℕ, ◌⊎◌, ◌≡◌, refl, subst, sym, ◌∙◌, Bool, true, false, List, [], ◌∷◌, Option, none, some, ◌==◌,
  arith, Option-cases, Bool-cases, inl, inr, ==_refl,
}
use framego.Prelude.Int.{ℤ, ltb_ℤ, ◌≤ℤ◌, add_i64}
use framego.Prelude.Assoc.{lookup, lookup-insert, lookup-delete}
use framego.DataCache.Keyed.{CacheMap, find, claim, create, put_off, claim_key, claim_many}
use framego.DataCache.Keyed.GetMany.{is_in, is_in-insert}
use framego.DataCache.Keyed.Steps.{get_looks, get_claims, is_at, looked, exec}

eq_of : {a b : ℕ} → a == b ≡ true → a ≡ b
eq_of e = ground (e, arith)

at_key : (a : ℕ) (o : Option ℕ) → is_at a o ≡ true → o ≡ some a
at_key a none e = absurd (ground (e, arith))
at_key a (some b) e = ground (e, arith)

module _ {V : Type 0} where
  -- The key has an item, which is not to be updated before `end`.
  abbrev pub IsHeldTo : ℕ → ℤ → CacheMap V → Type 0
  IsHeldTo key end c =
      (a : ℕ) × ((lookup key c.data_map ≡ some a) × (end ≤ℤ (c.items a).next_update_time))

  module _ (key : ℕ) (end now : ℤ) where
    -- A new item or an item put off at this time is not to be updated before `end`.
    abbrev pub IsLate : CacheMap V → Type 0
    IsLate c = end ≤ℤ add_i64 now c.retry_interval

    create_held :
        (c : CacheMap V) (j : ℕ)
        → IsLate c
        → lookup j c.data_map ≡ none
        → IsHeldTo key end c
        → IsHeldTo key end (create c j now)
    create_held c j late none_yet (a, (e, h)) = (
      a,
      (
        let others = lookup-insert key j c.next c.data_map in
            let kept = lookup-delete key j c.data_map in ground (others, kept, e, none_yet, arith),
        elim (Bool-cases (c.next == a)) [ inl s ↦ rw s late | inr d ↦ rw d h ],
      ),
    )

    created_held : (c : CacheMap V) → IsLate c → IsHeldTo key end (create c key now)
    created_held c late = (c.next, (rw (==_refl key) refl, rw (==_refl c.next) late))

    put_off_held :
        (c : CacheMap V) (b : ℕ)
        → IsLate c
        → IsHeldTo key end c
        → IsHeldTo key end (put_off c b now)
    put_off_held c b late (a, (e, h)) =
        (a, (e, elim (Bool-cases (b == a)) [ inl s ↦ rw s late | inr d ↦ rw d h ]))

    put_off_holds :
        (c : CacheMap V) (a : ℕ)
        → IsLate c
        → lookup key c.data_map ≡ some a
        → IsHeldTo key end (put_off c a now)
    put_off_holds c a late e = (a, (e, rw (==_refl a) late))

    abbrev pub Counts : Bool → CacheMap V → Type 0
    Counts counted c = (counted ≡ false) ⊎ IsHeldTo key end c

    key_at :
        (j : ℕ) (c : CacheMap V)
        → j == key ≡ true
        → IsHeldTo key end (create c key now)
        → IsHeldTo key end (create c j now)
    key_at j c same h = subst (λ (i : ℕ). IsHeldTo key end (create c i now)) (sym (eq_of same)) h

    not_key :
        (j : ℕ) (c : CacheMap V)
        → lookup j c.data_map ≡ none
        → IsHeldTo key end c
        → j == key ≡ false
    not_key j c e (a, (f, h)) = elim (Bool-cases (j == key)) [
      | inl same ↦ absurd (ground (e, f, same, arith))
      | inr other ↦ other
    ]

    found_cases :
        (saw : Bool) (j : ℕ) (c : CacheMap V)
        → ((lookup j c.data_map ≡ none) × (looked key saw j now c ≡ (create c j now, c.next, true)))
          ⊎ ((a : ℕ) × (looked key saw j now c ≡ (c, a, false)))
    unfolding find
    found_cases true j c = elim (Option-cases (lookup j c.data_map)) [
      | inl e ↦ inl (e, rw (e, e) refl)
      | inr (a, e) ↦ inr (a, rw e refl)
    ]
    found_cases false j c = elim (Option-cases (lookup j c.data_map)) [
      | inl e ↦ inl (e, rw e refl)
      | inr (a, e) ↦ inr (a, rw e refl)
    ]

    pub looks-Counts :
        (saw : Bool) (j : ℕ) (c : CacheMap V)
        → IsLate c
        → Counts (exec key (get_looks saw j now) c).1 (exec key (get_looks saw j now) c).0
    unfolding exec
    looks-Counts saw j c late = elim (found_cases saw j c) [
      | inl (e, f) ↦ rw f (elim (Bool-cases (j == key)) [
        | inl same ↦ inr (key_at j c same (created_held c late))
        | inr other ↦ inl (rw other refl)
      ])
      | inr (a, f) ↦ rw f (inl (ground arith))
    ]

    pub looks_held :
        (saw : Bool) (j : ℕ) (c : CacheMap V)
        → IsLate c
        → IsHeldTo key end c
        → ((exec key (get_looks saw j now) c).1 ≡ false)
          × IsHeldTo key end (exec key (get_looks saw j now) c).0
    unfolding exec
    looks_held saw j c late held = elim (found_cases saw j c) [
      | inl (e, f) ↦ rw f (rw (not_key j c e held) refl, create_held c j late e held)
      | inr (a, f) ↦ rw f (ground arith, held)
    ]

    claim_cases :
        (seen : ℤ) (a : ℕ) (c : CacheMap V)
        → ((claim seen a now c ≡ (put_off c a now, true))
            × (ltb_ℤ (c.items a).next_update_time now ≡ true))
          ⊎ (claim seen a now c ≡ (c, false))
    unfolding claim
    claim_cases seen a c = ground arith

    pub claims-Counts :
        (seen : ℤ) (a : ℕ) (c : CacheMap V)
        → IsLate c
        → Counts (exec key (get_claims seen a now) c).1 (exec key (get_claims seen a now) c).0
    unfolding exec
    claims-Counts seen a c late = elim (claim_cases seen a c) [
      | inl (e, stale) ↦ rw e (elim (Bool-cases (is_at a (lookup key c.data_map))) [
        | inl at ↦ inr (put_off_holds c a late (at_key a (lookup key c.data_map) at))
        | inr other ↦ inl (rw other refl)
      ])
      | inr e ↦ rw e (inl (ground arith))
    ]

    not_stale :
        (c : CacheMap V) (a : ℕ)
        → now ≤ℤ end
        → ltb_ℤ (c.items a).next_update_time now ≡ true
        → IsHeldTo key end c
        → is_at a (lookup key c.data_map) ≡ false
    not_stale c a before stale (b, (e, h)) = rw e (elim (Bool-cases (a == b)) [
      | inl same ↦ absurd (
          let at_b =
            subst (λ (i : ℕ). ltb_ℤ (c.items i).next_update_time now ≡ true) (eq_of same) stale in
          ground (at_b, before, h, arith))
      | inr other ↦ other
    ])

    pub claims_held :
        (seen : ℤ) (a : ℕ) (c : CacheMap V)
        → IsLate c
        → now ≤ℤ end
        → IsHeldTo key end c
        → ((exec key (get_claims seen a now) c).1 ≡ false)
          × IsHeldTo key end (exec key (get_claims seen a now) c).0
    unfolding exec
    claims_held seen a c late before held = elim (claim_cases seen a c) [
      | inl (e, stale) ↦
          rw e (rw (not_stale c a before stale held) refl, put_off_held c a late held)
      | inr e ↦ rw e (ground arith, held)
    ]

    claim_key-Counts :
        (j : ℕ) (o : Option ℕ) (c : CacheMap V) (um : List (ℕ × ℕ)) (new : Bool)
        → lookup j c.data_map ≡ o
        → IsLate c
        → Counts (is_in key um) c
        → Counts (is_in key (claim_key now j o (c, um, new)).1) (claim_key now j o (c, um, new)).0
    unfolding claim_key
    claim_key-Counts j none c um new e late (inr held) = inr (create_held c j late e held)
    claim_key-Counts j none c um new e late (inl none_yet) = elim (Bool-cases (j == key)) [
      | inl same ↦ inr (key_at j c same (created_held c late))
      | inr other ↦ inl (rw (is_in-insert key j c.next um, other) none_yet)
    ]
    claim_key-Counts j (some a) c um new e late h =
        elim (Bool-cases (ltb_ℤ (c.items a).next_update_time now)) [
          | inr fine ↦ rw fine h
          | inl stale ↦ rw stale (elim h [
            | inr held ↦ inr (put_off_held c a late held)
            | inl none_yet ↦ elim (Bool-cases (j == key)) [
              | inl same ↦ inr (
                  put_off_holds c a late
                    (subst (λ (i : ℕ). lookup i c.data_map ≡ some a) (eq_of same) e))
              | inr other ↦ inl (rw (is_in-insert key j a um, other) none_yet)
            ]
          ])
        ]

    claim_key_held :
        (j : ℕ) (o : Option ℕ) (c : CacheMap V) (um : List (ℕ × ℕ)) (new : Bool)
        → lookup j c.data_map ≡ o
        → IsLate c
        → now ≤ℤ end
        → (is_in key um ≡ false) × IsHeldTo key end c
        → (is_in key (claim_key now j o (c, um, new)).1 ≡ false)
          × IsHeldTo key end (claim_key now j o (c, um, new)).0
    unfolding claim_key
    claim_key_held j none c um new e late before (none_yet, held) = (
      rw (is_in-insert key j c.next um, not_key j c e held) none_yet,
      create_held c j late e held,
    )
    claim_key_held j (some a) c um new e late before (none_yet, held) =
        elim (Bool-cases (ltb_ℤ (c.items a).next_update_time now)) [
          | inr fine ↦ rw fine (none_yet, held)
          | inl stale ↦ rw stale (
            elim (Bool-cases (j == key)) [
              | inl same ↦ absurd (
                  let at = subst (λ (i : ℕ). lookup i c.data_map ≡ some a) (eq_of same) e in
                  let off = not_stale c a before stale held in ground (rw at at off, arith))
              | inr other ↦ rw (is_in-insert key j a um, other) none_yet
            ],
            put_off_held c a late held,
          )
        ]

    claim_key_interval :
        (j : ℕ) (o : Option ℕ) (s : CacheMap V × List (ℕ × ℕ) × Bool)
        → (claim_key now j o s).0.retry_interval ≡ s.0.retry_interval
    unfolding claim_key
    claim_key_interval j none (c, um, new) = refl
    claim_key_interval j (some a) (c, um, new) = ground arith

    pub claim_many_interval :
        (keys : List ℕ) (s : CacheMap V × List (ℕ × ℕ) × Bool)
        → (claim_many now keys s).0.retry_interval ≡ s.0.retry_interval
    unfolding claim_many
    claim_many_interval [] s = refl
    claim_many_interval (j ∷ keys) s =
        claim_many_interval keys (claim_key now j (lookup j s.0.data_map) s)
        ∙ claim_key_interval j (lookup j s.0.data_map) s

    later-IsLate :
        (j : ℕ) (s : CacheMap V × List (ℕ × ℕ) × Bool)
        → IsLate s.0
        → IsLate (claim_key now j (lookup j s.0.data_map) s).0
    later-IsLate j s late =
        subst (λ (r : ℤ). end ≤ℤ add_i64 now r)
          (sym (claim_key_interval j (lookup j s.0.data_map) s)) late

    pub claim_many-Counts :
        (keys : List ℕ) (s : CacheMap V × List (ℕ × ℕ) × Bool)
        → IsLate s.0
        → Counts (is_in key s.1) s.0
        → Counts (is_in key (claim_many now keys s).1) (claim_many now keys s).0
    unfolding claim_many
    claim_many-Counts [] s late h = h
    claim_many-Counts (j ∷ keys) (c, um, new) late h =
        claim_many-Counts keys (claim_key now j (lookup j c.data_map) (c, um, new))
          (later-IsLate j (c, um, new) late)
          (claim_key-Counts j (lookup j c.data_map) c um new refl late h)

    pub claim_many_held :
        (keys : List ℕ) (s : CacheMap V × List (ℕ × ℕ) × Bool)
        → IsLate s.0
        → now ≤ℤ end
        → (is_in key s.1 ≡ false) × IsHeldTo key end s.0
        → (is_in key (claim_many now keys s).1 ≡ false) × IsHeldTo key end (claim_many now keys s).0
    unfolding claim_many
    claim_many_held [] s late before h = h
    claim_many_held (j ∷ keys) (c, um, new) late before h =
        claim_many_held keys (claim_key now j (lookup j c.data_map) (c, um, new))
          (later-IsLate j (c, um, new) late) before
          (claim_key_held j (lookup j c.data_map) c um new refl late before h)
