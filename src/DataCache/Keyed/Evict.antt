-- ===== src/DataCache/Keyed/Evict.antt =====
-- Which keys are evicted.
use framego.Prelude.{
  ℕ, ◌≡◌, ◌↔◌, refl, subst, some-eq, Bool-cases, inl, inr, Bool, true, false, List, [], ◌∷◌, Option,
  none, some, if◌then◌else◌, arith,
}
use framego.Prelude.Int.{ℤ, ltb_ℤ, ◌≤ℤ◌}
use framego.Prelude.Assoc.{lookup, elem, lookup-delete_all, IsMap}
use framego.DataCache.Keyed.{
  CacheMap, keys_to_evict, delete_keys, evict_keys, is_evictable, update_evict_time,
}

module _ {V : Type 0} where
  abbrev pub is_stale_at : CacheMap V → ℤ → Option ℕ → Bool
  is_stale_at c now none = false
  is_stale_at c now (some a) = is_evictable c now a

  elem-keys_to_evict :
      (c : CacheMap V) (now : ℤ) (m : List (ℕ × ℕ)) (k : ℕ)
      → IsMap m
      → elem k (keys_to_evict c now m) ≡ is_stale_at c now (lookup k m)
  unfolding keys_to_evict
  elem-keys_to_evict c now [] k h = refl
  elem-keys_to_evict c now ((j, a) ∷ m) k h = ground (arith, elem-keys_to_evict c now m k h.1)

  lookup-evicted :
      (c : CacheMap V) (now : ℤ) (k : ℕ)
      → IsMap c.data_map
      → lookup k (evict_keys c now).data_map
        ≡ (if is_stale_at c now (lookup k c.data_map) then none else lookup k c.data_map)
  unfolding evict_keys delete_keys
  lookup-evicted c now k h =
      rw
        (
          lookup-delete_all k (keys_to_evict c now c.data_map) c.data_map,
          elem-keys_to_evict c now c.data_map k h,
        )
        refl

  -- An eviction with nothing in between keeps an entry exactly if its eviction time is not before the time of the eviction; condition: each key has one entry.
  pub lookup-evict_keys :
      (c : CacheMap V) (now : ℤ) (k a : ℕ)
      → IsMap c.data_map
      → (lookup k (evict_keys c now).data_map ≡ some a)
        ↔ ((lookup k c.data_map ≡ some a) × (now ≤ℤ (c.items a).evict_time))
  lookup-evict_keys c now k a h = rw (lookup-evicted c now k h) (by (lookup k c.data_map))
    where
      by :
          (o : Option ℕ)
          → ((if is_stale_at c now o then none else o) ≡ some a)
            ↔ ((o ≡ some a) × (now ≤ℤ (c.items a).evict_time))
      by none = (λ e. absurd (ground (e, arith)), λ e. absurd (ground (e.0, arith)))
      by (some b) = elim (Bool-cases (ltb_ℤ (c.items b).evict_time now)) [
        | inl t ↦ rw t (
          λ e. absurd (ground (e, arith)),
          λ e. absurd (
              let same =
                subst (λ (i : ℕ). ltb_ℤ (c.items i).evict_time now ≡ true) (some-eq e.0) t in
              ground (same, e.1, arith)),
        )
        | inr f ↦ rw f (
          λ e. (
            e,
            let same = subst (λ (i : ℕ). ltb_ℤ (c.items i).evict_time now ≡ false) (some-eq e) f in
                ground (same, arith),
          ),
          λ e. e.0,
        )
      ]

  update_evict_time_map :
      (c : CacheMap V) (a : ℕ) (now : ℤ) → (update_evict_time c a now).data_map ≡ c.data_map
  unfolding update_evict_time
  update_evict_time_map c a now = ground arith

  -- A key that an eviction has found is removed, even if `Get` puts its eviction time off after the eviction looked, however far; condition: each key has one entry.
  pub delete_keys_used :
      (c : CacheMap V) (now later : ℤ) (k a : ℕ)
      → IsMap c.data_map
      → lookup k c.data_map ≡ some a
      → ltb_ℤ (c.items a).evict_time now ≡ true
      → lookup k
          (delete_keys (update_evict_time c a later) (keys_to_evict c now c.data_map)).data_map
        ≡ none
  unfolding delete_keys
  delete_keys_used c now later k a h e stale =
      let found = elem-keys_to_evict c now c.data_map k h in
      rw
        (
          lookup-delete_all k (keys_to_evict c now c.data_map)
              (update_evict_time c a later).data_map,
          found,
          e,
          stale,
        )
        refl
