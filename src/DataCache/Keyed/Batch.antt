-- ===== src/DataCache/Keyed/Batch.antt =====
-- What a batch of loads leaves in the items.
use framego.Prelude.{
  ℕ, ◌≡◌, refl, false, List, [], ◌∷◌, some, ◌==◌, ==_iff, subst, arith, Bool-cases, inl, inr,
}
use framego.Prelude.Int.{ℤ}
use framego.Prelude.Assoc.{lookup, elem}
use framego.DataCache.Keyed.{CacheMap, store, store_batch, update_batch, value_of}

abbrev pub addresses : List (ℕ × ℕ) → List ℕ
addresses [] = []
addresses ((k, a) ∷ m) = a ∷ addresses m

-- No two entries share an item.
abbrev pub IsUnshared : List (ℕ × ℕ) → Type 0
IsUnshared [] = Unit {0}
IsUnshared ((k, a) ∷ m) = (elem a (addresses m) ≡ false) × IsUnshared m

module _ {V : Type 0} where
  store_batch_others :
      (zero_value : V) (um : List (ℕ × ℕ)) (loaded : List (ℕ × V)) (expire now : ℤ) (c : CacheMap V)
      (b : ℕ)
      → elem b (addresses um) ≡ false
      → (store_batch zero_value um loaded expire now c).items b ≡ c.items b
  store_batch_others zero_value [] loaded expire now c b h = refl
  store_batch_others zero_value ((k, a) ∷ um) loaded expire now c b h =
      let rest =
        store_batch_others zero_value um loaded expire now
          (store c a (value_of zero_value (lookup k loaded)) expire now) b (ground (h, arith)) in
      rw rest (ground (h, arith))

  store_batch_value :
      (zero_value : V) (um : List (ℕ × ℕ)) (loaded : List (ℕ × V)) (expire now : ℤ) (c : CacheMap V)
      (k a : ℕ)
      → IsUnshared um
      → lookup k um ≡ some a
      → ((store_batch zero_value um loaded expire now c).items a).data_
        ≡ some (value_of zero_value (lookup k loaded))
  store_batch_value zero_value [] loaded expire now c k a own e = absurd (ground (e, arith))
  store_batch_value zero_value ((j, b) ∷ um) loaded expire now c k a own e =
      elim (Bool-cases (j == k)) [
        | inl same ↦
            let jk : j ≡ k = (==_iff j k).0 same in
            let ba : b ≡ a = ground (e, same, arith) in
            let others =
              store_batch_others zero_value um loaded expire now
                (store c b (value_of zero_value (lookup j loaded)) expire now) a
                (subst (λ (x : ℕ). elem x (addresses um) ≡ false) ba own.0) in
            rw (others, (==_iff b a).1 ba, jk) refl
        | inr other ↦
            store_batch_value zero_value um loaded expire now
              (store c b (value_of zero_value (lookup j loaded)) expire now) k a own.1
              (ground (e, other, arith))
      ]

  -- After a batch that was loaded without an error, each key's item holds the key's value, or the zero value if the load gave none, every other item is as it was, and the caller's wait ends; condition: no two keys share an item.
  pub update_batch_lem :
      (zero_value : V) (um : List (ℕ × ℕ)) (loaded : List (ℕ × V)) (cut now : ℤ) (c : CacheMap V)
      (k a b : ℕ)
      → IsUnshared um
      → lookup k um ≡ some a
      → elem b (addresses um) ≡ false
      → (((update_batch zero_value um loaded false cut now c).0.items a).data_
          ≡ some (value_of zero_value (lookup k loaded)))
        × ((update_batch zero_value um loaded false cut now c).0.items b ≡ c.items b)
        × ((update_batch zero_value um loaded false cut now c).1 ≡ now)
  unfolding update_batch
  update_batch_lem zero_value um loaded cut now c k a b own e other = (
    store_batch_value zero_value um loaded c.expiration now c k a own e,
    store_batch_others zero_value um loaded c.expiration now c b other,
    refl,
  )
