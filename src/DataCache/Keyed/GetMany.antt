-- ===== src/DataCache/Keyed/GetMany.antt =====
-- A key that `GetMany` leaves out.
use framego.Prelude.{
  ℕ, ◌≡◌, refl, Bool, true, false, List, [], ◌∷◌, ◌++◌, none, some, ◌==◌, if◌then◌else◌, arith,
}
use framego.Prelude.Int.{ℤ, ltb_ℤ}
use framego.Prelude.Assoc.{lookup, insert, elem, lookup-insert, lookup-delete}
use framego.DataCache.Keyed.{CacheMap, scan, scan_key, claim_key, claim_many, collect, get_many}

abbrev pub is_in : {V : Type 0} → ℕ → List (ℕ × V) → Bool
is_in k m = elim (lookup k m) [ none ↦ false | some v ↦ true ]

pub is_in-insert :
    {V : Type 0}
    → (k j : ℕ) (v : V) (m : List (ℕ × V))
    → is_in k (insert j v m) ≡ (if j == k then true else is_in k m)
is_in-insert k j v m = ground (arith, lookup-insert k j v m, lookup-delete k j m)

pub elem-snoc :
    (k j : ℕ) (ks : List ℕ) → elem k (ks ++ j ∷ []) ≡ (if elem k ks then true else j == k)
elem-snoc k j [] = ground arith
elem-snoc k j (i ∷ ks) = ground (arith, elem-snoc k j ks)

module _ {V : Type 0} where
  -- A key that had no item when `GetMany` looked first, and has one that is not expired when it looks again under the write lock, since another call is loading it, has no entry in the result.
  pub get_many_misses :
      (zero_value : V) (between after : CacheMap V → CacheMap V) (k a : ℕ) (now : ℤ)
      (c : CacheMap V)
      → lookup k c.data_map ≡ none
      → lookup k (between c).data_map ≡ some a
      → ltb_ℤ ((between c).items a).next_update_time now ≡ false
      → get_many zero_value between after (k ∷ []) now c ≡ []
  unfolding get_many scan scan_key claim_many claim_key collect
  get_many_misses zero_value between after k a now c none_yet made later =
      rw (none_yet, made, later) refl
