-- ===== src/DataCache/Keyed/Examples.antt =====
-- Runs of the keyed cache at concrete inputs.
use framego.Prelude.{ℕ, ◌≤◌, ◌≡◌, ◌↔◌, refl, false, List, [], ◌∷◌, arith, some, if◌then◌else◌}
use framego.Prelude.Int.{ℤ, pos, ltb_ℤ, i64, ◌+ℤ◌, ◌≤ℤ◌}
use framego.Prelude.Assoc.{lookup}
use framego.DataCache.Keyed.{CacheItem, CacheMap, evict_keys, get_many}
use framego.DataCache.Keyed.Answers.{IsOwned, claimed_of, IsAnswer, lookup-get_many}
use framego.DataCache.Keyed.Evict.{lookup-evict_keys}
use framego.DataCache.Keyed.Once.{single_flight_of_key}
use framego.DataCache.Keyed.Steps.{Step, get_looks, get_claims, get_many_claims, loads}

abbrev item : ℤ → CacheItem ℕ
item evict_time = record {
  data_ = some 5;
  next_update_time = pos 9000;
  init_cut_off_time = pos 10;
  evict_time = evict_time;
}

-- Key 3 is in use, key 4 has not been for a while.
abbrev held : CacheMap ℕ
held = record {
  data_map = (3, 0) ∷ (4, 1) ∷ [];
  items = λ a. item (if ltb_ℤ (pos a) (pos 1) then pos 8000 else pos 2000);
  next = 2;
  expiration = pos 1000;
  expiration_on_err = pos 0;
  retry_interval = pos 1000000000;
  wait_timeout = pos 0;
  evict_timeout = pos 5000;
}

abbrev empty : CacheMap ℕ
empty = record held { data_map = []; next = 0 }

-- Two calls for key 3 look before it has an item, one of them claims, and `GetMany` comes between.
abbrev steps : List Step
steps =
    get_looks false 3 (pos 7000)
    ∷ get_looks false 3 (pos 6000)
    ∷ get_many_claims (8 ∷ 3 ∷ []) (pos 6200)
    ∷ get_claims (pos 5) 0 (pos 6500)
    ∷ []

lookup-evict_keys_example :
    (lookup 4 (evict_keys held (pos 3000)).data_map ≡ some 1)
    ↔ ((lookup 4 held.data_map ≡ some 1) × (pos 3000 ≤ℤ (held.items 1).evict_time))
lookup-evict_keys_example = lookup-evict_keys held (pos 3000) 4 1 (refl, (refl, tt))

single_flight_of_key_example : loads 3 steps empty ≤ 1
unfolding i64 ◌+ℤ◌
single_flight_of_key_example =
    single_flight_of_key 3 steps (pos 5000) empty
      (
        (omega arith, omega arith),
        (
          (omega arith, omega arith),
          ((omega arith, omega arith), ((omega arith, omega arith), tt)),
        ),
      )
      (omega arith, (omega arith, (omega arith, (omega arith, tt))))

held-IsOwned : IsOwned 0 held
held-IsOwned = (λ k a e. ground (e, arith), λ j k a e f. ground (e, f, arith))

-- Key 3 has an item that is to be updated, and key 9 has none.
lookup-get_many_example :
    IsAnswer 0 3
      (3 ∷ 9 ∷ [])
      (pos 9500)
      held
      (claimed_of 0 (3 ∷ 9 ∷ []) (pos 9500) held).0
      (lookup 3 held.data_map)
      (lookup 3
        (get_many 0 (λ (d : CacheMap ℕ). d) (λ (d : CacheMap ℕ). d) (3 ∷ 9 ∷ []) (pos 9500) held))
lookup-get_many_example =
    lookup-get_many 0 (λ (d : CacheMap ℕ). d) (3 ∷ 9 ∷ []) (pos 9500) held 3 held-IsOwned refl
