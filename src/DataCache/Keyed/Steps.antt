-- ===== src/DataCache/Keyed/Steps.antt =====
-- The steps of many calls of `Get` and `GetMany`, and how often they start a load of a key. The claim of
-- `GetMany` is one step: it holds the map's lock, which a claim of `Get` does not take, so a schedule is one
-- in which no call of `Get` claims an item meanwhile.
use framego.Prelude.{
  ℕ, ◌+◌, Bool, false, ◌&&◌, List, [], ◌∷◌, Option, none, some, ◌==◌, if◌then◌else◌,
}
use framego.Prelude.Int.{ℤ, ◌≤ℤ◌}
use framego.Prelude.Assoc.{lookup}
use framego.DataCache.Keyed.{CacheMap, find, claim, count, claim_many}
use framego.DataCache.Keyed.GetMany.{is_in}

-- The look of `Get` for a key, with what its read lock showed; its claim of the item at an address, with
-- the time that it read before; and the claim of `GetMany` for its uncached keys. Each has its time.
pub data Step : Type 0 where
  get_looks : Bool → ℕ → ℤ → Step
  get_claims : ℤ → ℕ → ℤ → Step
  get_many_claims : List ℕ → ℤ → Step

abbrev pub time_of : Step → ℤ
time_of (get_looks saw key now) = now
time_of (get_claims seen a now) = now
time_of (get_many_claims keys now) = now

abbrev pub IsWithin : ℤ → ℤ → Step → Type 0
IsWithin t end step = (t ≤ℤ time_of step) × (time_of step ≤ℤ end)

abbrev pub is_at : ℕ → Option ℕ → Bool
is_at a none = false
is_at a (some b) = a == b

module _ {V : Type 0} where
  abbrev pub looked : ℕ → Bool → ℕ → ℤ → CacheMap V → CacheMap V × ℕ × Bool
  looked key saw j now c = find (if saw then lookup j c.data_map else none) j now c

  -- The cache after a step, and whether the step starts a load of the key.
  unfoldable pub exec : ℕ → Step → CacheMap V → CacheMap V × Bool
  unfolding find claim claim_many
  exec key (get_looks saw j now) c =
      let found = looked key saw j now c in (found.0, j == key && found.2)
  exec key (get_claims seen a now) c =
      let claimed = claim seen a now c in (claimed.0, is_at a (lookup key c.data_map) && claimed.1)
  exec key (get_many_claims keys now) c =
      let claimed = claim_many now keys (c, [], false) in (claimed.0, is_in key claimed.1)

  unfoldable pub loads : ℕ → List Step → CacheMap V → ℕ
  unfolding exec
  loads key [] c = 0
  loads key (step ∷ later) c = count (exec key step c).1 + loads key later (exec key step c).0
