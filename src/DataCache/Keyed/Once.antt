-- ===== src/DataCache/Keyed/Once.antt =====
-- How often a key is loaded in a retry interval.
use framego.Prelude.{
  ℕ, ◌⊎◌, ◌≤◌, ◌≡◌, refl, ◌∙◌, Bool, true, false, List, [], ◌∷◌, All, arith, inl, inr,
}
use framego.Prelude.Int.{ℤ, pos, ◌≤ℤ◌, ◌+ℤ◌, IsInt64, add_i64_parts, +ℤ_parts}
use framego.DataCache.Keyed.{CacheMap, find, claim, count}
use framego.DataCache.Keyed.Steps.{
  Step, get_looks, get_claims, get_many_claims, time_of, IsWithin, exec, loads,
}
use framego.DataCache.Keyed.Held.{
  IsHeldTo, IsLate, looks-Counts, looks_held, claims-Counts, claims_held, claim_many_interval,
  claim_many-Counts, claim_many_held,
}

module _ {V : Type 0} where
  exec_counts :
      (key : ℕ) (end : ℤ) (step : Step) (c : CacheMap V)
      → IsLate key end (time_of step) c
      → ((exec key step c).1 ≡ false) ⊎ IsHeldTo key end (exec key step c).0
  unfolding exec
  exec_counts key end (get_looks saw j now) c late = looks-Counts key end now saw j c late
  exec_counts key end (get_claims seen a now) c late = claims-Counts key end now seen a c late
  exec_counts key end (get_many_claims keys now) c late =
      claim_many-Counts key end now keys (c, [], false) late (inl refl)

  exec_held :
      (key : ℕ) (end : ℤ) (step : Step) (c : CacheMap V)
      → IsLate key end (time_of step) c
      → time_of step ≤ℤ end
      → IsHeldTo key end c
      → ((exec key step c).1 ≡ false) × IsHeldTo key end (exec key step c).0
  unfolding exec
  exec_held key end (get_looks saw j now) c late before held =
      looks_held key end now saw j c late held
  exec_held key end (get_claims seen a now) c late before held =
      claims_held key end now seen a c late before held
  exec_held key end (get_many_claims keys now) c late before held =
      claim_many_held key end now keys (c, [], false) late before (refl, held)

  exec_interval :
      (key : ℕ) (step : Step) (c : CacheMap V)
      → (exec key step c).0.retry_interval ≡ c.retry_interval
  unfolding exec find claim
  exec_interval key (get_looks true j now) c = ground arith
  exec_interval key (get_looks false j now) c = ground arith
  exec_interval key (get_claims seen a now) c = ground arith
  exec_interval key (get_many_claims keys now) c =
      claim_many_interval key (pos 0) now keys (c, [], false)

  step-IsLate :
      (key : ℕ) (t r : ℤ) (step : Step) (c : CacheMap V)
      → c.retry_interval ≡ r
      → IsWithin t (t +ℤ r) step
      → IsInt64 (time_of step +ℤ r)
      → IsLate key (t +ℤ r) (time_of step) c
  step-IsLate key t r step c e within fits =
      let sum = add_i64_parts (time_of step) r fits in
      let exact = +ℤ_parts t r in rw e (omega (sum, exact, within.0, arith))

  no_more_loads :
      (key : ℕ) (steps : List Step) (t r : ℤ) (c : CacheMap V)
      → c.retry_interval ≡ r
      → All (IsWithin t (t +ℤ r)) steps
      → All (λ (step : Step). IsInt64 (time_of step +ℤ r)) steps
      → IsHeldTo key (t +ℤ r) c
      → loads key steps c ≡ 0
  unfolding loads
  no_more_loads key [] t r c e within fits held = refl
  no_more_loads key (step ∷ later) t r c e within fits held =
      let (none_now, held') =
        exec_held key (t +ℤ r) step c (step-IsLate key t r step c e within.0 fits.0) within.0.1
          held in
      let rest =
        no_more_loads key later t r (exec key step c).0 (exec_interval key step c ∙ e) within.1
          fits.1 held' in
      rw (none_now, rest) (omega arith)

  loads_once :
      (key : ℕ) (steps : List Step) (t r : ℤ) (c : CacheMap V)
      → c.retry_interval ≡ r
      → All (IsWithin t (t +ℤ r)) steps
      → All (λ (step : Step). IsInt64 (time_of step +ℤ r)) steps
      → loads key steps c ≤ 1
  unfolding loads
  loads_once key [] t r c e within fits = omega arith
  loads_once key (step ∷ later) t r c e within fits =
      let kept = exec_interval key step c ∙ e in
      elim (exec_counts key (t +ℤ r) step c (step-IsLate key t r step c e within.0 fits.0)) [
        | inl none_now ↦
            rw none_now
              (omega (loads_once key later t r (exec key step c).0 kept within.1 fits.1, arith))
        | inr held ↦
            let rest = no_more_loads key later t r (exec key step c).0 kept within.1 fits.1 held in
            rw rest (omega (at_most_one (exec key step c).1, arith))
      ]
    where
      at_most_one : (b : Bool) → count b ≤ 1
      at_most_one true = omega arith
      at_most_one false = omega arith

  -- Of the looks and claims of calls of `Get`, and the claims of calls of `GetMany` during which no `Get` claims an item, for any keys and in any order, that come within one retry interval, at most one starts a load of a given key, while no load ends and nothing is evicted; condition: the times with the interval added fit an `int64`.
  pub single_flight_of_key :
      (key : ℕ) (steps : List Step) (t : ℤ) (c : CacheMap V)
      → All (IsWithin t (t +ℤ c.retry_interval)) steps
      → All (λ (step : Step). IsInt64 (time_of step +ℤ c.retry_interval)) steps
      → loads key steps c ≤ 1
  single_flight_of_key key steps t c within fits =
      loads_once key steps t c.retry_interval c refl within fits
