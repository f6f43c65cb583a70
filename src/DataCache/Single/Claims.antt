-- ===== src/DataCache/Single/Claims.antt =====
-- Who updates the cache, and what an update leaves.
use mathlib.Core.Path.{sym, subst}
use framego.Prelude.{
  ℕ, ◌+◌, ◌≤◌, ◌≡◌, refl, true, false, List, [], ◌∷◌, ◌⊎◌, All, if◌then◌else◌, arith, inl, inr,
}
use framego.Prelude.Int.{ℤ, ◌≤ℤ◌, ◌<ℤ◌, ◌+ℤ◌, add_i64, IsInt64, add_i64_parts, +ℤ_parts}
use framego.DataCache.Single.{DataCache, claim, finish_load}

-- The call comes at or after `t` and before `end`.
abbrev pub IsWithin : ℤ → ℤ → ℤ × ℤ → Type 0
IsWithin t end (seen, now) = (t ≤ℤ now) × (now <ℤ end)

module _ {T : Type 0} where
  -- How many of these calls of `Get`, each with the time that it read and its own time, start a load.
  abbrev pub loads : List (ℤ × ℤ) → DataCache T → ℕ
  loads [] c = 0
  loads ((seen, now) ∷ later) c =
      (if (claim seen now c).1 then 1 else 0) + loads later (claim seen now c).0

  claim_early :
      (seen now : ℤ) (c : DataCache T)
      → now <ℤ c.next_update_time
      → ((claim seen now c).1 ≡ false)
        × ((claim seen now c).0.next_update_time ≡ c.next_update_time)
  unfolding claim
  claim_early seen now c h = ground arith

  no_more_loads :
      (calls : List (ℤ × ℤ)) (c : DataCache T) (t end : ℤ)
      → All (IsWithin t end) calls
      → end ≤ℤ c.next_update_time
      → loads calls c ≡ 0
  no_more_loads [] c t end h late = refl
  no_more_loads ((seen, now) ∷ later) c t end h late =
      let early = claim_early seen now c (omega arith) in
      let rest =
        no_more_loads later (claim seen now c).0 t end h.1
          (subst (λ (u : ℤ). end ≤ℤ u) (sym early.1) late) in
      rw (early.0, rest) (omega arith)

  -- A call that starts a load puts the next one off by the retry interval; one that does not leaves
  -- its time as it was.
  claim_cases :
      (seen now : ℤ) (c : DataCache T)
      → (((claim seen now c).1 ≡ true)
          × ((claim seen now c).0.next_update_time ≡ add_i64 now c.retry_interval))
        ⊎ (((claim seen now c).1 ≡ false)
            × ((claim seen now c).0.next_update_time ≡ c.next_update_time)
            × ((claim seen now c).0.retry_interval ≡ c.retry_interval))
  unfolding claim
  claim_cases seen now c = ground arith

  end_before :
      (seen now : ℤ) (c : DataCache T) (t : ℤ)
      → IsWithin t (t +ℤ c.retry_interval) (seen, now)
      → IsInt64 (now +ℤ c.retry_interval)
      → (claim seen now c).0.next_update_time ≡ add_i64 now c.retry_interval
      → (t +ℤ c.retry_interval) ≤ℤ (claim seen now c).0.next_update_time
  end_before seen now c t h fits e =
      let sum = add_i64_parts now c.retry_interval fits in
      let exact = +ℤ_parts t c.retry_interval in rw e (omega (sum, exact, arith))

  -- Of the calls of `Get` that come within one retry interval, in any order of their times, at most one starts a load, while no load ends; condition: the times with the interval added fit an `int64`.
  pub single_flight :
      (calls : List (ℤ × ℤ)) (c : DataCache T) (t : ℤ)
      → All (IsWithin t (t +ℤ c.retry_interval)) calls
      → All (λ (call : ℤ × ℤ). IsInt64 (call.1 +ℤ c.retry_interval)) calls
      → loads calls c ≤ 1
  single_flight [] c t h fits = omega arith
  single_flight ((seen, now) ∷ later) c t h fits = elim (claim_cases seen now c) [
    | inl e ↦
        let none_later =
          no_more_loads later (claim seen now c).0 t (t +ℤ c.retry_interval) h.1
            (end_before seen now c t h.0 fits.0 e.1) in
        rw (e.0, none_later) (omega arith)
    | inr e ↦
        let later_too =
          single_flight later (claim seen now c).0 t
            (subst (λ (r : ℤ). All (IsWithin t (t +ℤ r)) later) (sym e.2) h.1)
            (subst (λ (r : ℤ). All (λ (call : ℤ × ℤ). IsInt64 (call.1 +ℤ r)) later) (sym e.2)
              fits.1) in
        rw e.0 (omega (later_too, arith))
  ]

  -- After a load without an error that ended at `now`, the cache holds what it gave, and no call of `Get` before the expiration starts another; condition: the end of the expiration fits an `int64`.
  pub finish_load_fresh :
      (calls : List (ℤ × ℤ)) (c : DataCache T) (value : T) (now : ℤ)
      → IsInt64 (now +ℤ c.expiration)
      → All (IsWithin now (now +ℤ c.expiration)) calls
      → ((finish_load c (value, false) now).data_ ≡ value)
        × (loads calls (finish_load c (value, false) now) ≡ 0)
  unfolding finish_load
  finish_load_fresh calls c value now fits h = (
    refl,
    no_more_loads calls (finish_load c (value, false) now) now (now +ℤ c.expiration) h (
        let sum = add_i64_parts now c.expiration fits in
        let exact = +ℤ_parts now c.expiration in omega (sum, exact, arith)),
  )
