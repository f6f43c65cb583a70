-- ===== src/DataCache/Single/Waiting.antt =====
-- How long `Get` waits for the first data.
use framego.Prelude.{
  ℕ, zero, suc, ◌+◌, ◌*◌, ◌^◌, ◌≤◌, ◌<◌, ◌≡◌, refl, true, false, List, [], ◌∷◌, All, arith,
  Bool-cases, inl, inr, some,
}
use framego.Prelude.Int.{ℤ, pos, negsuc, ltb_ℤ, ◌≤ℤ◌, ◌<ℤ◌, add_i64-pos}
use framego.DataCache.Single.{
  DataCache, claim, claim_locked, finish_load, is_unset, act, run_events, Event, called, loaded,
  wait,
}

-- The cut-off is set, and is at most `limit`.
abbrev pub IsCutBy : {T : Type 0} → ℤ → DataCache T → Type 0
IsCutBy limit c = (pos 0 <ℤ c.init_cut_off_time) × (c.init_cut_off_time ≤ℤ limit)

abbrev pub IsLater : {T : Type 0} → Event T → Type 0
IsLater (called seen now) = pos 0 <ℤ now
IsLater (loaded result now) = pos 0 <ℤ now

is_unset-false : (z : ℤ) → pos 0 <ℤ z → is_unset z ≡ false
is_unset-false (pos zero) h = absurd (omega arith)
is_unset-false (pos (suc n)) h = refl
is_unset-false (negsuc n) h = refl

module _ {T : Type 0} where
  act-IsCutBy :
      (e : Event T) (c : DataCache T) (limit : ℤ)
      → IsLater e
      → IsCutBy limit c
      → IsCutBy limit (act e c)
  unfolding act claim claim_locked finish_load
  act-IsCutBy (called seen now) c limit later h =
      let unset = is_unset-false c.init_cut_off_time h.0 in ground (unset, arith)
  act-IsCutBy (loaded (value, err) now) c limit later h = elim err [
    | true ↦ ground arith
    | false ↦ ground arith
  ]

  -- Once the cut-off of the first wait is set, no later call of `Get` and no end of a load, in any order, unsets it or puts it off; condition: their times are after the epoch.
  pub run_events-IsCutBy :
      (events : List (Event T)) (c : DataCache T) (limit : ℤ)
      → All IsLater events
      → IsCutBy limit c
      → IsCutBy limit (run_events events c)
  unfolding run_events
  run_events-IsCutBy [] c limit later h = h
  run_events-IsCutBy (e ∷ events) c limit later h =
      run_events-IsCutBy events (act e c) limit later.1 (act-IsCutBy e c limit later.0 h)

wait_ends_now :
    (fuel i : ℕ) (cut : ℕ → ℤ) (now : ℕ)
    → ltb_ℤ (cut i) (pos now) ≡ true
    → wait (suc fuel) i cut (pos now) ≡ some (pos now, i)
unfolding wait
wait_ends_now fuel i cut now e = rw e refl

wait_goes_on :
    (fuel i : ℕ) (cut : ℕ → ℤ) (now : ℕ)
    → now + 1000000 < 2 ^ 63
    → ltb_ℤ (cut i) (pos now) ≡ false
    → wait (suc fuel) i cut (pos now) ≡ wait fuel (suc i) cut (pos (now + 1000000))
unfolding wait
wait_goes_on fuel i cut now fits e = rw (e, add_i64-pos now 1000000 fits) refl

-- The wait of `Get` ends: when no cut-off that it reads is after `limit`, and `rounds` milliseconds from its start are past `limit`, then fuel for one round more is enough, and it ends at a time after the cut-off that it read last; conditions: it starts after the epoch, and one millisecond past `limit` fits an `int64`.
pub wait_ends :
    (rounds i : ℕ) (cut : ℕ → ℤ) (now limit : ℕ)
    → ((j : ℕ) → cut j ≤ℤ pos limit)
    → limit < now + rounds * 1000000
    → limit + 1000000 < 2 ^ 63
    → ((r : ℤ × ℕ) × ((wait (suc rounds) i cut (pos now) ≡ some r)
          × (cut r.1 <ℤ r.0)
          × (r.1 ≤ i + rounds)))
wait_ends zero i cut now limit below enough fits =
    let last = below i in
    ((pos now, i), (wait_ends_now zero i cut now (ground arith), omega arith, omega arith))
wait_ends (suc rounds) i cut now limit below enough fits =
    elim (Bool-cases (ltb_ℤ (cut i) (pos now))) [
      | inl e ↦ ((pos now, i), (wait_ends_now (suc rounds) i cut now e, ground arith, omega arith))
      | inr e ↦
          let last = below i in
          let early : now ≤ limit = ground arith in
          let rest = wait_ends rounds (suc i) cut (now + 1000000) limit below (omega arith) fits in
          let bound = rest.1.2 in
          (
            rest.0,
            (
              rw (wait_goes_on (suc rounds) i cut now (omega arith) e) rest.1.0,
              rest.1.1,
              omega arith,
            ),
          )
    ]
