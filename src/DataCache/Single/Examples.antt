-- ===== src/DataCache/Single/Examples.antt =====
-- Runs of the cache at concrete inputs.
use framego.Prelude.{ℕ, ◌≤◌, ◌≡◌, refl, true, false, List, [], ◌∷◌, arith, some}
use framego.Prelude.Int.{ℤ, pos, ◌<ℤ◌, ◌+ℤ◌, i64}
use framego.DataCache.Single.{DataCache, claim, run_events, Event, called, loaded, wait}
use framego.DataCache.Single.Claims.{loads, single_flight}
use framego.DataCache.Single.Waiting.{wait_ends}
use framego.DataCache.Single.Data.{last_kept, run_events_data}

-- A number, expired after a second; the first one is waited for.
abbrev numbers : DataCache ℕ
numbers = record {
  data_ = 0;
  expiration = pos 1000000000;
  expiration_on_err = pos 0;
  retry_interval = pos 2000000000;
  wait_timeout = pos 5000000;
  init_cut_off_time = pos 0;
  next_update_time = pos 0;
}

abbrev calls : List (ℤ × ℤ)
calls = (pos 0, pos 7000) ∷ (pos 0, pos 6000) ∷ (pos 1, pos 900000) ∷ []

abbrev waiting : DataCache ℕ
waiting = record numbers { init_cut_off_time = pos 5007000 }

abbrev events : List (Event ℕ)
events =
    called (pos 0) (pos 7000) ∷ loaded (41, true) (pos 8000) ∷ loaded (42, false) (pos 9000) ∷ []

starts_once : loads calls numbers ≡ 1
unfolding claim i64 ◌+ℤ◌
starts_once = refl

single_flight_example : loads calls numbers ≤ 1
unfolding i64 ◌+ℤ◌
single_flight_example =
    single_flight calls numbers (pos 5000)
      ((omega arith, omega arith), ((omega arith, omega arith), ((omega arith, omega arith), tt)))
      (omega arith, (omega arith, (omega arith, tt)))

wait_ends_example :
    (r : ℤ × ℕ) × ((wait 7 0 (λ (j : ℕ). pos 5007000) (pos 7000) ≡ some r)
      × (pos 5007000 <ℤ r.0)
      × (r.1 ≤ 6))
wait_ends_example =
    wait_ends 6 0 (λ (j : ℕ). pos 5007000) 7000 5007000 (λ (j : ℕ). omega arith) (omega arith)
      (omega arith)

run_events_data_example : (run_events events numbers).data_ ≡ last_kept false 0 events
run_events_data_example = run_events_data events numbers
