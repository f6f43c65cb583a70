-- ===== src/Health/Examples.antt =====
-- Tests and instances for the health package.
use framego.Prelude.{ℕ, ◌≤◌, ◌≡◌, ◌↔◌, refl, true, false, [], ◌∷◌, some, none, arith}
use framego.Health.Status.{unknown, healthy, unhealthy, Status, equal}
use framego.Health.Composite.{start, check_all}
use framego.Health.Composite.Verdict.{worst}
use framego.Health.Composite.Race.{launched, act, run, race_healthy_iff}
use framego.Health.Runner.{Runner, default_options}
use framego.Health.Runner.Cycle.{tick, checked, history, one_cycle}
use framego.Health.Runner.Reports.{reports_of, changes, Alternates, reports_of-changes}
use framego.Health.Server.{Server, Chan, remove_status_chan}
use framego.Health.Server.Channels.{remove_status_chan_panics}

abbrev good : Status
good = record { state = healthy; error = none; source = "" }

abbrev late : Status
late = record { state = unknown; error = none; source = "cache" }

abbrev bad : Status
bad = record { state = unhealthy; error = some 1; source = "database" }

first_unknown_then_unhealthy : check_all (late ∷ good ∷ bad ∷ []) ≡ bad
unfolding check_all
first_unknown_then_unhealthy = refl

race_healthy_iff_example :
    ((run (0 ∷ 1 ∷ 1 ∷ 0 ∷ []) start (launched (late ∷ bad ∷ []))).0.state ≡ healthy)
    ↔ (worst (late ∷ bad ∷ []) ≡ healthy)
unfolding run act
race_healthy_iff_example =
    race_healthy_iff (0 ∷ 1 ∷ 1 ∷ 0 ∷ []) (late ∷ bad ∷ []) (refl, (refl, tt))

abbrev idle_runner : Runner ℕ
idle_runner = record {
  opts = default_options;
  checks = [];
  last_status = late;
  running_check_cycle = false;
  report_chan = none;
  looping = true;
  once_done = true;
  stopped = false;
}

one_cycle_example :
    ((history ℕ [] (tick ∷ tick ∷ checked bad ∷ [])).cycles ≤ 1)
    × (((history ℕ [] (tick ∷ tick ∷ checked bad ∷ [])).cycles ≡ 1)
        ↔ ((history ℕ [] (tick ∷ tick ∷ checked bad ∷ [])).runner.running_check_cycle ≡ true))
one_cycle_example = one_cycle ℕ [] (tick ∷ tick ∷ checked bad ∷ [])

reports_of-changes_example :
    (reports_of idle_runner (bad ∷ bad ∷ good ∷ [])
      ≡ (record idle_runner { last_status = good }, changes late (bad ∷ bad ∷ good ∷ [])))
    × Alternates late (reports_of idle_runner (bad ∷ bad ∷ good ∷ [])).1
reports_of-changes_example =
    reports_of-changes ℕ idle_runner (bad ∷ bad ∷ good ∷ [])
      (record { free = refl; read = refl; lenient = refl })

bad_once : changes late (bad ∷ bad ∷ good ∷ []) ≡ bad ∷ good ∷ []
unfolding equal
bad_once = refl

abbrev watcher : ℕ → Chan
watcher n = record { id = n; place = none }

abbrev two_watchers : Server
two_watchers = record { status_chans = watcher 0 ∷ watcher 1 ∷ []; closed = []; next_id = 2 }

remove_status_chan_panics_example :
    remove_status_chan two_watchers 0
    ≡ (record two_watchers { status_chans = watcher 1 ∷ [] }, false)
remove_status_chan_panics_example =
    remove_status_chan_panics two_watchers [] (watcher 0) (watcher 1) [] refl (omega arith)
