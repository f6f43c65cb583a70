-- ===== src/Health/Runner/Cycle.antt =====
-- One cycle of the runner, and cycles that overlap.
use framego.Prelude.{
  ℕ, zero, suc, ◌+◌, ◌≤◌, ◌≡◌, ◌≢◌, ◌↔◌, refl, ◌⊎◌, inl, inr, true, false, List, [], ◌∷◌, Option,
  none, some, Bool-cases, if◌then◌else◌, arith,
}
use framego.Health.Status.{unhealthy, Status, equal, equal_iff}
use framego.Health.Runner.{
  Runner, Outcome, unchanged, reported, dropped, panicked, begin_cycle, end_cycle, take_report,
  RunOption, new_runner,
}

-- The ways in which a cycle can end with the status `s`, with all that it leaves behind: the same
-- status again; an unhealthy one under `WithPanicOnError`; a new one that fits the report channel;
-- a new one that does not. The runner is free for the next cycle in each.
abbrev pub Outcomes : {C : Type 0} → Runner C → Status → Runner C × Outcome → Type 0
Outcomes r s q =
    ((s ≡ r.last_status) × (q ≡ (record r { running_check_cycle = false }, unchanged)))
    ⊎ ((s ≢ r.last_status)
        × (((s.state ≡ unhealthy)
              × (r.opts.panic_on_error ≡ true)
              × (q ≡ (record r { running_check_cycle = false }, panicked s)))
            ⊎ (((s.state ≢ unhealthy) ⊎ (r.opts.panic_on_error ≡ false))
                × (((r.report_chan ≡ none)
                      × (q ≡ (
                        record r {
                          running_check_cycle = false;
                          last_status = s;
                          report_chan = some s;
                        },
                        reported,
                      )))
                    ⊎ ((r.report_chan ≢ none)
                        × (q ≡ (
                          record r { running_check_cycle = false; last_status = s },
                          dropped,
                        )))))))

-- `runHealthCheck` behind its check ends in just the ways of `Outcomes`.
pub end_cycle_lem : {C : Type 0} (r : Runner C) (s : Status) → Outcomes r s (end_cycle r s)
unfolding end_cycle
end_cycle_lem r s = elim (Bool-cases (equal s r.last_status)) [
  | inl same ↦ inl ((equal_iff s r.last_status).0 same, ground arith)
  | inr other ↦ inr ((λ e. ground (arith, (equal_iff s r.last_status).1 e)), ground arith)
]

-- What happens around one runner: a tick starts a cycle (or finds one running), the check of a
-- cycle that is running gives a status, a reader takes a report.
pub data Event : Type 0 where
  tick take : Event
  checked : Status → Event

-- The runner, and how many cycles are between their compare-and-swap and their end.
pub record System (C : Type 0) : Type 0 where
  pub runner : Runner C
  pub cycles : ℕ

module _ {C : Type 0} where
  begun : System C → Option (Runner C) → System C
  begun y none = y
  begun y (some r) = record { runner = r; cycles = y.cycles + 1 }

  -- No status comes while no cycle runs.
  ended : ℕ → System C → Status → System C
  ended zero y s = y
  ended (suc n) y s = record { runner = (end_cycle y.runner s).0; cycles = n }

  pub exec : Event → System C → System C
  unfolding begun ended
  exec tick y = begun y (begin_cycle y.runner)
  exec take y = record y { runner = (take_report y.runner).0 }
  exec (checked s) y = ended y.cycles y s

  pub exec_all : List Event → System C → System C
  exec_all [] y = y
  exec_all (e ∷ later) y = exec_all later (exec e y)

  -- The flag of the runner counts its cycles.
  abbrev pub IsCounted : System C → Type 0
  IsCounted y = y.cycles ≡ (if y.runner.running_check_cycle then 1 else 0)

  end_cycle-running : (r : Runner C) (s : Status) → (end_cycle r s).0.running_check_cycle ≡ false
  unfolding end_cycle
  end_cycle-running r s = ground arith

  ended-IsCounted :
      (n : ℕ) (y : System C) (s : Status) → n ≡ y.cycles → IsCounted y → IsCounted (ended n y s)
  unfolding ended
  ended-IsCounted zero y s e h = h
  ended-IsCounted (suc n) y s e h = ground (arith, end_cycle-running y.runner s)

  exec-IsCounted : (e : Event) (y : System C) → IsCounted y → IsCounted (exec e y)
  unfolding exec begin_cycle take_report
  exec-IsCounted tick y h = ground arith
  exec-IsCounted take y h = h
  exec-IsCounted (checked s) y h = ended-IsCounted y.cycles y s refl h

  exec_all-IsCounted : (es : List Event) (y : System C) → IsCounted y → IsCounted (exec_all es y)
  unfolding exec_all
  exec_all-IsCounted [] y h = h
  exec_all-IsCounted (e ∷ later) y h = exec_all-IsCounted later (exec e y) (exec-IsCounted e y h)

  IsCounted-one :
      (y : System C)
      → IsCounted y
      → (y.cycles ≤ 1) × ((y.cycles ≡ 1) ↔ (y.runner.running_check_cycle ≡ true))
  IsCounted-one y h = ground arith

-- A new runner, after these events.
abbrev pub history : (C : Type 0) → List RunOption → List Event → System C
history C options es = exec_all es (record { runner = new_runner options; cycles = 0 })

history-IsCounted :
    (C : Type 0) (options : List RunOption) (es : List Event) → IsCounted (history C options es)
unfolding new_runner
history-IsCounted C options es =
    exec_all-IsCounted es (record { runner = new_runner options; cycles = 0 }) refl

-- However ticks and checks overlap, at most one cycle runs at a time, and one is on its way exactly
-- while the flag is set.
pub one_cycle :
    (C : Type 0) (options : List RunOption) (es : List Event)
    → ((history C options es).cycles ≤ 1)
      × (((history C options es).cycles ≡ 1)
          ↔ ((history C options es).runner.running_check_cycle ≡ true))
one_cycle C options es = IsCounted-one (history C options es) (history-IsCounted C options es)
