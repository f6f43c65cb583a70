-- ===== src/Health/Runner.antt =====
-- health/runner.go: the runner. A cycle is two steps, since cycles may overlap: `begin_cycle` (the
-- compare-and-swap) and `end_cycle` (all that follows the check, with the status that it gave).
pub mod Cycle
pub mod Reports
use Prim.Native.String.{String}
use framego.Prelude.{
  ℕ, Bool, true, false, ◌&&◌, List, [], ◌∷◌, ◌++◌, Option, none, some, if◌then◌else◌,
}
use framego.Health.Status.{State, unknown, healthy, Status, state_eq, equal}
use framego.Health.Composite.{add_checker}

-- Durations in nanoseconds.
pub record RunOptions : Type 0 where
  pub name : String
  pub interval : ℕ
  pub timeout : ℕ
  pub panic_on_error : Bool

pub data RunOption : Type 0 where
  with_name : String → RunOption
  with_check_interval : ℕ → RunOption
  with_check_timeout : ℕ → RunOption
  with_panic_on_error : Bool → RunOption

abbrev pub default_options : RunOptions
default_options = record {
  name = "";
  interval = 5000000000;
  timeout = 1000000000;
  panic_on_error = false;
}

pub apply_option : RunOption → RunOptions → RunOptions
apply_option (with_name n) o = record o { name = n }
apply_option (with_check_interval d) o = record o { interval = d }
apply_option (with_check_timeout d) o = record o { timeout = d }
apply_option (with_panic_on_error b) o = record o { panic_on_error = b }

options_from : RunOptions → List RunOption → RunOptions
unfolding apply_option
options_from opts [] = opts
options_from opts (o ∷ later) = options_from (apply_option o opts) later

pub apply_options : List RunOption → RunOptions
unfolding options_from
apply_options options = options_from default_options options

-- `checks` are the checkers of the composite, `report_chan` what its channel of one place holds.
pub record Runner (C : Type 0) : Type 0 where
  pub opts : RunOptions
  pub checks : List C
  pub last_status : Status
  pub running_check_cycle : Bool
  pub report_chan : Option Status
  pub looping : Bool
  pub once_done : Bool
  pub stopped : Bool

pub data Outcome : Type 0 where
  unchanged reported dropped : Outcome
  panicked : Status → Outcome

module _ {C : Type 0} where
  pub new_runner : List RunOption → Runner C
  new_runner options = record {
    opts = apply_options options;
    checks = [];
    last_status = record { state = unknown; error = none; source = "" };
    running_check_cycle = false;
    report_chan = none;
    looping = false;
    once_done = false;
    stopped = false;
  }

  pub add_check : Runner C → C → Runner C
  add_check r checker = record r { checks = add_checker r.checks checker }

  -- `none` if a cycle is on its way, and nothing is done.
  pub begin_cycle : Runner C → Option (Runner C)
  begin_cycle r =
      if r.running_check_cycle then none else some (record r { running_check_cycle = true })

  -- The `select` on the report channel.
  pub report : Runner C → Status → Runner C × Outcome
  report r status = elim r.report_chan [
    | none ↦ (record r { report_chan = some status }, reported)
    | some waiting ↦ (r, dropped)
  ]

  -- The deferred compare-and-swap runs on every way out, also when it panics.
  pub release : Runner C × Outcome → Runner C × Outcome
  release (r, outcome) = (record r { running_check_cycle = false }, outcome)

  pub changed : State → Bool → Runner C → Status → Runner C × Outcome
  unfolding report
  changed healthy panic_on_error r status = report (record r { last_status = status }) status
  changed unknown panic_on_error r status = report (record r { last_status = status }) status
  changed State.unhealthy panic_on_error r status =
      if panic_on_error
      then (r, panicked status)
      else report (record r { last_status = status }) status

  unfoldable pub end_cycle : Runner C → Status → Runner C × Outcome
  unfolding release changed
  end_cycle r status = release (
      if equal status r.last_status
      then (r, unchanged)
      else changed status.state r.opts.panic_on_error r status)

  -- A whole cycle with nothing in between; `none` if it was busy.
  pub run_health_check : Runner C → Status → Option (Runner C × Outcome)
  unfolding begin_cycle
  run_health_check r status = elim (begin_cycle r) [
    | none ↦ none
    | some r' ↦ some (end_cycle r' status)
  ]

  -- `Start`: the first cycle, then the loop, which `once` lets run for one call only.
  pub start_loop : Runner C → Runner C
  start_loop r = if r.once_done then r else record r { looping = true; once_done = true }

  -- `none` is the panic of closing a closed channel.
  pub stop : Runner C → Option (Runner C)
  stop r = if r.stopped then none else some (record r { stopped = true })

  -- The loop's `select` sees the closed channel. (Until then it may still choose a tick.)
  pub loop_ends : Runner C → Option (Runner C)
  loop_ends r = if r.looping && r.stopped then some (record r { looping = false }) else none

  -- A reader takes what is in the report channel.
  pub take_report : Runner C → Runner C × Option Status
  take_report r = (record r { report_chan = none }, r.report_chan)
