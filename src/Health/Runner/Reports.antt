-- ===== src/Health/Runner/Reports.antt =====
-- What the reader of `StatusReportChan` sees, and the runner's options.
use Prim.Native.String.{String}
use framego.Prelude.{
  ℕ, ◌≡◌, ◌≢◌, refl, inl, inr, Bool, false, List, [], ◌∷◌, Option, none, some, Bool-cases,
  if◌then◌else◌, arith,
}
use framego.Health.Status.{Status, equal, equal_iff}
use framego.Health.Runner.{
  RunOptions, RunOption, with_name, with_check_interval, with_check_timeout, with_panic_on_error,
  default_options, apply_option, options_from, apply_options, Runner, Outcome, end_cycle,
  run_health_check, begin_cycle, take_report,
}

abbrev cons_report : Option Status → List Status → List Status
cons_report none reports = reports
cons_report (some s) reports = s ∷ reports

module _ {C : Type 0} where
  -- One cycle after another, with a reader that takes each report before the next cycle begins.
  abbrev then_take : Option (Runner C × Outcome) → Runner C → Runner C × Option Status
  then_take none r = (r, none)
  then_take (some (r', outcome)) r = take_report r'

  abbrev pub reports_of : Runner C → List Status → Runner C × List Status
  reports_of r [] = (r, [])
  reports_of r (s ∷ later) =
      let (r', report) = then_take (run_health_check r s) r in
      let (r'', reports) = reports_of r' later in (r'', cons_report report reports)

  -- Between two cycles, with the report channel read out.
  pub record IsIdle (r : Runner C) : Type 0 where
    pub free : r.running_check_cycle ≡ false
    pub read : r.report_chan ≡ none
    pub lenient : r.opts.panic_on_error ≡ false

-- The statuses that differ from the one before them, the first from `last`.
abbrev pub changes : Status → List Status → List Status
changes last [] = []
changes last (s ∷ later) = if equal s last then changes s later else s ∷ changes s later

abbrev pub last_of : Status → List Status → Status
last_of s [] = s
last_of s (t ∷ later) = last_of t later

module _ {C : Type 0} where
  one_report :
      (r : Runner C) (s : Status)
      → IsIdle r
      → (then_take (run_health_check r s) r
          ≡ (record r { last_status = s }, if equal s r.last_status then none else some s))
  unfolding run_health_check begin_cycle end_cycle take_report
  one_report r s h = ground (arith, equal_iff s r.last_status)

  reports_of-eq :
      (r : Runner C) (xs : List Status)
      → IsIdle r
      → reports_of r xs
        ≡ (record r { last_status = last_of r.last_status xs }, changes r.last_status xs)
  reports_of-eq r [] h = refl
  reports_of-eq r (s ∷ later) h = rw (one_report r s h) (
      rw
        (reports_of-eq (record r { last_status = s }) later
          (record { free = h.free; read = h.read; lenient = h.lenient }))
        (ground arith))

-- Each entry differs from the one before it, and the first from `last`.
abbrev pub Alternates : Status → List Status → Type 0
Alternates last [] = Unit {0}
Alternates last (s ∷ later) = (s ≢ last) × Alternates s later

changes-Alternates : (last : Status) (xs : List Status) → Alternates last (changes last xs)
changes-Alternates last [] = tt
changes-Alternates last (s ∷ later) = elim (Bool-cases (equal s last)) [
  | inl same ↦ rw (same, ← (equal_iff s last).0 same) (changes-Alternates s later)
  | inr other ↦ rw other (λ e. ground (arith, (equal_iff s last).1 e), changes-Alternates s later)
]

-- A reader of the reports that keeps up gets, of any series of cycles, each status that differs
-- from the one before it, once and in order, and the runner remembers the last; condition: the
-- runner is idle, has no report pending, and does not panic on errors.
pub reports_of-changes :
    (C : Type 0) (r : Runner C) (xs : List Status)
    → IsIdle r
    → (reports_of r xs
        ≡ (record r { last_status = last_of r.last_status xs }, changes r.last_status xs))
      × Alternates r.last_status (reports_of r xs).1
reports_of-changes C r xs h =
    (reports_of-eq r xs h, rw (reports_of-eq r xs h) (changes-Alternates r.last_status xs))

-- The value that the last option of a kind sets, if there is one.
module _ {ℓ} {A : Type ℓ} (value_of : RunOption → Option A) where
  abbrev set_by : Option A → A → A
  set_by none a = a
  set_by (some b) a = b

  abbrev pub last_set : A → List RunOption → A
  last_set a [] = a
  last_set a (o ∷ later) = last_set (set_by (value_of o) a) later

abbrev pub name_in : RunOption → Option String
name_in (with_name n) = some n
name_in _ = none

abbrev pub interval_in : RunOption → Option ℕ
interval_in (with_check_interval d) = some d
interval_in _ = none

abbrev pub timeout_in : RunOption → Option ℕ
timeout_in (with_check_timeout d) = some d
timeout_in _ = none

abbrev pub panic_in : RunOption → Option Bool
panic_in (with_panic_on_error b) = some b
panic_in _ = none

options_from-eq :
    (o : RunOptions) (options : List RunOption)
    → options_from o options ≡ record {
      name = last_set name_in o.name options;
      interval = last_set interval_in o.interval options;
      timeout = last_set timeout_in o.timeout options;
      panic_on_error = last_set panic_in o.panic_on_error options;
    }
unfolding options_from apply_option
options_from-eq o [] = refl
options_from-eq o (with_name n ∷ later) = options_from-eq (record o { name = n }) later
options_from-eq o (with_check_interval d ∷ later) =
    options_from-eq (record o { interval = d }) later
options_from-eq o (with_check_timeout d ∷ later) = options_from-eq (record o { timeout = d }) later
options_from-eq o (with_panic_on_error b ∷ later) =
    options_from-eq (record o { panic_on_error = b }) later

-- Each option is what its last setter says, and five seconds, one second, no name and no panic
-- where there is none.
pub apply_options_last :
    (options : List RunOption)
    → apply_options options ≡ record {
      name = last_set name_in "" options;
      interval = last_set interval_in 5000000000 options;
      timeout = last_set timeout_in 1000000000 options;
      panic_on_error = last_set panic_in false options;
    }
unfolding apply_options
apply_options_last options = options_from-eq default_options options
