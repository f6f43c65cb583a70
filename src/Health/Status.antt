-- ===== src/Health/Status.antt =====
-- health/runner.go: a health status, and one check. An error is the identity that Go's `==` on the
-- interface value compares, `none` for nil.
use Prim.Native.String.{String}
use text.Mathlib.Text.{◌==◌ as str_eq}
use text.Mathlib.TextEquality.{eq_iff}
use framego.Prelude.{ℕ, ◌+◌, ◌≡◌, ◌↔◌, Bool, true, false, ◌&&◌, Option, none, some, ◌==◌, arith}

pub data State : Type 0 where
  unknown healthy unhealthy : State

pub record Status : Type 0 where
  pub state : State
  pub error : Option ℕ
  pub source : String

abbrev pub state_eq : State → State → Bool
state_eq unknown unknown = true
state_eq healthy healthy = true
state_eq unhealthy unhealthy = true
state_eq _ _ = false

abbrev pub error_eq : Option ℕ → Option ℕ → Bool
error_eq none none = true
error_eq (some e) (some f) = e == f
error_eq _ _ = false

unfoldable pub equal : Status → Status → Bool
equal s d = state_eq s.state d.state && error_eq s.error d.error && str_eq s.source d.source

-- `Equal` holds exactly of equal statuses.
pub equal_iff : (s d : Status) → (equal s d ≡ true) ↔ (s ≡ d)
unfolding equal
equal_iff s d = ground (arith, eq_iff s.source d.source)

abbrev pub default_timeout : ℕ
default_timeout = 1000000000

-- When a check is given up, in nanoseconds: the context's own deadline, or a second from now.
pub check_deadline : Option ℕ → ℕ → ℕ
check_deadline none now = now + default_timeout
check_deadline (some deadline) now = deadline

-- What ends the wait of `unaryChecker.Check`: the check's function returned, the context was done,
-- or the function panicked, which ends the process.
pub data Ending : Type 0 where
  returned : Option ℕ → Ending
  done : Ending
  panicked : Ending

-- `none` is the end of the process.
unfoldable pub unary_check : String → Ending → Option Status
unary_check name (returned none) = some (record { state = healthy; error = none; source = "" })
unary_check name (returned (some e)) =
    some (record { state = unhealthy; error = some e; source = name })
unary_check name done = some (record { state = unknown; error = none; source = name })
unary_check name panicked = none
