-- ===== src/Health/Composite.antt =====
-- health/runner.go: `compositeChecker.Check`. Each check runs in a goroutine of its own, and all
-- write one `finalStatus`, with no lock.
pub mod Verdict
pub mod Race
use framego.Prelude.{Bool, ◌||◌, List, [], ◌∷◌, ◌++◌, none, if◌then◌else◌}
use framego.Health.Status.{State, healthy, unhealthy, Status, state_eq}

-- `AddChecker`, for checkers of any kind.
pub add_checker {ℓ} : {C : Type ℓ} → List C → C → List C
add_checker cl checker = cl ++ checker ∷ []

abbrev pub start : Status
start = record { state = healthy; error = none; source = "" }

-- What a goroutine does to `finalStatus`, if no other one comes between.
pub merge : Status → Status → Status
merge final status =
    if state_eq status.state healthy
    then final
    else if state_eq status.state unhealthy || state_eq final.state healthy
    then status
    else final

merge_all : Status → List Status → Status
merge_all final [] = final
merge_all final (s ∷ later) = merge_all (merge final s) later

-- The final status, from the checks' statuses in the order in which the goroutines end.
unfoldable pub check_all : List Status → Status
unfolding merge_all merge
check_all statuses = merge_all start statuses
