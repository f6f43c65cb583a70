-- ===== src/Appmgr/RunExamples.antt =====
-- Instances for the run of an application: two jobs and one service.
use framego.Prelude.{ℕ, ◌≡◌, refl, false, List, [], ◌∷◌, none, some}
use framego.Prelude.Text.{Str, bytes}
use framego.Errors.{Cause, plain}
use framego.Appmgr.Run.{
  Run, Event, job_ends, job_fails, job_is_done, service_runs, starting, selecting, next, job_error,
  begin, exec, exec_all, send, start_one,
}
use framego.Appmgr.Run.Safe.{IsFine, all_failed, sent, exec_all-begin-IsFine}
use framego.Appmgr.Run.Endings.{to_end, answer, job_fails_sends, run_returns}

abbrev names : List Str
names = bytes "a" ∷ bytes "b" ∷ []

abbrev jobs : List (Str × ℕ)
jobs = (bytes "b", 1) ∷ (bytes "a", 2) ∷ []

abbrev begun : Run
begun = record {
  capacity = 2;
  running = 2;
  leaving = 0;
  ch_jobs = [];
  is_closed = false;
  is_cancelled = false;
  phase = starting 1;
}

begins : begin names jobs 1 ≡ some begun
unfolding begin
begins = refl

abbrev reason : Cause
reason = plain (bytes "x")

abbrev started : Run
started = record begun { phase = selecting; running = 1 }

-- Both services start and a job ends.
abbrev starts : List Event
starts = service_runs none ∷ job_ends ∷ service_runs none ∷ []

starts_run : exec_all begun starts ≡ next started
unfolding exec_all exec start_one
starts_run = refl

-- The other job fails.
abbrev failed : Run
failed = record started { running = 0; ch_jobs = job_error (bytes "b") reason ∷ [] }

abbrev fails : List Event
fails =
    service_runs none
    ∷ job_ends
    ∷ service_runs none
    ∷ job_fails (bytes "b") reason
    ∷ job_is_done
    ∷ []

fails_run : exec_all begun fails ≡ next failed
unfolding exec_all exec start_one send
fails_run = refl

exec_all-begin-IsFine_example : IsFine (all_failed [] fails) (exec_all begun fails)
exec_all-begin-IsFine_example = exec_all-begin-IsFine names jobs 1 begun fails begins

job_fails_sends_example :
    exec started (job_fails (bytes "b") reason)
    ≡ next (sent started 0 (job_error (bytes "b") reason))
job_fails_sends_example =
    job_fails_sends names jobs 1 begun started starts 0 (bytes "b") reason begins starts_run refl

run_returns_example :
    (t : Run) × ((exec_all failed (to_end false failed.ch_jobs) ≡ next t)
      × (t.phase ≡ answer (all_failed [] fails)))
run_returns_example =
    run_returns names jobs 1 begun failed fails 1 begins fails_run refl refl refl refl
