-- ===== src/Appmgr/Run/Endings.antt =====
-- How `Run` ends when all its jobs have ended.
use framego.Prelude.{
  ℕ, suc, ◌≡◌, refl, ap, subst, ◌∙◌, Bool, true, false, ltb, List, [], ◌∷◌, some, arith,
}
use framego.Prelude.Text.{Str}
use framego.Errors.{Cause, Error}
use framego.Appmgr.Run.{
  all_jobs_completed, Phase, selecting, returned, job_failed, Run, Event, job_fails, jobs_close,
  receives, services_end, next, job_error, begin, receive, finish, close_jobs, exec, exec_all,
}
use framego.Appmgr.Run.Safe.{Told, sent, all_failed, send-Inv, begin-Inv, exec_all-Inv}

-- A job that fails never waits: in every state that a run can come to, each job that has not ended can send its error at once.
pub job_fails_sends :
    {J : Type 0}
    → (names : List Str) (jobs : List (Str × J)) (services : ℕ) (s s' : Run) (xs : List Event)
      (left : ℕ) (name : Str) (cause : Cause)
    → begin names jobs services ≡ some s
    → exec_all s xs ≡ next s'
    → s'.running ≡ suc left
    → exec s' (job_fails name cause) ≡ next (sent s' left (job_error name cause))
unfolding exec
job_fails_sends names jobs services s s' xs left name cause h run r =
    let inv = exec_all-Inv s s' xs [] (begin-Inv names jobs services s h) run in
    rw r (send-Inv s' left (job_error name cause) (all_failed [] xs) r inv).0

-- The events with which a run ends by itself once its jobs have: the channel is closed, if it is not yet, the
-- select receives, and the services end.
abbrev pub after_close : List Error → List Event
after_close [] = receives ∷ services_end ∷ []
after_close (e ∷ es) = receives ∷ []

abbrev pub to_end : Bool → List Error → List Event
to_end true es = after_close es
to_end false es = jobs_close ∷ after_close es

-- What a run answers for the errors of its jobs.
abbrev pub answer : List Error → Phase
answer [] = returned all_jobs_completed
answer (e ∷ es) = job_failed e

abbrev ended : ℕ → List Error → Bool → Bool → Run
ended capacity es closed cancelled = record {
  capacity = suc capacity;
  running = 0;
  leaving = 0;
  ch_jobs = es;
  is_closed = closed;
  is_cancelled = cancelled;
  phase = selecting;
}

has_room : (n : ℕ) → ltb 0 (suc n) ≡ true
has_room n = ground arith

closed_returns :
    (capacity : ℕ) (es : List Error) (cancelled : Bool)
    → (t : Run) × ((exec_all (ended capacity es true cancelled) (after_close es) ≡ next t)
        × (t.phase ≡ answer es))
unfolding exec_all exec receive finish
closed_returns capacity [] cancelled = (_, (refl, refl))
closed_returns capacity (e ∷ es) cancelled = (_, (refl, refl))

ended_returns :
    (capacity : ℕ) (es : List Error) (closed cancelled : Bool)
    → (t : Run) × ((exec_all (ended capacity es closed cancelled) (to_end closed es) ≡ next t)
        × (t.phase ≡ answer es))
unfolding exec_all exec close_jobs
ended_returns capacity es true cancelled = closed_returns capacity es cancelled
ended_returns capacity es false cancelled =
    let (t, (ends, same)) = closed_returns capacity es cancelled in
    (t, (rw (has_room capacity) ends, same))

is_ended :
    (s : Run) (capacity : ℕ)
    → s.capacity ≡ suc capacity
    → s.running ≡ 0
    → s.leaving ≡ 0
    → s.phase ≡ selecting
    → s ≡ ended capacity s.ch_jobs s.is_closed s.is_cancelled
is_ended s capacity c r l p = cc

-- Once all the jobs of a run have ended while it waits in the select, it returns within three events of its own, if no signal comes: without an error if no job failed, and with the error of the first job that failed otherwise; condition: it has a job.
pub run_returns :
    {J : Type 0}
    → (names : List Str) (jobs : List (Str × J)) (services : ℕ) (s s' : Run) (xs : List Event)
      (capacity : ℕ)
    → begin names jobs services ≡ some s
    → exec_all s xs ≡ next s'
    → s'.capacity ≡ suc capacity
    → s'.running ≡ 0
    → s'.leaving ≡ 0
    → s'.phase ≡ selecting
    → (t : Run) × ((exec_all s' (to_end s'.is_closed s'.ch_jobs) ≡ next t)
        × (t.phase ≡ answer (all_failed [] xs)))
run_returns names jobs services s s' xs capacity h run c r l p =
    let inv = exec_all-Inv s s' xs [] (begin-Inv names jobs services s h) run in
    let told : s'.ch_jobs ≡ all_failed [] xs =
      subst (λ (q : Phase). Told s'.ch_jobs s'.is_closed (all_failed [] xs) q) p inv.2 in
    let (t, (ends, same)) = ended_returns capacity s'.ch_jobs s'.is_closed s'.is_cancelled in
    (
      t,
      (
        ap (λ (u : Run). exec_all u (to_end s'.is_closed s'.ch_jobs)) (is_ended s' capacity c r l p)
            ∙ ends,
        same ∙ ap answer told,
      ),
    )
