-- ===== src/Appmgr/Run.antt =====
-- `Run` of appmgr/app.go, cut where its goroutines meet: the jobs, the goroutine that closes their
-- channel, and the start, the select and the end of `Run` itself. When a job or a service ends, and with
-- what, is the order of the events.
pub mod Endings
pub mod Safe
use framego.Prelude.{
  ℕ, zero, suc, ◌+◌, Bool, true, false, ◌&&◌, ltb, ◌==◌, List, [], ◌∷◌, ◌++◌, Option, none, some,
  if◌then◌else◌,
}
use framego.Prelude.Text.{Str, bytes, find}
use framego.Errors.{Cause, Error, wrap}

-- Why `Run` stops the services.
pub data Ending : Type 0 where
  exit_command : Ending
  all_jobs_completed : Ending
  stop_signal : Ending

-- Where `Run` stands: services are left to start, it waits in the select, it waits for the services, or it
-- has returned, without an error, with a job's, or with a service's.
pub data Phase : Type 0 where
  starting : ℕ → Phase
  selecting : Phase
  stopping : Ending → Phase
  returned : Ending → Phase
  job_failed : Error → Phase
  service_failed : Cause → Phase

-- `running` counts the jobs that have not ended, `leaving` those that have sent their error and are
-- still in the wait group; `capacity` is that of the channel.
pub record Run : Type 0 where
  pub capacity : ℕ
  pub running : ℕ
  pub leaving : ℕ
  pub ch_jobs : List Error
  pub is_closed : Bool
  pub is_cancelled : Bool
  pub phase : Phase

pub data Event : Type 0 where
  job_ends : Event
  job_fails : Str → Cause → Event
  job_is_done : Event
  jobs_close : Event
  service_runs : Option Cause → Event
  receives : Event
  sees_signal : Event
  sees_context : Event
  services_end : Event

-- An event that cannot happen yet waits; a send on a closed channel panics.
pub data Outcome : Type 0 where
  waits : Outcome
  panics : Outcome
  next : Run → Outcome

abbrev pub count : {A : Type 0} → List A → ℕ
count [] = 0
count (a ∷ as') = suc (count as')

-- The error with which a job's goroutine ends.
unfoldable pub job_error : Str → Cause → Error
unfolding wrap
job_error name cause = wrap cause (bytes "Job <" ++ name ++ bytes "> Exit With Error")

abbrev pub is_known : {J : Type 0} → Option J → Bool → Bool
is_known none rest = false
is_known (some job) rest = rest

-- The jobs of the configuration are looked up and started one by one; `none` is the exit where a name is
-- not known. The observable counts as the last of the services.
abbrev pub all_known : {J : Type 0} → List Str → List (Str × J) → Bool
all_known [] jobs = true
all_known (name ∷ names) jobs = is_known (find name jobs) (all_known names jobs)

unfoldable pub begin : {J : Type 0} → List Str → List (Str × J) → ℕ → Option Run
begin names jobs services =
    if all_known names jobs
    then some (record {
      capacity = count names;
      running = count names;
      leaving = 0;
      ch_jobs = [];
      is_closed = false;
      is_cancelled = false;
      phase = starting services;
    })
    else none

abbrev pub less_one : ℕ → (ℕ → Outcome) → Outcome
less_one zero k = waits
less_one (suc n) k = k n

unfoldable pub send : Run → ℕ → Error → Outcome
send s left e =
    if s.is_closed
    then panics
    else if ltb (count s.ch_jobs) s.capacity
    then next (record s { running = left; leaving = suc s.leaving; ch_jobs = s.ch_jobs ++ e ∷ [] })
    else waits

unfoldable pub start_one : Run → Phase → Option Cause → Outcome
start_one s (starting zero) none = next (record s { phase = selecting })
start_one s (starting (suc n)) none = next (record s { phase = starting n })
start_one s (starting n) (some e) = next (record s { phase = service_failed e })
start_one s _ result = waits

abbrev pub stop : Run → Ending → Run
stop s ending = record s { is_cancelled = true; phase = stopping ending }

-- The case of the select that receives from the channel.
unfoldable pub receive : Run → Phase → List Error → Bool → Outcome
receive s selecting (e ∷ es) closed = next (record s { ch_jobs = es; phase = job_failed e })
receive s selecting [] true = next (stop s all_jobs_completed)
receive s selecting [] false = waits
receive s _ es closed = waits

unfoldable pub select_signal : Run → Phase → Outcome
select_signal s selecting = next (stop s stop_signal)
select_signal s _ = waits

unfoldable pub select_context : Run → Phase → Bool → Outcome
select_context s selecting true = next (record s { phase = stopping exit_command })
select_context s _ cancelled = waits

-- The services and the observable end when the context is done.
unfoldable pub finish : Run → Phase → Bool → Outcome
finish s (stopping ending) true = next (record s { phase = returned ending })
finish s _ done = waits

-- No goroutine is left in the wait group.
abbrev pub is_done : Run → Bool
is_done s = s.running == 0 && s.leaving == 0

-- The goroutine that closes the channel is started for one job at least.
unfoldable pub close_jobs : Run → Bool → Bool → Outcome
close_jobs s true false = if ltb 0 s.capacity then next (record s { is_closed = true }) else waits
close_jobs s done closed = waits

unfoldable pub exec : Run → Event → Outcome
unfolding send start_one receive select_signal select_context finish close_jobs
exec s job_ends = less_one s.running (λ n. next (record s { running = n }))
exec s (job_fails name cause) = less_one s.running (λ n. send s n (job_error name cause))
exec s job_is_done = less_one s.leaving (λ n. next (record s { leaving = n }))
exec s jobs_close = close_jobs s (is_done s) s.is_closed
exec s (service_runs result) = start_one s s.phase result
exec s receives = receive s s.phase s.ch_jobs s.is_closed
exec s sees_signal = select_signal s s.phase
exec s sees_context = select_context s s.phase s.is_cancelled
exec s services_end = finish s s.phase (is_done s && s.is_cancelled)

abbrev pub and_then : Outcome → (Run → Outcome) → Outcome
and_then waits k = waits
and_then panics k = panics
and_then (next s) k = k s

-- The events one after the other.
unfoldable pub exec_all : Run → List Event → Outcome
unfolding exec
exec_all s [] = next s
exec_all s (x ∷ xs) = and_then (exec s x) (λ s'. exec_all s' xs)
