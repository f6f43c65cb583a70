-- ===== src/Appmgr/Run/Safe.antt =====
-- No job's goroutine panics or waits to send its error, and what `Run` tells of the jobs is true.
use framego.Prelude.{
  ℕ, zero, suc, ◌+◌, ◌≤◌, ◌≡◌, refl, subst, ap, sym, Bool, true, false, ◌&&◌, ltb, ◌==◌, List, [],
  ◌∷◌, ◌++◌, Option, none, some, arith, some-eq, Bool-cases, inl, inr,
}
use framego.Prelude.Text.{Str}
use framego.Errors.{Cause, Error}
use framego.Appmgr.Run.{
  exit_command, all_jobs_completed, stop_signal, Phase, starting, selecting, stopping, returned,
  job_failed, service_failed, Run, Event, job_ends, job_fails, job_is_done, jobs_close,
  service_runs, receives, sees_signal, sees_context, services_end, Outcome, waits, panics, next,
  count, job_error, begin, all_known, less_one, send, start_one, receive, select_signal,
  select_context, finish, is_done, close_jobs, exec, and_then, exec_all,
}

-- What the channel and the phase tell of the errors that jobs have ended with so far, in order.
abbrev pub Told : List Error → Bool → List Error → Phase → Type 0
Told es closed fs (starting n) = es ≡ fs
Told es closed fs selecting = es ≡ fs
Told es closed fs (stopping all_jobs_completed) = (fs ≡ []) × (closed ≡ true)
Told es closed fs (stopping _) = Unit {0}
Told es closed fs (returned all_jobs_completed) = (fs ≡ []) × (closed ≡ true)
Told es closed fs (returned _) = Unit {0}
Told es closed fs (job_failed e) = (rest : List Error) × (fs ≡ e ∷ rest)
Told es closed fs (service_failed e) = Unit {0}

abbrev pub Inv : List Error → Run → Type 0
Inv fs s =
    (count s.ch_jobs + s.running ≤ s.capacity)
    × (s.is_closed ≡ true → s.running + s.leaving ≡ 0)
    × Told s.ch_jobs s.is_closed fs s.phase

-- The errors after an event.
abbrev pub failed_after : List Error → Event → List Error
failed_after fs (job_fails name cause) = fs ++ job_error name cause ∷ []
failed_after fs _ = fs

abbrev pub all_failed : List Error → List Event → List Error
all_failed fs [] = fs
all_failed fs (x ∷ xs) = all_failed (failed_after fs x) xs

abbrev pub IsFine : List Error → Outcome → Type 0
IsFine fs waits = Unit {0}
IsFine fs panics = ⊥
IsFine fs (next s) = Inv fs s

count_snoc : (es : List Error) (e : Error) → count (es ++ e ∷ []) ≡ suc (count es)
count_snoc [] e = refl
count_snoc (x ∷ es) e = ap suc (count_snoc es e)

Told-more :
    (es fs : List Error) (e : Error) (p : Phase)
    → Told es false fs p
    → Told (es ++ e ∷ []) false (fs ++ e ∷ []) p
Told-more es fs e (starting n) h = ap (λ (l : List Error). l ++ e ∷ []) h
Told-more es fs e selecting h = ap (λ (l : List Error). l ++ e ∷ []) h
Told-more es fs e (stopping exit_command) h = tt
Told-more es fs e (stopping all_jobs_completed) h = absurd (ground (h.1, arith))
Told-more es fs e (stopping stop_signal) h = tt
Told-more es fs e (returned exit_command) h = tt
Told-more es fs e (returned all_jobs_completed) h = absurd (ground (h.1, arith))
Told-more es fs e (returned stop_signal) h = tt
Told-more es fs e (job_failed x) (rest, h) =
    (rest ++ e ∷ [], ap (λ (l : List Error). l ++ e ∷ []) h)
Told-more es fs e (service_failed x) h = tt

abbrev pub sent : Run → ℕ → Error → Run
sent s left e = record s { running = left; leaving = suc s.leaving; ch_jobs = s.ch_jobs ++ e ∷ [] }

-- A job that fails sends its error at once.
pub send-Inv :
    (s : Run) (left : ℕ) (e : Error) (fs : List Error)
    → s.running ≡ suc left
    → Inv fs s
    → (send s left e ≡ next (sent s left e)) × Inv (fs ++ e ∷ []) (sent s left e)
unfolding send
send-Inv s left e fs r inv = elim (Bool-cases s.is_closed) [
  | inl c ↦ absurd (ground (inv.1 c, r, arith))
  | inr c ↦
      let room : ltb (count s.ch_jobs) s.capacity ≡ true = ground (inv.0, r, arith) in
      (
        rw (c, room) refl,
        (
          rw (count_snoc s.ch_jobs e) (omega (inv.0, r, arith)),
          λ h. absurd (ground (c, h, arith)),
          subst (λ (b : Bool). Told (s.ch_jobs ++ e ∷ []) b (fs ++ e ∷ []) s.phase) (sym c)
              (Told-more s.ch_jobs fs e s.phase
                (subst (λ (b : Bool). Told s.ch_jobs b fs s.phase) c inv.2)),
        ),
      )
]

fails-IsFine :
    (s : Run) (n : ℕ) (e : Error) (fs : List Error)
    → s.running ≡ n
    → Inv fs s
    → IsFine (fs ++ e ∷ []) (less_one n (λ left. send s left e))
fails-IsFine s zero e fs r inv = tt
fails-IsFine s (suc left) e fs r inv = let (same, inv') = send-Inv s left e fs r inv in rw same inv'

ends-IsFine :
    (s : Run) (n : ℕ) (fs : List Error)
    → s.running ≡ n
    → Inv fs s
    → IsFine fs (less_one n (λ left. next (record s { running = left })))
ends-IsFine s zero fs r inv = tt
ends-IsFine s (suc left) fs r inv =
    (omega (inv.0, r, arith), λ h. absurd (ground (inv.1 h, r, arith)), inv.2)

done-IsFine :
    (s : Run) (n : ℕ) (fs : List Error)
    → s.leaving ≡ n
    → Inv fs s
    → IsFine fs (less_one n (λ left. next (record s { leaving = left })))
done-IsFine s zero fs r inv = tt
done-IsFine s (suc left) fs r inv = (inv.0, λ h. absurd (ground (inv.1 h, r, arith)), inv.2)

Told-closed : (es fs : List Error) (p : Phase) → Told es false fs p → Told es true fs p
Told-closed es fs (starting n) h = h
Told-closed es fs selecting h = h
Told-closed es fs (stopping exit_command) h = tt
Told-closed es fs (stopping all_jobs_completed) h = absurd (ground (h.1, arith))
Told-closed es fs (stopping stop_signal) h = tt
Told-closed es fs (returned exit_command) h = tt
Told-closed es fs (returned all_jobs_completed) h = absurd (ground (h.1, arith))
Told-closed es fs (returned stop_signal) h = tt
Told-closed es fs (job_failed x) h = h
Told-closed es fs (service_failed x) h = tt

nothing_left : (a b : ℕ) → (a == 0 && b == 0) ≡ true → a + b ≡ 0
nothing_left a b h = ground arith

closes-IsFine :
    (s : Run) (done closed : Bool) (fs : List Error)
    → is_done s ≡ done
    → s.is_closed ≡ closed
    → Inv fs s
    → IsFine fs (close_jobs s done closed)
unfolding close_jobs
closes-IsFine s false closed fs d c inv = tt
closes-IsFine s true true fs d c inv = tt
closes-IsFine s true false fs d c inv = elim (Bool-cases (ltb 0 s.capacity)) [
  | inl room ↦ rw room (
    inv.0,
    λ h. nothing_left s.running s.leaving d,
    Told-closed s.ch_jobs fs s.phase (subst (λ (b : Bool). Told s.ch_jobs b fs s.phase) c inv.2),
  )
  | inr empty ↦ rw empty tt
]

starts-IsFine :
    (s : Run) (p : Phase) (o : Option Cause) (fs : List Error)
    → Inv fs (record s { phase = p })
    → IsFine fs (start_one s p o)
unfolding start_one
starts-IsFine s (starting zero) none fs inv = inv
starts-IsFine s (starting (suc n)) none fs inv = inv
starts-IsFine s (starting zero) (some e) fs inv = (inv.0, inv.1, tt)
starts-IsFine s (starting (suc n)) (some e) fs inv = (inv.0, inv.1, tt)
starts-IsFine s selecting o fs inv = tt
starts-IsFine s (stopping x) o fs inv = tt
starts-IsFine s (returned x) o fs inv = tt
starts-IsFine s (job_failed x) o fs inv = tt
starts-IsFine s (service_failed x) o fs inv = tt

receives-IsFine :
    (s : Run) (p : Phase) (es : List Error) (closed : Bool) (fs : List Error)
    → Inv fs (record s { phase = p; ch_jobs = es; is_closed = closed })
    → IsFine fs (receive (record s { ch_jobs = es; is_closed = closed }) p es closed)
unfolding receive
receives-IsFine s selecting (e ∷ es) closed fs inv = (omega (inv.0, arith), inv.1, (es, sym inv.2))
receives-IsFine s selecting [] true fs inv = (inv.0, inv.1, (sym inv.2, refl))
receives-IsFine s selecting [] false fs inv = tt
receives-IsFine s (starting x) es closed fs inv = tt
receives-IsFine s (stopping x) es closed fs inv = tt
receives-IsFine s (returned x) es closed fs inv = tt
receives-IsFine s (job_failed x) es closed fs inv = tt
receives-IsFine s (service_failed x) es closed fs inv = tt

signals-IsFine : (s : Run) (p : Phase) (fs : List Error) → Inv fs s → IsFine fs (select_signal s p)
unfolding select_signal
signals-IsFine s selecting fs inv = (inv.0, inv.1, tt)
signals-IsFine s (starting x) fs inv = tt
signals-IsFine s (stopping x) fs inv = tt
signals-IsFine s (returned x) fs inv = tt
signals-IsFine s (job_failed x) fs inv = tt
signals-IsFine s (service_failed x) fs inv = tt

context-IsFine :
    (s : Run) (p : Phase) (cancelled : Bool) (fs : List Error)
    → Inv fs s
    → IsFine fs (select_context s p cancelled)
unfolding select_context
context-IsFine s selecting true fs inv = (inv.0, inv.1, tt)
context-IsFine s selecting false fs inv = tt
context-IsFine s (starting x) cancelled fs inv = tt
context-IsFine s (stopping x) cancelled fs inv = tt
context-IsFine s (returned x) cancelled fs inv = tt
context-IsFine s (job_failed x) cancelled fs inv = tt
context-IsFine s (service_failed x) cancelled fs inv = tt

finishes-IsFine :
    (s : Run) (p : Phase) (done : Bool) (fs : List Error)
    → Inv fs (record s { phase = p })
    → IsFine fs (finish s p done)
unfolding finish
finishes-IsFine s (stopping exit_command) true fs inv = inv
finishes-IsFine s (stopping all_jobs_completed) true fs inv = inv
finishes-IsFine s (stopping stop_signal) true fs inv = inv
finishes-IsFine s (stopping x) false fs inv = tt
finishes-IsFine s selecting done fs inv = tt
finishes-IsFine s (starting x) done fs inv = tt
finishes-IsFine s (returned x) done fs inv = tt
finishes-IsFine s (job_failed x) done fs inv = tt
finishes-IsFine s (service_failed x) done fs inv = tt

-- No event panics, and each keeps the invariant.
pub exec-IsFine :
    (s : Run) (x : Event) (fs : List Error) → Inv fs s → IsFine (failed_after fs x) (exec s x)
unfolding exec
exec-IsFine s job_ends fs inv = ends-IsFine s s.running fs refl inv
exec-IsFine s (job_fails name cause) fs inv =
    fails-IsFine s s.running (job_error name cause) fs refl inv
exec-IsFine s job_is_done fs inv = done-IsFine s s.leaving fs refl inv
exec-IsFine s jobs_close fs inv = closes-IsFine s (is_done s) s.is_closed fs refl refl inv
exec-IsFine s (service_runs o) fs inv = starts-IsFine s s.phase o fs inv
exec-IsFine s receives fs inv = receives-IsFine s s.phase s.ch_jobs s.is_closed fs inv
exec-IsFine s sees_signal fs inv = signals-IsFine s s.phase fs inv
exec-IsFine s sees_context fs inv = context-IsFine s s.phase s.is_cancelled fs inv
exec-IsFine s services_end fs inv = finishes-IsFine s s.phase (is_done s && s.is_cancelled) fs inv

then-IsFine :
    (o : Outcome) (xs : List Event) (fs : List Error)
    → ((s : Run) → Inv fs s → IsFine (all_failed fs xs) (exec_all s xs))
    → IsFine fs o
    → IsFine (all_failed fs xs) (and_then o (λ s. exec_all s xs))
then-IsFine waits xs fs rest h = tt
then-IsFine panics xs fs rest h = h
then-IsFine (next s) xs fs rest h = rest s h

exec_all-IsFine :
    (s : Run) (xs : List Event) (fs : List Error)
    → Inv fs s
    → IsFine (all_failed fs xs) (exec_all s xs)
unfolding exec_all
exec_all-IsFine s [] fs inv = inv
exec_all-IsFine s (x ∷ xs) fs inv =
    then-IsFine (exec s x) xs (failed_after fs x) (λ s'. exec_all-IsFine s' xs (failed_after fs x))
      (exec-IsFine s x fs inv)

pub begin-Inv :
    {J : Type 0}
    → (names : List Str) (jobs : List (Str × J)) (services : ℕ) (s : Run)
    → begin names jobs services ≡ some s
    → Inv [] s
unfolding begin
begin-Inv names jobs services s h = elim (Bool-cases (all_known names jobs)) [
  | inl k ↦
      subst (Inv []) (some-eq (rw k at h)) (ground arith, λ c. absurd (ground (c, arith)), refl)
  | inr k ↦ absurd (ground (rw k at h, arith))
]

-- Whatever happens in whatever order after the start, nothing panics, and what Run answers is true: it waits for the services because all jobs are completed, or has returned so, only if no job failed, and it returns with a job's error only if that is the first with which a job ended.
pub exec_all-begin-IsFine :
    {J : Type 0}
    → (names : List Str) (jobs : List (Str × J)) (services : ℕ) (s : Run) (xs : List Event)
    → begin names jobs services ≡ some s
    → IsFine (all_failed [] xs) (exec_all s xs)
exec_all-begin-IsFine names jobs services s xs h =
    exec_all-IsFine s xs [] (begin-Inv names jobs services s h)

pub exec_all-Inv :
    (s s' : Run) (xs : List Event) (fs : List Error)
    → Inv fs s
    → exec_all s xs ≡ next s'
    → Inv (all_failed fs xs) s'
exec_all-Inv s s' xs fs inv h = subst (IsFine (all_failed fs xs)) h (exec_all-IsFine s xs fs inv)
