-- ===== src/Appmgr/Serve/Kept.antt =====
-- The wait group of a service counts the goroutines that have not called Done.
use framego.Prelude.{
  ℕ, ◌+◌, ◌-◌, ◌≡◌, refl, sym, ap, ◌∙◌, subst, Bool, true, false, List, [], ◌∷◌, arith,
}
use framego.Appmgr.Serve.{
  Stopper, waiting, stopping, gone, Server, to_serve, serving, ended, Serving, Event, cancels,
  http_stops, http_shutdown_ends, http_serve_ends, grpc_stops, grpc_stop_ends, grpc_times_out,
  grpc_serve_starts, grpc_serve_refused, grpc_serve_ends, Outcome, panics, goes, sees, http_stopped,
  http_served, after_stop, starts, grpc_refused, grpc_served, exec, and_then, exec_all,
}

abbrev pub to_come : Stopper → ℕ
to_come gone = 0
to_come stopper = 1

abbrev pub to_end : Server → ℕ
to_end ended = 0
to_end server = 1

-- A stopper has left its wait only if the context is done; one that was never started is gone.
abbrev pub HasReason : Bool → Bool → Stopper → Type 0
HasReason started cancelled waiting = Unit {0}
HasReason started cancelled stopper = (started ≡ true) → cancelled ≡ true

-- The goroutines that the wait group counts; what `started` says is which servers were.
pub record Inv (http grpc : Bool) (y : Serving) : Type 0 where
  pub counts : y.wait_group ≡ to_come y.http_stopper + to_end y.grpc_server
  pub http_reason : HasReason http y.is_cancelled y.http_stopper
  pub grpc_reason : HasReason grpc y.is_cancelled y.grpc_stopper
  pub grpc_ended : y.grpc_server ≡ ended → grpc ≡ true → y.is_cancelled ≡ true

abbrev pub IsKept : Bool → Bool → Outcome → Type 0
IsKept http grpc panics = Unit {0}
IsKept http grpc (goes y) = Inv http grpc y

module _ (http grpc : Bool) where
  HasReason-cancelled : (cancelled : Bool) (s : Stopper) (started : Bool) → HasReason started true s
  HasReason-cancelled cancelled waiting started = tt
  HasReason-cancelled cancelled stopping started = λ h. refl
  HasReason-cancelled cancelled gone started = λ h. refl

  HasReason-sees :
      (started cancelled : Bool) (s : Stopper)
      → HasReason started cancelled s
      → HasReason started cancelled (sees cancelled s)
  HasReason-sees started true waiting h = λ e. refl
  HasReason-sees started true stopping h = h
  HasReason-sees started true gone h = h
  HasReason-sees started false waiting h = h
  HasReason-sees started false stopping h = h
  HasReason-sees started false gone h = h

  HasReason-ended :
      (started cancelled : Bool) (s : Stopper)
      → HasReason started cancelled s
      → HasReason started cancelled (after_stop s)
  HasReason-ended started cancelled waiting h = h
  HasReason-ended started cancelled stopping h = h
  HasReason-ended started cancelled gone h = h

  to_come-sees : (cancelled : Bool) (s : Stopper) → to_come (sees cancelled s) ≡ to_come s
  to_come-sees true waiting = refl
  to_come-sees true stopping = refl
  to_come-sees true gone = refl
  to_come-sees false waiting = refl
  to_come-sees false stopping = refl
  to_come-sees false gone = refl

  http_stopped-Inv :
      (y : Serving) (s : Stopper)
      → y.http_stopper ≡ s
      → Inv http grpc y
      → Inv http grpc (http_stopped y s)
  unfolding http_stopped
  http_stopped-Inv y waiting e inv = inv
  http_stopped-Inv y gone e inv = inv
  http_stopped-Inv y stopping e inv = record {
    counts =
        ap (λ (n : ℕ). n - 1)
          (inv.counts ∙ ap (λ (s : Stopper). to_come s + to_end y.grpc_server) e)
        ∙ ground arith;
    http_reason = subst (HasReason http y.is_cancelled) e inv.http_reason;
    grpc_reason = inv.grpc_reason;
    grpc_ended = inv.grpc_ended;
  }

  http_served-Inv :
      (y : Serving) (b : Bool) (s : Stopper)
      → Inv http grpc y
      → IsKept http grpc (http_served y b s)
  unfolding http_served
  http_served-Inv y false s inv = inv
  http_served-Inv y true waiting inv = tt
  http_served-Inv y true stopping inv = record {
    counts = inv.counts;
    http_reason = inv.http_reason;
    grpc_reason = inv.grpc_reason;
    grpc_ended = inv.grpc_ended;
  }
  http_served-Inv y true gone inv = record {
    counts = inv.counts;
    http_reason = inv.http_reason;
    grpc_reason = inv.grpc_reason;
    grpc_ended = inv.grpc_ended;
  }

  grpc_served-Inv :
      (y : Serving) (g : Server) (s : Stopper)
      → y.grpc_server ≡ g
      → y.grpc_stopper ≡ s
      → Inv http grpc y
      → IsKept http grpc (grpc_served y g s)
  unfolding grpc_served
  grpc_served-Inv y to_serve s e f inv = inv
  grpc_served-Inv y ended s e f inv = inv
  grpc_served-Inv y serving waiting e f inv = tt
  grpc_served-Inv y serving stopping e f inv = record {
    counts =
        ap (λ (n : ℕ). n - 1)
          (inv.counts ∙ ap (λ (g : Server). to_come y.http_stopper + to_end g) e)
        ∙ ground arith;
    http_reason = inv.http_reason;
    grpc_reason = inv.grpc_reason;
    grpc_ended = λ x. subst (HasReason grpc y.is_cancelled) f inv.grpc_reason;
  }
  grpc_served-Inv y serving gone e f inv = record {
    counts =
        ap (λ (n : ℕ). n - 1)
          (inv.counts ∙ ap (λ (g : Server). to_come y.http_stopper + to_end g) e)
        ∙ ground arith;
    http_reason = inv.http_reason;
    grpc_reason = inv.grpc_reason;
    grpc_ended = λ x. subst (HasReason grpc y.is_cancelled) f inv.grpc_reason;
  }

  grpc_refused-Inv :
      (y : Serving) (g : Server) (s : Stopper)
      → Inv http grpc y
      → IsKept http grpc (grpc_refused y g s)
  unfolding grpc_refused
  grpc_refused-Inv y to_serve waiting inv = inv
  grpc_refused-Inv y to_serve stopping inv = tt
  grpc_refused-Inv y to_serve gone inv = tt
  grpc_refused-Inv y serving s inv = inv
  grpc_refused-Inv y ended s inv = inv

  to_end-starts : (g : Server) (s : Stopper) → to_end (starts g s) ≡ to_end g
  to_end-starts to_serve waiting = refl
  to_end-starts to_serve stopping = refl
  to_end-starts to_serve gone = refl
  to_end-starts serving s = refl
  to_end-starts ended s = refl

  starts-ended : (g : Server) (s : Stopper) → starts g s ≡ ended → g ≡ ended
  starts-ended to_serve waiting e = absurd (ground (e, arith))
  starts-ended to_serve stopping e = absurd (ground (e, arith))
  starts-ended to_serve gone e = e
  starts-ended serving s e = e
  starts-ended ended s e = e

  exec-Inv : (e : Event) (y : Serving) → Inv http grpc y → IsKept http grpc (exec e y)
  unfolding exec
  exec-Inv cancels y inv = record {
    counts = inv.counts;
    http_reason = HasReason-cancelled y.is_cancelled y.http_stopper http;
    grpc_reason = HasReason-cancelled y.is_cancelled y.grpc_stopper grpc;
    grpc_ended = λ a b. refl;
  }
  exec-Inv http_stops y inv = record {
    counts =
        inv.counts
        ∙ ap (λ (n : ℕ). n + to_end y.grpc_server)
            (sym (to_come-sees y.is_cancelled y.http_stopper));
    http_reason = HasReason-sees http y.is_cancelled y.http_stopper inv.http_reason;
    grpc_reason = inv.grpc_reason;
    grpc_ended = inv.grpc_ended;
  }
  exec-Inv http_shutdown_ends y inv = http_stopped-Inv y y.http_stopper refl inv
  exec-Inv http_serve_ends y inv = http_served-Inv y y.http_serves y.http_stopper inv
  exec-Inv grpc_stops y inv = record {
    counts = inv.counts;
    http_reason = inv.http_reason;
    grpc_reason = HasReason-sees grpc y.is_cancelled y.grpc_stopper inv.grpc_reason;
    grpc_ended = inv.grpc_ended;
  }
  exec-Inv grpc_stop_ends y inv = record {
    counts = inv.counts;
    http_reason = inv.http_reason;
    grpc_reason = HasReason-ended grpc y.is_cancelled y.grpc_stopper inv.grpc_reason;
    grpc_ended = inv.grpc_ended;
  }
  exec-Inv grpc_times_out y inv = record {
    counts = inv.counts;
    http_reason = inv.http_reason;
    grpc_reason = HasReason-ended grpc y.is_cancelled y.grpc_stopper inv.grpc_reason;
    grpc_ended = inv.grpc_ended;
  }
  exec-Inv grpc_serve_starts y inv = record {
    counts =
        inv.counts
        ∙ ap (λ (n : ℕ). to_come y.http_stopper + n)
            (sym (to_end-starts y.grpc_server y.grpc_stopper));
    http_reason = inv.http_reason;
    grpc_reason = inv.grpc_reason;
    grpc_ended = λ e. inv.grpc_ended (starts-ended y.grpc_server y.grpc_stopper e);
  }
  exec-Inv grpc_serve_refused y inv = grpc_refused-Inv y y.grpc_server y.grpc_stopper inv
  exec-Inv grpc_serve_ends y inv = grpc_served-Inv y y.grpc_server y.grpc_stopper refl refl inv

  and_then-IsKept :
      (o : Outcome) (k : Serving → Outcome)
      → IsKept http grpc o
      → ((y : Serving) → Inv http grpc y → IsKept http grpc (k y))
      → IsKept http grpc (and_then o k)
  and_then-IsKept panics k h f = tt
  and_then-IsKept (goes y) k h f = f y h

  pub exec_all-Inv :
      (events : List Event) (y : Serving) → Inv http grpc y → IsKept http grpc (exec_all events y)
  unfolding exec_all
  exec_all-Inv [] y inv = inv
  exec_all-Inv (e ∷ events) y inv =
      and_then-IsKept (exec e y) (exec_all events) (exec-Inv e y inv) (exec_all-Inv events)
