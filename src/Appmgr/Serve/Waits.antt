-- ===== src/Appmgr/Serve/Waits.antt =====
-- When `Wait` of a service returns.
use framego.Prelude.{
  ℕ, ◌+◌, ◌≡◌, ◌⊎◌, refl, sym, ap, ◌∙◌, subst, Bool, true, false, List, Option, none, some, arith,
  inl, inr,
}
use framego.Health.Status.{Status}
use framego.Prelude.Text.{Str}
use framego.Appmgr.Services.{ServiceImpl, GrpcServer, GinEngine, has}
use framego.Appmgr.Services.Runs.{Running, Runs, run, run_iff, count_of, at_of}
use framego.Appmgr.Serve.{
  Stopper, waiting, stopping, gone, Server, to_serve, serving, ended, Serving, Event, goes,
  stopper_of, server_of, begin, exec_all,
}
use framego.Appmgr.Serve.Kept.{to_come, to_end, HasReason, Inv, IsKept, exec_all-Inv}

started-Inv :
    (s : ServiceImpl) (g : Option GrpcServer) (h : Option GinEngine) (r : Running)
    → s.wait_group ≡ 0
    → r.impl.wait_group ≡ s.wait_group + count_of g + count_of h
    → r.grpc_at ≡ at_of g s.grpc_endpoint
    → r.http_at ≡ at_of h s.http_endpoint
    → Inv (has h) (has g) (begin r)
unfolding begin
started-Inv s g h r z n e f = record {
  counts =
      (n ∙ ap (λ (n : ℕ). n + count_of g + count_of h) z ∙ counted g h)
      ∙ sym (
          ap (λ (x : Option Str). to_come (stopper_of x) + to_end (server_of r.grpc_at)) f
          ∙ ap
              (λ (x : Option Str).
                to_come (stopper_of (at_of h s.http_endpoint)) + to_end (server_of x))
              e);
  http_reason =
      subst (λ (x : Option Str). HasReason (has h) false (stopper_of x)) (sym f)
        (waits h s.http_endpoint);
  grpc_reason =
      subst (λ (x : Option Str). HasReason (has g) false (stopper_of x)) (sym e)
        (waits g s.grpc_endpoint);
  grpc_ended =
      subst (λ (x : Option Str). server_of x ≡ ended → has g ≡ true → false ≡ true) (sym e)
        (serves g);
}
  where
    counted :
        (g : Option GrpcServer) (h : Option GinEngine)
        → 0 + count_of g + count_of h
          ≡ to_come (stopper_of (at_of h s.http_endpoint))
            + to_end (server_of (at_of g s.grpc_endpoint))
    counted none none = refl
    counted none (some h) = refl
    counted (some g) none = refl
    counted (some g) (some h) = refl

    waits :
        {A : Type 0} → (x : Option A) (at : Str) → HasReason (has x) false (stopper_of (at_of x at))
    waits none at = λ e. e
    waits (some a) at = tt

    serves :
        (g : Option GrpcServer)
        → server_of (at_of g s.grpc_endpoint) ≡ ended
        → has g ≡ true
        → false ≡ true
    serves none e f = f
    serves (some g) e f = absurd (ground (e, arith))

module _ (listens : Str → Bool) (status : Status) (s : ServiceImpl) where
  began-Inv :
      s.wait_group ≡ 0
      → (run listens status s).1 ≡ none
      → Inv (has s.gin_engine) (has s.grpc_server) (begin (run listens status s).0)
  began-Inv z e = by ((run_iff listens status s).0 e)
    where
      by :
          Runs listens s status.state s.grpc_server s.gin_engine (run listens status s).0
          → Inv (has s.gin_engine) (has s.grpc_server) (begin (run listens status s).0)
      by (x, g, h, (n, at, at', names)) =
          started-Inv s s.grpc_server s.gin_engine (run listens status s).0 z n at at'

  pub reached-Inv :
      (events : List Event) (y : Serving)
      → s.wait_group ≡ 0
      → (run listens status s).1 ≡ none
      → exec_all events (begin (run listens status s).0) ≡ goes y
      → Inv (has s.gin_engine) (has s.grpc_server) y
  reached-Inv events y z e reached = subst (IsKept (has s.gin_engine) (has s.grpc_server)) reached (
      exec_all-Inv (has s.gin_engine) (has s.grpc_server) events (begin (run listens status s).0)
        (began-Inv z e))

  -- Once Wait of a service that Run started can return, the goroutine that shuts the HTTP server down has ended, the goroutine that serves gRPC has ended, and the context is done or the service has no server.
  pub wait_returns :
      (events : List Event) (y : Serving)
      → s.wait_group ≡ 0
      → (run listens status s).1 ≡ none
      → exec_all events (begin (run listens status s).0) ≡ goes y
      → y.wait_group ≡ 0
      → (y.http_stopper ≡ gone)
        × (y.grpc_server ≡ ended)
        × ((y.is_cancelled ≡ true) ⊎ ((s.grpc_server ≡ none) × (s.gin_engine ≡ none)))
  wait_returns events y z e reached w = ended_all (reached-Inv events y z e reached)
    where
      none_left : (h : Stopper) (g : Server) → to_come h + to_end g ≡ 0 → (h ≡ gone) × (g ≡ ended)
      none_left waiting g e = absurd (ground (e, arith))
      none_left stopping g e = absurd (ground (e, arith))
      none_left gone to_serve e = absurd (ground (e, arith))
      none_left gone serving e = absurd (ground (e, arith))
      none_left gone ended e = (refl, refl)

      why :
          (g : Option GrpcServer) (h : Option GinEngine)
          → (has g ≡ true → y.is_cancelled ≡ true)
          → (has h ≡ true → y.is_cancelled ≡ true)
          → (y.is_cancelled ≡ true) ⊎ ((g ≡ none) × (h ≡ none))
      why (some g) h c d = inl (c refl)
      why none (some h) c d = inl (d refl)
      why none none c d = inr (refl, refl)

      with_reasons :
          Inv (has s.gin_engine) (has s.grpc_server) y
          → (y.http_stopper ≡ gone) × (y.grpc_server ≡ ended)
          → (y.http_stopper ≡ gone)
            × (y.grpc_server ≡ ended)
            × ((y.is_cancelled ≡ true) ⊎ ((s.grpc_server ≡ none) × (s.gin_engine ≡ none)))
      with_reasons inv (h, b) = (
        h,
        b,
        why s.grpc_server s.gin_engine (inv.grpc_ended b)
            (subst (HasReason (has s.gin_engine) y.is_cancelled) h inv.http_reason),
      )

      ended_all :
          Inv (has s.gin_engine) (has s.grpc_server) y
          → (y.http_stopper ≡ gone)
            × (y.grpc_server ≡ ended)
            × ((y.is_cancelled ≡ true) ⊎ ((s.grpc_server ≡ none) × (s.gin_engine ≡ none)))
      ended_all inv = with_reasons inv (none_left y.http_stopper y.grpc_server (sym inv.counts ∙ w))
