-- ===== src/Appmgr/Serve.antt =====
-- appmgr/serve.go: the goroutines of a service that runs, until `Wait` returns. A server of net/http or
-- gRPC is where it stands. As they document, `Serve` of net/http returns `ErrServerClosed` only once the
-- server is shut down, and `Serve` of gRPC nil only if it is stopped, and an error if it was stopped
-- before it is called; any other error is a panic, which ends the process.
pub mod Kept
pub mod Waits
use framego.Prelude.{
  ℕ, ◌+◌, ◌-◌, Bool, true, false, List, [], ◌∷◌, Option, none, some, if◌then◌else◌,
}
use framego.Prelude.Text.{Str}
use framego.Appmgr.Services.{ServiceImpl, has}
use framego.Appmgr.Services.Runs.{Running}

-- The goroutine that stops a server: it waits for the context, waits for the server, or is gone.
pub data Stopper : Type 0 where
  waiting stopping gone : Stopper

-- The goroutine that serves gRPC: it has yet to call `Serve`, is in it, or has ended.
pub data Server : Type 0 where
  to_serve serving ended : Server

pub record Serving : Type 0 where
  pub is_cancelled : Bool
  pub http_serves : Bool
  pub http_stopper : Stopper
  pub grpc_server : Server
  pub grpc_stopper : Stopper
  pub wait_group : ℕ

-- The context is done; a goroutine that stops a server sees it; `Shutdown`, `GracefulStop` or the `Stop`
-- after the timeout returns; `Serve` is called, and of a server that was stopped fails; `Serve` returns.
pub data Event : Type 0 where
  cancels http_stops http_shutdown_ends http_serve_ends : Event
  grpc_serve_starts grpc_serve_refused grpc_serve_ends : Event
  grpc_stops grpc_stop_ends grpc_times_out : Event

pub data Outcome : Type 0 where
  panics : Outcome
  goes : Serving → Outcome

abbrev pub stopper_of : Option Str → Stopper
stopper_of none = gone
stopper_of (some endpoint) = waiting

abbrev pub server_of : Option Str → Server
server_of none = ended
server_of (some endpoint) = to_serve

-- Once Run has returned.
unfoldable pub begin : Running → Serving
begin r = record {
  is_cancelled = false;
  http_serves = has r.http_at;
  http_stopper = stopper_of r.http_at;
  grpc_server = server_of r.grpc_at;
  grpc_stopper = stopper_of r.grpc_at;
  wait_group = r.impl.wait_group;
}

abbrev pub sees : Bool → Stopper → Stopper
sees true waiting = stopping
sees cancelled stopper = stopper

-- The deferred Done of the goroutine that stops the HTTP server.
unfoldable pub http_stopped : Serving → Stopper → Serving
http_stopped y stopping = record y { http_stopper = gone; wait_group = y.wait_group - 1 }
http_stopped y stopper = y

unfoldable pub http_served : Serving → Bool → Stopper → Outcome
http_served y false stopper = goes y
http_served y true waiting = panics
http_served y true stopper = goes (record y { http_serves = false })

abbrev pub after_stop : Stopper → Stopper
after_stop stopping = gone
after_stop stopper = stopper

-- While the stopper has not ended, `Serve` may still come before the stop.
abbrev pub starts : Server → Stopper → Server
starts to_serve waiting = serving
starts to_serve stopping = serving
starts server stopper = server

-- A server that is stopped, or being stopped, may refuse to serve.
unfoldable pub grpc_refused : Serving → Server → Stopper → Outcome
grpc_refused y to_serve stopping = panics
grpc_refused y to_serve gone = panics
grpc_refused y server stopper = goes y

-- The deferred Done of the goroutine that serves gRPC.
unfoldable pub grpc_served : Serving → Server → Stopper → Outcome
grpc_served y serving waiting = panics
grpc_served y serving stopper =
    goes (record y { grpc_server = ended; wait_group = y.wait_group - 1 })
grpc_served y server stopper = goes y

-- An event that cannot happen yet changes nothing.
unfoldable pub exec : Event → Serving → Outcome
unfolding http_stopped http_served grpc_refused grpc_served
exec cancels y = goes (record y { is_cancelled = true })
exec http_stops y = goes (record y { http_stopper = sees y.is_cancelled y.http_stopper })
exec http_shutdown_ends y = goes (http_stopped y y.http_stopper)
exec http_serve_ends y = http_served y y.http_serves y.http_stopper
exec grpc_stops y = goes (record y { grpc_stopper = sees y.is_cancelled y.grpc_stopper })
exec grpc_stop_ends y = goes (record y { grpc_stopper = after_stop y.grpc_stopper })
exec grpc_times_out y = goes (record y { grpc_stopper = after_stop y.grpc_stopper })
exec grpc_serve_starts y = goes (record y { grpc_server = starts y.grpc_server y.grpc_stopper })
exec grpc_serve_refused y = grpc_refused y y.grpc_server y.grpc_stopper
exec grpc_serve_ends y = grpc_served y y.grpc_server y.grpc_stopper

abbrev pub and_then : Outcome → (Serving → Outcome) → Outcome
and_then panics k = panics
and_then (goes y) k = k y

unfoldable pub exec_all : List Event → Serving → Outcome
unfolding exec
exec_all [] y = goes y
exec_all (e ∷ events) y = and_then (exec e y) (exec_all events)
