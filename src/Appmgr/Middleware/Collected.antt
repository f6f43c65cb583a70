-- ===== src/Appmgr/Middleware/Collected.antt =====
-- What Apply collects, and the order of the handlers.
use framego.Prelude.{ℕ, ◌+◌, ◌≡◌, refl, ap, sym, List, [], ◌∷◌, ◌++◌, Option, none, some}
use framego.Prelude.Text.{Str, to_lower}
use framego.Config.StringMap.{Raw, Reader, StringMap}
use framego.Ginex.{Made, exits, made}
use framego.Appmgr.Middleware.{
  Service, Handler, Interceptors, Middleware, MiddlewareManager, MiddlewareConstructor, Applier,
  Applied, Failure, Added, Parsed, failed, parsed, refused, added, panicked, applied,
  unknown_middleware_name, logged, next_applier, add_middleware, add_found, add_parsed,
  get_middleware, parse_middleware_config, add_middleware_by_config, add_configs,
  grpc_server_interceptor, server_step, join_interceptors, ctxtags_unary, ctxtags_stream,
  service_context_unary, service_context_stream,
}
use framego.Appmgr.Middleware.Builtin.{
  apply, service_applier, context_tags_middleware, service_context_middleware,
}

-- What one configuration stands for.
pub data Resolved : Type 0 where
  bad : Failure → Resolved
  good : MiddlewareConstructor → Resolved

abbrev pub resolve_found : Str → StringMap → Option Middleware → Resolved
resolve_found name options none = bad unknown_middleware_name
resolve_found name options (some middleware) =
    good (record { name = to_lower name; m = some middleware; options = options })

abbrev pub resolve_parsed : MiddlewareManager → Parsed → Resolved
resolve_parsed mm (failed e) = bad e
resolve_parsed mm (parsed name options) = resolve_found name options (get_middleware mm name)

abbrev pub resolve : Reader → MiddlewareManager → Raw → Resolved
resolve read mm config = resolve_parsed mm (parse_middleware_config read config)

abbrev pub cons_good : Resolved → Applier → Applier
cons_good (bad e) a = a
cons_good (good mc) a = mc ∷ a

abbrev pub cons_bad : ℕ → Resolved → List (ℕ × Failure) → List (ℕ × Failure)
cons_bad i (bad e) errors = (i, e) ∷ errors
cons_bad i (good mc) errors = errors

module _ (read : Reader) (mm : MiddlewareManager) where
  -- The middlewares of the configurations that stand for one, in order.
  abbrev pub all_good : List Raw → Applier
  all_good [] = []
  all_good (config ∷ configs) = cons_good (resolve read mm config) (all_good configs)

  -- The other configurations' errors, with their places from `i` on.
  abbrev pub all_bad : ℕ → List Raw → List (ℕ × Failure)
  all_bad i [] = []
  all_bad i (config ∷ configs) = cons_bad i (resolve read mm config) (all_bad (i + 1) configs)

abbrev pub added_resolved : Applier → Resolved → Added
added_resolved a (bad e) = refused e
added_resolved a (good mc) = added (a ++ mc ∷ [])

add_found-eq :
    (a : Applier) (name : Str) (options : StringMap) (o : Option Middleware)
    → add_found a name options o ≡ added_resolved a (resolve_found name options o)
unfolding add_found add_middleware
add_found-eq a name options none = refl
add_found-eq a name options (some middleware) = refl

add_parsed-eq :
    (mm : MiddlewareManager) (a : Applier) (p : Parsed)
    → add_parsed mm a p ≡ added_resolved a (resolve_parsed mm p)
unfolding add_parsed
add_parsed-eq mm a (failed e) = refl
add_parsed-eq mm a (parsed name options) = add_found-eq a name options (get_middleware mm name)

-- A configuration is refused with its error, or its middleware is put at the end.
pub add_middleware_by_config-eq :
    (read : Reader) (mm : MiddlewareManager) (a : Applier) (config : Raw)
    → add_middleware_by_config read mm a config ≡ added_resolved a (resolve read mm config)
unfolding add_middleware_by_config
add_middleware_by_config-eq read mm a config =
    add_parsed-eq mm a (parse_middleware_config read config)

append_assoc :
    (a : Applier) (mc : MiddlewareConstructor) (b : Applier) → (a ++ mc ∷ []) ++ b ≡ a ++ mc ∷ b
append_assoc [] mc b = refl
append_assoc (x ∷ a) mc b = ap (λ (l : Applier). x ∷ l) (append_assoc a mc b)

append_nil : (a : Applier) → a ++ [] ≡ a
append_nil [] = refl
append_nil (x ∷ a) = ap (λ (l : Applier). x ∷ l) (append_nil a)

logged-eq :
    (read : Reader) (mm : MiddlewareManager) (s : Service) (i : ℕ) (configs : List Raw)
    → ((b : Applier)
        → add_configs read mm (some s) b (i + 1) configs
          ≡ applied (b ++ all_good read mm configs) (all_bad read mm (i + 1) configs))
    → (a : Applier) (r : Resolved)
    → logged
        (some s)
        i
        (added_resolved a r)
        (add_configs read mm (some s) (next_applier a (added_resolved a r)) (i + 1) configs)
      ≡ applied
          (a ++ cons_good r (all_good read mm configs))
          (cons_bad i r (all_bad read mm (i + 1) configs))
logged-eq read mm s i configs rest a (bad e) = rw (rest a) refl
logged-eq read mm s i configs rest a (good mc) =
    rw (rest (a ++ mc ∷ []), append_assoc a mc (all_good read mm configs)) refl

add_configs-eq :
    (read : Reader) (mm : MiddlewareManager) (s : Service) (a : Applier) (i : ℕ)
    (configs : List Raw)
    → add_configs read mm (some s) a i configs
      ≡ applied (a ++ all_good read mm configs) (all_bad read mm i configs)
unfolding add_configs
add_configs-eq read mm s a i [] = rw (append_nil a) refl
add_configs-eq read mm s a i (config ∷ configs) =
    rw (add_middleware_by_config-eq read mm a config) (
      logged-eq read mm s i configs (λ b. add_configs-eq read mm s b (i + 1) configs) a
        (resolve read mm config))

-- For a service, Apply collects the two middlewares of its own and then those of the good configurations in order, and logs the error of each bad one with its index.
pub apply-eq :
    (read : Reader) (mm : MiddlewareManager) (s : Service) (configs : List Raw)
    → apply read mm (some s) configs
      ≡ applied (service_applier (some s) ++ all_good read mm configs) (all_bad read mm 0 configs)
unfolding apply
apply-eq read mm s configs = add_configs-eq read mm s (service_applier (some s)) 0 configs

-- Interceptors of two parts, one after the other, unless a part exits.
abbrev pub both :
    Made (List Handler × List Handler)
    → Made (List Handler × List Handler)
    → Made (List Handler × List Handler)
both exits y = exits
both (made x) exits = exits
both (made (us, ss)) (made (us', ss')) = made (us ++ us', ss ++ ss')

join-both :
    (is : Made Interceptors) (x y : Made (List Handler × List Handler))
    → join_interceptors is (both x y) ≡ both (join_interceptors is x) y
join-both exits x y = refl
join-both (made is) exits y = refl
join-both (made (u, s)) (made (us, ss)) exits = refl
join-both (made (none, none)) (made (us, ss)) (made (us', ss')) = refl
join-both (made (none, some s)) (made (us, ss)) (made (us', ss')) = refl
join-both (made (some u, none)) (made (us, ss)) (made (us', ss')) = refl
join-both (made (some u, some s)) (made (us, ss)) (made (us', ss')) = refl

both_nothing : (y : Made (List Handler × List Handler)) → both (made ([], [])) y ≡ y
both_nothing exits = refl
both_nothing (made (us, ss)) = refl

step-both :
    (o : Option Middleware) (options : StringMap) (x y : Made (List Handler × List Handler))
    → server_step o options (both x y) ≡ both (server_step o options x) y
step-both none options x y = refl
step-both (some m) options x y = join-both (m.grpc_server_interceptor options) x y

-- The interceptors of two appliers' middlewares are those of the first and then those of the second.
pub grpc_server_interceptor-append :
    (a b : Applier)
    → grpc_server_interceptor (a ++ b)
      ≡ both (grpc_server_interceptor a) (grpc_server_interceptor b)
unfolding grpc_server_interceptor
grpc_server_interceptor-append [] b = sym (both_nothing (grpc_server_interceptor b))
grpc_server_interceptor-append (mc ∷ a) b =
    rw (grpc_server_interceptor-append a b)
      (step-both mc.m mc.options (grpc_server_interceptor a) (grpc_server_interceptor b))

abbrev pub own_unary : Service → List Handler
own_unary s = ctxtags_unary ∷ service_context_unary s ∷ []

abbrev pub own_stream : Service → List Handler
own_stream s = ctxtags_stream ∷ service_context_stream s ∷ []

service_applier-interceptors :
    (s : Service)
    → grpc_server_interceptor (service_applier (some s)) ≡ made (own_unary s, own_stream s)
unfolding grpc_server_interceptor service_applier context_tags_middleware service_context_middleware
    add_middleware
service_applier-interceptors s = refl

abbrev pub applier_of : Applied → Applier
applier_of panicked = []
applier_of (applied a errors) = a

-- A service's calls go through the context tags, then the service's context, and then the interceptors of the good configurations in their order; the server does not start if one of these exits.
pub grpc_server_interceptor-apply :
    (read : Reader) (mm : MiddlewareManager) (s : Service) (configs : List Raw)
    → grpc_server_interceptor (applier_of (apply read mm (some s) configs))
      ≡ both (made (own_unary s, own_stream s)) (grpc_server_interceptor (all_good read mm configs))
grpc_server_interceptor-apply read mm s configs =
    rw
      (
        apply-eq read mm s configs,
        grpc_server_interceptor-append (service_applier (some s)) (all_good read mm configs),
        service_applier-interceptors s,
      )
      refl
