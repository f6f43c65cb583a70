-- ===== src/Appmgr/Middleware/NoService.antt =====
-- Apply without a service, as for the clients of an application.
use framego.Prelude.{ℕ, ◌+◌, ◌≡◌, ◌≢◌, ◌↔◌, List, [], ◌∷◌, ◌++◌, none, arith}
use framego.Config.StringMap.{Raw, Reader}
use framego.Appmgr.Middleware.{
  MiddlewareManager, Applier, panicked, logged, next_applier, add_configs,
}
use framego.Appmgr.Middleware.Builtin.{apply, service_applier}
use framego.Appmgr.Middleware.Collected.{
  Resolved, bad, good, resolve, all_bad, cons_bad, added_resolved, add_middleware_by_config-eq,
}

logged_panics :
    (read : Reader) (mm : MiddlewareManager) (i : ℕ) (configs : List Raw)
    → ((b : Applier)
        → (add_configs read mm none b (i + 1) configs ≡ panicked)
          ↔ (all_bad read mm (i + 1) configs ≢ []))
    → (a : Applier) (r : Resolved)
    → (logged none i
          (added_resolved a r)
          (add_configs read mm none (next_applier a (added_resolved a r)) (i + 1) configs)
        ≡ panicked)
      ↔ (cons_bad i r (all_bad read mm (i + 1) configs) ≢ [])
logged_panics read mm i configs rest a (bad e) = ground arith
logged_panics read mm i configs rest a (good mc) = rest (a ++ mc ∷ [])

add_configs_panics :
    (read : Reader) (mm : MiddlewareManager) (a : Applier) (i : ℕ) (configs : List Raw)
    → (add_configs read mm none a i configs ≡ panicked) ↔ (all_bad read mm i configs ≢ [])
unfolding add_configs
add_configs_panics read mm a i [] = ground arith
add_configs_panics read mm a i (config ∷ configs) =
    rw (add_middleware_by_config-eq read mm a config) (
      logged_panics read mm i configs (λ b. add_configs_panics read mm b (i + 1) configs) a
        (resolve read mm config))

-- Without a service, Apply panics exactly if some configuration is bad.
pub apply_no_service_panics_iff :
    (read : Reader) (mm : MiddlewareManager) (configs : List Raw)
    → (apply read mm none configs ≡ panicked) ↔ (all_bad read mm 0 configs ≢ [])
unfolding apply
apply_no_service_panics_iff read mm configs =
    add_configs_panics read mm (service_applier none) 0 configs
