-- ===== src/Appmgr/Middleware/Builtin/Configured.antt =====
-- The interceptors of the default middlewares that a service's configurations name.
use mathlib.Core.List.{Memᴰ}
use framego.Prelude.{◌≡◌, refl, subst, ap, sym, ◌∙◌, List, Option, some}
use framego.Prelude.Text.{Str, bytes, to_lower, lower}
use framego.Config.StringMap.{Raw, StringMap}
use framego.Ginex.{made}
use framego.Grpcex.Access.{Enforcer}
use framego.Appmgr.Middleware.{
  Service, Handler, Interceptors, Middleware, parsed, get_middleware, parse_middleware_config,
  grpc_server_interceptor, access_control_unary, access_control_stream,
}
use framego.Appmgr.Middleware.Builtin.{
  Env, apply, new_default_middleware_manager, before_access_control, access_control_middleware,
}
use framego.Appmgr.Middleware.Collected.{applier_of}
use framego.Appmgr.Middleware.{
  register_middleware, recovery_unary, recovery_stream, validator_server_unary,
  validator_server_stream,
}
use framego.Appmgr.Middleware.Builtin.{recovery_middleware, request_validation_middleware}
use framego.Appmgr.Middleware.Builtin.Default.{
  IsAmong, IsServed, made-inj, apply-IsServed, default_access_control,
}

pub default_recovery :
    (env : Env) (written : Str)
    → to_lower written ≡ bytes "recovery"
    → get_middleware (new_default_middleware_manager env) written ≡ some recovery_middleware
unfolding new_default_middleware_manager get_middleware before_access_control register_middleware
    lower
default_recovery env written same = rw same refl

pub default_request_validation :
    (env : Env) (written : Str)
    → to_lower written ≡ bytes "request_validation"
    → get_middleware (new_default_middleware_manager env) written
      ≡ some request_validation_middleware
unfolding new_default_middleware_manager get_middleware before_access_control register_middleware
    lower
default_request_validation env written same = rw same refl

made-fst :
    {is : Interceptors} (u s : Handler)
    → made (some u, some s) ≡ made is
    → (some u ≡ is.0) × (some s ≡ is.1)
made-fst u s h =
    (ap (λ (i : Interceptors). i.0) (made-inj h), ap (λ (i : Interceptors). i.1) (made-inj h))

IsServed-both :
    (m : Middleware) (options : StringMap) (u s : Handler) (us ss : List Handler)
    → m.grpc_server_interceptor options ≡ made (some u, some s)
    → IsServed m options (us, ss)
    → Memᴰ u us × Memᴰ s ss
IsServed-both m options u s us ss e (is, (made_is, (unary, stream))) =
    let (eu, es) = made-fst u s (sym e ∙ made_is) in
    (
      subst (λ (o : Option Handler). IsAmong o us) (sym eu) unary,
      subst (λ (o : Option Handler). IsAmong o ss) (sym es) stream,
    )

module _ (env : Env) (s : Service) (configs : List Raw) (config : Raw) (written : Str)
    (options : StringMap) (us ss : List Handler) where
  -- A configuration of the service names this middleware, and its interceptors are made.
  abbrev pub Configures : Str → Type 0
  Configures name =
      Memᴰ config configs
      × (parse_middleware_config env.read config ≡ parsed written options)
      × (to_lower written ≡ name)
      × (grpc_server_interceptor
            (applier_of (apply env.read (new_default_middleware_manager env) (some s) configs))
          ≡ made (us, ss))

  pub apply_recovery :
      Configures (bytes "recovery") → Memᴰ recovery_unary us × Memᴰ recovery_stream ss
  unfolding recovery_middleware
  apply_recovery (i, p, same, h) =
      IsServed-both recovery_middleware options recovery_unary recovery_stream us ss refl (
        apply-IsServed env s configs config written options recovery_middleware us ss i p
          (default_recovery env written same) h)

  pub apply_request_validation :
      Configures (bytes "request_validation")
      → Memᴰ validator_server_unary us × Memᴰ validator_server_stream ss
  unfolding request_validation_middleware
  apply_request_validation (i, p, same, h) =
      IsServed-both request_validation_middleware options validator_server_unary
        validator_server_stream us ss refl
        (apply-IsServed env s configs config written options request_validation_middleware us ss i p
          (default_request_validation env written same) h)

  -- The enforcer is the one that is made of the options' model and policy.
  abbrev pub Enforces : Enforcer → Type 0
  Enforces e =
      (access_control_middleware env).grpc_server_interceptor options
      ≡ made (some (access_control_unary e), some (access_control_stream e))

  pub apply_enforcer :
      (e : Enforcer)
      → Enforces e
      → Configures (bytes "access_control")
      → Memᴰ (access_control_unary e) us × Memᴰ (access_control_stream e) ss
  apply_enforcer e enforces (i, p, same, h) =
      IsServed-both (access_control_middleware env) options (access_control_unary e)
        (access_control_stream e) us ss enforces
        (apply-IsServed env s configs config written options (access_control_middleware env) us ss i
          p (default_access_control env written same) h)
