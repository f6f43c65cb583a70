-- ===== src/Appmgr/Middleware/Builtin/Default.antt =====
-- The default manager, and access control that is never left out.
use mathlib.Core.List.{Memᴰ}
use mathlib.Core.List.Memᴰ
use framego.Prelude.{
  ◌≡◌, refl, subst, ap, sym, ◌∙◌, if◌then◌else◌, List, [], ◌∷◌, ◌++◌, Option, none, some, arith,
}
use framego.Prelude.Text.{Str, bytes, to_lower, lower}
use framego.Config.StringMap.{Raw, Reader, StringMap, get_string}
use framego.Ginex.{Made, exits, made}
use framego.Grpcex.Access.{Enforcer}
use framego.Appmgr.Middleware.{
  Service, Handler, Interceptors, Middleware, MiddlewareManager, MiddlewareConstructor, Applier,
  parsed, get_middleware, parse_middleware_config, grpc_server_interceptor, server_step,
  join_interceptors, cons_some, access_control_unary, access_control_stream,
}
use framego.Appmgr.Middleware.Named.{get_middleware_registered}
use framego.Appmgr.Middleware.Builtin.{
  Env, apply, new_default_middleware_manager, before_access_control, access_control_middleware,
  access_control_of, controlled, or_empty, is_empty, resolve_path_in_config,
}
use framego.Appmgr.Middleware.Collected.{
  Resolved, bad, good, cons_good, resolve, all_good, applier_of, both, own_unary, own_stream,
  grpc_server_interceptor-apply,
}

pub default_access_control :
    (env : Env) (written : Str)
    → to_lower written ≡ bytes "access_control"
    → get_middleware (new_default_middleware_manager env) written
      ≡ some (access_control_middleware env)
unfolding new_default_middleware_manager lower
default_access_control env written same =
    get_middleware_registered (before_access_control env) (some (access_control_middleware env))
      (bytes "access_control") written (sym same)

abbrev pub IsAmong : Option Handler → List Handler → Type 0
IsAmong none hs = Unit {0}
IsAmong (some h) hs = Memᴰ h hs

-- What a constructor's interceptors are, and that they are among these.
abbrev pub IsServed : Middleware → StringMap → List Handler × List Handler → Type 0
IsServed m options (us, ss) =
    (is : Interceptors) × ((m.grpc_server_interceptor options ≡ made is)
      × (IsAmong is.0 us × IsAmong is.1 ss))

cons_some-head : (o : Option Handler) (hs : List Handler) → IsAmong o (cons_some o hs)
cons_some-head none hs = tt
cons_some-head (some h) hs = Memᴰ.head refl

cons_some-tail :
    (o p : Option Handler) (hs : List Handler) → IsAmong p hs → IsAmong p (cons_some o hs)
cons_some-tail none p hs h = h
cons_some-tail (some x) none hs h = tt
cons_some-tail (some x) (some y) hs h = Memᴰ.tail h

pub made-inj : {A : Type 0} {x y : A} → made x ≡ made y → x ≡ y
made-inj h = cc

join_interceptors-made :
    (is : Made Interceptors) (rest : Made (List Handler × List Handler))
    (x : List Handler × List Handler)
    → join_interceptors is rest ≡ made x
    → (i : Interceptors) × (r : List Handler × List Handler) × (is ≡ made i)
      × (rest ≡ made r)
      × ((cons_some i.0 r.0, cons_some i.1 r.1) ≡ x)
join_interceptors-made exits rest x h = absurd (ground (h, arith))
join_interceptors-made (made i) exits x h = absurd (ground (h, arith))
join_interceptors-made (made (u, s)) (made (us, ss)) x h =
    ((u, s), (us, ss), refl, refl, made-inj h)

IsServed-head :
    (m : Middleware) (options : StringMap) (rest : Made (List Handler × List Handler))
    (us ss : List Handler)
    → server_step (some m) options rest ≡ made (us, ss)
    → IsServed m options (us, ss)
IsServed-head m options rest us ss h =
    let ((u, s), (us', ss'), e, e', same) =
      join_interceptors-made (m.grpc_server_interceptor options) rest (us, ss) h in
    (
      (u, s),
      (
        e,
        subst (λ (x : List Handler × List Handler). IsAmong u x.0 × IsAmong s x.1) same
            (cons_some-head u us', cons_some-head s ss'),
      ),
    )

IsServed-tail :
    (o : Option Middleware) (options : StringMap) (rest : Made (List Handler × List Handler))
    (us ss : List Handler)
    → server_step o options rest ≡ made (us, ss)
    → (r : List Handler × List Handler) × (rest ≡ made r)
      × ((p q : Option Handler) → IsAmong p r.0 → IsAmong q r.1 → IsAmong p us × IsAmong q ss)
IsServed-tail none options rest us ss h = ((us, ss), h, λ p q x y. (x, y))
IsServed-tail (some m) options rest us ss h =
    let ((u, s), (us', ss'), e, e', same) =
      join_interceptors-made (m.grpc_server_interceptor options) rest (us, ss) h in
    (
      (us', ss'),
      e',
      λ p q x y.
          subst (λ (z : List Handler × List Handler). IsAmong p z.0 × IsAmong q z.1) same
            (cons_some-tail u p us' x, cons_some-tail s q ss' y),
    )

-- The interceptors of each middleware of an applier are among those that the applier gives.
pub served :
    (a : Applier) (mc : MiddlewareConstructor) (m : Middleware) (us ss : List Handler)
    → Memᴰ mc a
    → mc.m ≡ some m
    → grpc_server_interceptor a ≡ made (us, ss)
    → IsServed m mc.options (us, ss)
unfolding grpc_server_interceptor
served [] mc m us ss i e h = elim i [ ]
served (x ∷ a) mc m us ss (Memᴰ.head same) e h =
    IsServed-head m mc.options (grpc_server_interceptor a) us ss (
      ap (λ (o : Option Middleware). server_step o mc.options (grpc_server_interceptor a)) (sym e)
      ∙ (ap (λ (c : MiddlewareConstructor). server_step c.m c.options (grpc_server_interceptor a))
            same
          ∙ h))
served (x ∷ a) mc m us ss (Memᴰ.tail i) e h =
    let (r, e', among) = IsServed-tail x.m x.options (grpc_server_interceptor a) us ss h in
    let (is, (e'', (p, q))) = served a mc m r.0 r.1 i e e' in (is, (e'', among is.0 is.1 p q))

controlled-made :
    (o : Option Enforcer) (is : Interceptors)
    → controlled o ≡ made is
    → (e : Enforcer) × ((is.0 ≡ some (access_control_unary e))
        × (is.1 ≡ some (access_control_stream e)))
controlled-made none is h = absurd (ground (h, arith))
controlled-made (some e) is h =
    let same = made-inj h in
    (e, (sym (ap (λ (i : Interceptors). i.0) same), sym (ap (λ (i : Interceptors). i.1) same)))

access_control_of-made :
    (env : Env) (model policy : Str) (is : Interceptors)
    → access_control_of env model policy ≡ made is
    → (e : Enforcer) × ((is.0 ≡ some (access_control_unary e))
        × (is.1 ≡ some (access_control_stream e)))
unfolding access_control_of
access_control_of-made env model [] is h = absurd (ground (h, arith))
access_control_of-made env model (c ∷ policy) is h =
    let model_file = if is_empty model then model else resolve_path_in_config env model in
    controlled-made (env.new_access_controller model_file (resolve_path_in_config env (c ∷ policy)))
      is h

access_control_middleware-made :
    (env : Env) (options : StringMap) (is : Interceptors)
    → (access_control_middleware env).grpc_server_interceptor options ≡ made is
    → (e : Enforcer) × ((is.0 ≡ some (access_control_unary e))
        × (is.1 ≡ some (access_control_stream e)))
unfolding access_control_middleware
access_control_middleware-made env options is h =
    access_control_of-made env (or_empty (get_string env.read options (bytes "model")))
      (or_empty (get_string env.read options (bytes "policy"))) is h

cons_good_has :
    (r : Resolved) (mc : MiddlewareConstructor) (a : Applier) → Memᴰ mc a → Memᴰ mc (cons_good r a)
cons_good_has (bad e) mc a i = i
cons_good_has (good x) mc a i = Memᴰ.tail i

all_good_has :
    (read : Reader) (mm : MiddlewareManager) (configs : List Raw) (config : Raw)
    (mc : MiddlewareConstructor)
    → Memᴰ config configs
    → resolve read mm config ≡ good mc
    → Memᴰ mc (all_good read mm configs)
all_good_has read mm [] config mc i e = elim i [ ]
all_good_has read mm (c ∷ configs) config mc (Memᴰ.head same) e = rw (← same, e) (Memᴰ.head refl)
all_good_has read mm (c ∷ configs) config mc (Memᴰ.tail i) e =
    cons_good_has (resolve read mm c) mc (all_good read mm configs)
      (all_good_has read mm configs config mc i e)

-- Interceptors that the second part gives are given by both.
both-made :
    (x : List Handler × List Handler) (y : Made (List Handler × List Handler))
    (us ss : List Handler)
    → both (made x) y ≡ made (us, ss)
    → (us' : List Handler) × (ss' : List Handler) × (y ≡ made (us', ss'))
      × (x.0 ++ us' ≡ us)
      × (x.1 ++ ss' ≡ ss)
both-made x exits us ss h = absurd (ground (h, arith))
both-made (as', bs) (made (cs, ds)) us ss h =
    let same = made-inj h in
    (
      cs,
      ds,
      refl,
      ap (λ (z : List Handler × List Handler). z.0) same,
      ap (λ (z : List Handler × List Handler). z.1) same,
    )

IsAmong-append : (o : Option Handler) (pre hs : List Handler) → IsAmong o hs → IsAmong o (pre ++ hs)
IsAmong-append none pre hs h = tt
IsAmong-append (some x) pre hs h = Memᴰ.append_right pre h

-- The interceptors of the middleware that a configuration of a service names are among the service's.
pub apply-IsServed :
    (env : Env) (s : Service) (configs : List Raw) (config : Raw) (written : Str)
    (options : StringMap) (m : Middleware) (us ss : List Handler)
    → Memᴰ config configs
    → parse_middleware_config env.read config ≡ parsed written options
    → get_middleware (new_default_middleware_manager env) written ≡ some m
    → grpc_server_interceptor
        (applier_of (apply env.read (new_default_middleware_manager env) (some s) configs))
      ≡ made (us, ss)
    → IsServed m options (us, ss)
apply-IsServed env s configs config written options m us ss i p found h =
    let mm = new_default_middleware_manager env in
    let good_list = all_good env.read mm configs in
    let mc : MiddlewareConstructor = record {
      name = to_lower written;
      m = some m;
      options = options;
    } in
    let resolved : resolve env.read mm config ≡ good mc = rw (p, found) refl in
    let (us', ss', e, first, second) =
      both-made (own_unary s, own_stream s) (grpc_server_interceptor good_list) us ss
        (sym (grpc_server_interceptor-apply env.read mm s configs) ∙ h) in
    let (is, (made_is, (unary, stream))) =
      served good_list mc m us' ss' (all_good_has env.read mm configs config mc i resolved) refl
        e in
    (
      is,
      (
        made_is,
        (
          subst (λ (l : List Handler). IsAmong is.0 l) first
              (IsAmong-append is.0 (own_unary s) us' unary),
          subst (λ (l : List Handler). IsAmong is.1 l) second
              (IsAmong-append is.1 (own_stream s) ss' stream),
        ),
      ),
    )

-- With the default manager, where a configuration of a service names access control, in whatever case, and the service's interceptors are made, an access control with a policy is among the unary ones and the same among the stream ones.
pub apply_access_control :
    (env : Env) (s : Service) (configs : List Raw) (config : Raw) (written : Str)
    (options : StringMap) (us ss : List Handler)
    → Memᴰ config configs
    → parse_middleware_config env.read config ≡ parsed written options
    → to_lower written ≡ bytes "access_control"
    → grpc_server_interceptor
        (applier_of (apply env.read (new_default_middleware_manager env) (some s) configs))
      ≡ made (us, ss)
    → (e : Enforcer) × (Memᴰ (access_control_unary e) us × Memᴰ (access_control_stream e) ss)
apply_access_control env s configs config written options us ss i p same h =
    let (is, (made_is, (unary, stream))) =
      apply-IsServed env s configs config written options (access_control_middleware env) us ss i p
        (default_access_control env written same) h in
    let (c, (eu, es)) = access_control_middleware-made env options is made_is in
    (
      c,
      (
        subst (λ (o : Option Handler). IsAmong o us) eu unary,
        subst (λ (o : Option Handler). IsAmong o ss) es stream,
      ),
    )
