-- ===== src/Grpcex/Access/Controller.antt =====
-- NewAccessController of grpcex/access_controller.go. The models and the enforcers of casbin are
-- parameters, `none` for their errors.
use framego.Prelude.{[], ◌∷◌, Option, none, some}
use framego.Grpcex.Access.{Str, Enforcer}

pub record Casbin (Model : Type 0) : Type 0 where
  pub new_model_from_string : Str → Option Model
  pub new_model_from_file : Str → Option Model
  pub new_enforcer : Model → Str → Option Enforcer

pub data Failure : Type 0 where
  new_default_casbin_model_error : Failure
  new_casbin_model_from_file_error : Str → Failure
  new_casbin_enforcer_error : Str → Failure

pub data NewController : Type 0 where
  failed : Failure → NewController
  controls : Enforcer → NewController

abbrev pub with_enforcer : Str → Option Enforcer → NewController
with_enforcer policy_file none = failed (new_casbin_enforcer_error policy_file)
with_enforcer policy_file (some enforcer) = controls enforcer

abbrev pub with_model :
    {Model : Type 0} → Casbin Model → Failure → Str → Option Model → NewController
with_model casbin e policy_file none = failed e
with_model casbin e policy_file (some m) =
    with_enforcer policy_file (casbin.new_enforcer m policy_file)

-- `default_model` is the text of the default model; an enforcer matches groups with globMatch.
unfoldable pub new_access_controller :
    {Model : Type 0} → Casbin Model → Str → Str → Str → NewController
new_access_controller casbin default_model [] policy_file =
    with_model casbin new_default_casbin_model_error policy_file
      (casbin.new_model_from_string default_model)
new_access_controller casbin default_model (c ∷ model_file) policy_file =
    with_model casbin (new_casbin_model_from_file_error (c ∷ model_file)) policy_file
      (casbin.new_model_from_file (c ∷ model_file))

-- What the access control middleware is made with.
abbrev pub controller_of : NewController → Option Enforcer
controller_of (failed e) = none
controller_of (controls enforcer) = some enforcer
