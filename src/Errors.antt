-- ===== src/Errors.antt =====
-- errors/error.go. Texts are lists of bytes; the keys and values of the details are numbers. What gRPC
-- and structpb do with a status and a detail is a parameter.
pub mod Codes
mod Examples
use framego.Prelude.{
  ℕ, ◌%◌, ◌^◌, Bool, true, false, not, List, [], ◌∷◌, ◌++◌, Option, none, some, if◌then◌else◌, ◌-◌,
}
use framego.Prelude.Int.{ℤ, pos, negsuc}
use framego.Prelude.Assoc.{insert}

abbrev pub Str : Type 0
Str = List ℕ

abbrev pub Detail : Type 0
Detail = List (ℕ × ℕ)

-- `pb.Error` with its text, detail and cause.
pub data Proto : Type 0 where
  no_proto : Proto
  proto : Str → Option Detail → Proto → Proto

pub record Status : Type 0 where
  pub code : ℕ
  pub message : Str
  pub details : Proto

-- An error value: nil, one with a text only, one with a `GRPCStatus` of its own, and an `Error` with
-- its message, code, cause, detail and cached status.
pub data Cause : Type 0 where
  nil : Cause
  plain : Str → Cause
  foreign : Str → Status → Cause
  framework : Str → ℤ → Cause → Option Detail → Option Status → Cause

pub record Error : Type 0 where
  pub message : Str
  pub code : ℤ
  pub cause : Cause
  pub detail : Option Detail
  pub grpc_status : Option Status

abbrev pub to_cause : Error → Cause
to_cause e = framework e.message e.code e.cause e.detail e.grpc_status

-- `SetGRPCDebugMode`, `structpb.NewStruct` and `Status.WithDetails`; `none` is their error.
pub record Env : Type 0 where
  pub grpc_debug_mode : Bool
  pub new_struct : Detail → Option Detail
  pub with_details : Status → Proto → Option Status

abbrev pub invalid_code : ℤ
invalid_code = negsuc 0

-- `codes.Unknown`.
abbrev pub unknown_code : ℕ
unknown_code = 2

-- `codes.Code(code)`, of 32 bits.
abbrev pub grpc_code : ℤ → ℕ
grpc_code (pos n) = n % 2 ^ 32
grpc_code (negsuc n) = 2 ^ 32 - 1 - n % 2 ^ 32

abbrev pub is_invalid : ℤ → Bool
is_invalid (negsuc ℕ.zero) = true
is_invalid _ = false

abbrev pub is_nil : Cause → Bool
is_nil nil = true
is_nil _ = false

-- `Error()` of an error value.
unfoldable pub error_text : Cause → Str
error_text nil = []
error_text (plain text) = text
error_text (foreign text s) = text
error_text (framework message code cause detail s) =
    let rest = error_text cause in if is_nil cause then message else message ++ b':' ∷ b' ' ∷ rest

abbrev pub struct_of : Env → Option Detail → Option Detail
struct_of env none = none
struct_of env (some d) = env.new_struct d

unfoldable pub cause_proto : Env → Cause → Proto
cause_proto env nil = no_proto
cause_proto env (plain text) = proto text none no_proto
cause_proto env (foreign text s) = proto text none no_proto
cause_proto env (framework message code cause detail s) =
    let rest = cause_proto env cause in
    proto message (struct_of env detail) (if env.grpc_debug_mode then rest else no_proto)

-- The status of an error with this code, whose status is not cached.
abbrev pub or_plain : Status → Option Status → Status
or_plain base none = base
or_plain base (some s) = s

unfoldable pub new_status : Env → ℕ → Str → Proto → Status
new_status env code message details =
    let base : Status = record { code = code; message = message; details = no_proto } in
    or_plain base (env.with_details base details)

-- `GRPCStatus` of an error value, and the value with its caches set; `none` if it has no such method.
abbrev pub cached : Str → ℤ → Option Detail → Status × Cause → Status × Cause
cached message code detail (s, cause) = (s, framework message code cause detail (some s))

abbrev pub from_cause :
    Str → ℤ → Cause → Option Detail → Status → Option (Status × Cause) → Status × Cause
from_cause message code cause detail fallback none = cached message code detail (fallback, cause)
from_cause message code cause detail fallback (some found) = cached message code detail found

unfoldable pub status_of : Env → Cause → Option (Status × Cause)
unfolding new_status cause_proto
status_of env nil = none
status_of env (plain text) = none
status_of env (foreign text s) = some (s, foreign text s)
status_of env (framework message code cause detail (some s)) =
    some (s, framework message code cause detail (some s))
status_of env (framework message code cause detail none) =
    let upper = status_of env cause in
    let details = cause_proto env (framework message code cause detail none) in
    some (
      if is_invalid code
      then from_cause message code cause detail (new_status env unknown_code message details) upper
      else cached message code detail (new_status env (grpc_code code) message details, cause))

unfoldable pub grpc_status_of : Env → Error → Option (Status × Cause)
unfolding status_of
grpc_status_of env e = status_of env (to_cause e)

unfoldable pub with_code : Error → ℤ → Error
with_code e code = record e { code = code; grpc_status = none }

unfoldable pub with_grpc_code : Error → ℕ → Error
with_grpc_code e code = record e { code = pos code; grpc_status = none }

abbrev pub detail_or_empty : Option Detail → Detail
detail_or_empty none = []
detail_or_empty (some d) = d

unfoldable pub with_field : Error → ℕ → ℕ → Error
with_field e key value = record e {
  detail = some (insert key value (detail_or_empty e.detail));
  grpc_status = none;
}

unfoldable pub new_error : Str → Error
new_error message = record {
  message = message;
  code = invalid_code;
  cause = nil;
  detail = none;
  grpc_status = none;
}

unfoldable pub wrap : Cause → Str → Error
wrap e message = record {
  message = message;
  code = invalid_code;
  cause = e;
  detail = none;
  grpc_status = none;
}
