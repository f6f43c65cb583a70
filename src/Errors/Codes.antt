-- ===== src/Errors/Codes.antt =====
-- Which code an error answers with, and when.
use framego.Prelude.{
  ℕ, ◌%◌, ◌^◌, ◌≡◌, refl, subst, false, Option, none, some, if◌then◌else◌, Bool-cases, Option-cases,
  inl, inr,
}
use framego.Prelude.Int.{ℤ, pos}
use framego.Errors.{
  Str, Detail, Proto, no_proto, Status, Cause, nil, plain, foreign, framework, Error, Env,
  unknown_code, grpc_code, is_invalid, new_status, from_cause, status_of, grpc_status_of, with_code,
  with_grpc_code, cause_proto,
}

-- `WithDetails` adds to a status, and keeps its code and its message.
abbrev pub KeepsCodes : Env → Type 0
KeepsCodes env =
    (s s' : Status) (p : Proto)
    → env.with_details s p ≡ some s'
    → (s'.code ≡ s.code) × (s'.message ≡ s.message)

abbrev pub IsUncached : Cause → Type 0
IsUncached nil = Unit {0}
IsUncached (plain text) = Unit {0}
IsUncached (foreign text s) = Unit {0}
IsUncached (framework message code cause detail none) = IsUncached cause
IsUncached (framework message code cause detail (some s)) = ⊥

-- The first code that is set in the chain of causes.
abbrev pub first_code : Cause → Option ℕ
first_code nil = none
first_code (plain text) = none
first_code (foreign text s) = some s.code
first_code (framework message code cause detail s) =
    let rest = first_code cause in
    if is_invalid code
    then elim rest [ none ↦ some unknown_code | some n ↦ some n ]
    else some (grpc_code code)

abbrev pub code_of : Option (Status × Cause) → Option ℕ
code_of none = none
code_of (some (s, c)) = some s.code

new_status_code :
    (env : Env) (code : ℕ) (message : Str) (details : Proto)
    → KeepsCodes env
    → (new_status env code message details).code ≡ code
unfolding new_status
new_status_code env code message details keeps =
    let base : Status = record { code = code; message = message; details = no_proto } in
    elim (Option-cases (env.with_details base details)) [
      | inl e ↦ rw e refl
      | inr (s, e) ↦ rw e (keeps base s details e).0
    ]

from_cause_code :
    (message : Str) (code : ℤ) (cause : Cause) (detail : Option Detail) (fallback : Status)
    (upper : Option (Status × Cause))
    → fallback.code ≡ unknown_code
    → some (from_cause message code cause detail fallback upper).0.code
      ≡ (elim (code_of upper) [ none ↦ some unknown_code | some n ↦ some n ])
from_cause_code message code cause detail fallback none e = rw e refl
from_cause_code message code cause detail fallback (some (s, c)) e = refl

-- While no status of a chain is cached, `GRPCStatus` answers with the first code that is set in the chain of causes, and with `Unknown` where an `Error` has none above it; condition: `WithDetails` keeps the code of a status.
pub status_of_code :
    (env : Env) (c : Cause)
    → KeepsCodes env
    → IsUncached c
    → code_of (status_of env c) ≡ first_code c
unfolding status_of
status_of_code env nil keeps h = refl
status_of_code env (plain text) keeps h = refl
status_of_code env (foreign text s) keeps h = refl
status_of_code env (framework message code cause detail (some s)) keeps h = absurd h
status_of_code env (framework message code cause detail none) keeps h =
    let rest = status_of_code env cause keeps h in
    let details = cause_proto env (framework message code cause detail none) in
    elim (Bool-cases (is_invalid code)) [
      | inl e ↦
          rw (e, ← rest)
            (from_cause_code message code cause detail (new_status env unknown_code message details)
              (status_of env cause) (new_status_code env unknown_code message details keeps))
      | inr e ↦ rw (e, new_status_code env (grpc_code code) message details keeps) refl
    ]

abbrev IsSettled : Env → Option (Status × Cause) → Type 0
IsSettled env none = Unit {0}
IsSettled env (some r) = status_of env r.1 ≡ some r

from_cause-IsSettled :
    (env : Env) (message : Str) (code : ℤ) (cause : Cause) (detail : Option Detail)
    (fallback : Status) (upper : Option (Status × Cause))
    → IsSettled env (some (from_cause message code cause detail fallback upper))
unfolding status_of
from_cause-IsSettled env message code cause detail fallback none = refl
from_cause-IsSettled env message code cause detail fallback (some (s, c)) = refl

status_of-IsSettled : (env : Env) (c : Cause) → IsSettled env (status_of env c)
unfolding status_of
status_of-IsSettled env nil = tt
status_of-IsSettled env (plain text) = tt
status_of-IsSettled env (foreign text s) = refl
status_of-IsSettled env (framework message code cause detail (some s)) = refl
status_of-IsSettled env (framework message code cause detail none) =
    let details = cause_proto env (framework message code cause detail none) in
    elim (Bool-cases (is_invalid code)) [
      | inl e ↦ rw e (
          from_cause-IsSettled env message code cause detail
            (new_status env unknown_code message details) (status_of env cause))
      | inr e ↦ rw e refl
    ]

-- Once `GRPCStatus` has answered, it gives the same answer again and changes nothing more.
pub status_of_again :
    (env : Env) (c : Cause) (r : Status × Cause)
    → status_of env c ≡ some r
    → status_of env r.1 ≡ some r
status_of_again env c r h = subst (IsSettled env) h (status_of-IsSettled env c)

-- A code that is set after `GRPCStatus` has answered is the one that the next answer has, whatever was cached; conditions: it is not -1, and `WithDetails` keeps the code of a status.
pub with_code_answers :
    (env : Env) (e : Error) (code : ℤ)
    → KeepsCodes env
    → is_invalid code ≡ false
    → code_of (grpc_status_of env (with_code e code)) ≡ some (grpc_code code)
unfolding grpc_status_of with_code status_of
with_code_answers env e code keeps h =
    let details = cause_proto env (framework e.message code e.cause e.detail none) in
    rw (h, new_status_code env (grpc_code code) e.message details keeps) refl

pub with_grpc_code_answers :
    (env : Env) (e : Error) (code : ℕ)
    → KeepsCodes env
    → code_of (grpc_status_of env (with_grpc_code e code)) ≡ some (code % 2 ^ 32)
unfolding with_grpc_code with_code
with_grpc_code_answers env e code keeps = with_code_answers env e (pos code) keeps refl
