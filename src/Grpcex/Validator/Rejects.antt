-- ===== src/Grpcex/Validator/Rejects.antt =====
-- Which messages reach a handler, and with which code the others are refused.
use mathlib.Core.List.{Memᴰ}
use framego.Prelude.Text.{bytes}
use framego.Prelude.{
  ap, ◌∙◌, subst, ◌≢◌, some-ne-none, ℕ, ◌≡◌, ◌↔◌, refl, List, [], ◌∷◌, Option, none, some, arith,
}
use framego.Errors.{Cause, Error, Env, grpc_status_of, wrap}
use framego.Errors.Codes.{KeepsCodes, code_of, with_grpc_code_answers}
use framego.Grpcex.Validator.{
  Message, legacy_validator, validator, unvalidated, rejected, validate,
  validator_unary_server_interceptor, handled, refused, Answer, unless_rejected, Received, received,
  stream_error, Delivered, recv_msg, recv_all, read_on, delivered_unless,
}

abbrev pub violation : Message → Option Cause
violation (legacy_validator check n) = check n
violation (validator check n) = check n
violation (unvalidated n) = none

pub validate-eq : (m : Message) → validate m ≡ rejected (violation m)
unfolding validate rejected
validate-eq (legacy_validator check n) = refl
validate-eq (validator check n) = refl
validate-eq (unvalidated n) = refl

-- The gRPC code of the error of a call.
abbrev pub answer_code : {A : Type 0} → Env → Answer A → Option ℕ
answer_code env (handled a) = none
answer_code env (refused e) = code_of (grpc_status_of env e)

refusal :
    {A : Type 0}
    → (env : Env) (o : Option Cause) (answer : A) → KeepsCodes env
    → ((unless_rejected (rejected o) answer ≡ handled answer) ↔ (o ≡ none))
      × ((answer_code env (unless_rejected (rejected o) answer) ≡ some 3) ↔ (o ≢ none))
unfolding rejected
refusal env none answer keeps = (ground arith, ground arith)
refusal env (some cause) answer keeps = (
  ground arith,
  (
    λ h. λ e. some-ne-none e,
    λ h. with_grpc_code_answers env (wrap cause (bytes "invalid_argument")) 3 keeps,
  ),
)

-- A call reaches the handler exactly if its message has no violation, and is refused with `InvalidArgument` exactly if it has one; condition: `WithDetails` keeps the code of a status.
pub validator_unary_server_interceptor_lem :
    {A : Type 0}
    → (env : Env) (handler : Message → A) (req : Message) → KeepsCodes env
    → ((validator_unary_server_interceptor handler req ≡ handled (handler req))
        ↔ (violation req ≡ none))
      × ((answer_code env (validator_unary_server_interceptor handler req) ≡ some 3)
          ↔ (violation req ≢ none))
unfolding validator_unary_server_interceptor
validator_unary_server_interceptor_lem env handler req keeps =
    rw (validate-eq req) (refusal env (violation req) (handler req) keeps)

read_valid :
    (m r : Message) (o : Option Cause) (ms : List Message) (last : Option Delivered)
    → violation r ≡ o
    → (Memᴰ m ms → violation m ≡ none)
    → Memᴰ m (read_on (delivered_unless r (rejected o)) (ms, last)).0
    → violation m ≡ none
unfolding rejected
read_valid m r none ms last e rest (Memᴰ.head same) = ap violation same ∙ e
read_valid m r none ms last e rest (Memᴰ.tail i) = rest i
read_valid m r (some cause) ms last e rest i = elim i [ ]

-- What the handler of a stream reads has no violation.
pub recv_all-valid :
    (rs : List Received) (m : Message) → Memᴰ m (recv_all rs).0 → violation m ≡ none
unfolding recv_all recv_msg
recv_all-valid [] m i = elim i [ ]
recv_all-valid (stream_error e ∷ rs) m i = elim i [ ]
recv_all-valid (received r ∷ rs) m i =
    let rest = recv_all rs in
    read_valid m r (violation r) rest.0 rest.1 refl (recv_all-valid rs m) (
      subst (λ (o : Option Error). Memᴰ m (read_on (delivered_unless r o) (recv_all rs)).0)
        (validate-eq r) i)
