-- ===== src/Grpcex/Validator.antt =====
-- grpcex/validator.go. What a message's `Validate` answers is a parameter; an error that it gives is a
-- `Cause` of Errors.antt.
pub mod Rejects
use framego.Prelude.{ℕ, Bool, true, false, List, [], ◌∷◌, Option, none, some}
use framego.Prelude.Text.{Str, bytes}
use framego.Errors.{Cause, Error, wrap, with_grpc_code}

-- A message by the interface that it has: `Validate()`, `Validate(all)`, or neither; with its payload.
pub data Message : Type 0 where
  legacy_validator : (ℕ → Option Cause) → ℕ → Message
  validator : (ℕ → Option Cause) → ℕ → Message
  unvalidated : ℕ → Message

abbrev pub payload : Message → ℕ
payload (legacy_validator check n) = n
payload (validator check n) = n
payload (unvalidated n) = n

-- `codes.InvalidArgument`.
abbrev pub invalid_argument_code : ℕ
invalid_argument_code = 3

unfoldable pub rejected : Option Cause → Option Error
unfolding wrap with_grpc_code
rejected none = none
rejected (some cause) =
    some (with_grpc_code (wrap cause (bytes "invalid_argument")) invalid_argument_code)

-- `none` for a message that is accepted.
unfoldable pub validate : Message → Option Error
unfolding rejected
validate (legacy_validator check n) = rejected (check n)
validate (validator check n) = rejected (check n)
validate (unvalidated n) = none

-- The answer of a call: the handler's, or the error of the validator, which leaves the handler uncalled.
pub data Answer {ℓ} (A : Type ℓ) : Type ℓ where
  refused : Error → Answer A
  handled : A → Answer A

abbrev pub unless_rejected : {A : Type 0} → Option Error → A → Answer A
unless_rejected none answer = handled answer
unless_rejected (some e) answer = refused e

unfoldable pub validator_unary_server_interceptor :
    {A : Type 0} → (Message → A) → Message → Answer A
unfolding validate
validator_unary_server_interceptor handler req = unless_rejected (validate req) (handler req)

unfoldable pub validator_unary_client_interceptor :
    {A : Type 0} → (Message → A) → Message → Answer A
unfolding validate
validator_unary_client_interceptor invoker req = unless_rejected (validate req) (invoker req)

-- `RecvMsg` of the stream that the handler is given, where the server's stream gives an error, or a message.
pub data Received : Type 0 where
  stream_error : Cause → Received
  received : Message → Received

pub data Delivered : Type 0 where
  failed : Cause → Delivered
  invalid : Error → Delivered
  delivered : Message → Delivered

abbrev pub delivered_unless : Message → Option Error → Delivered
delivered_unless m none = delivered m
delivered_unless m (some e) = invalid e

unfoldable pub recv_msg : Received → Delivered
unfolding validate
recv_msg (stream_error e) = failed e
recv_msg (received m) = delivered_unless m (validate m)

abbrev pub read_on : Delivered → List Message × Option Delivered → List Message × Option Delivered
read_on (delivered m) (ms, last) = (m ∷ ms, last)
read_on (failed e) rest = ([], some (failed e))
read_on (invalid e) rest = ([], some (invalid e))

-- What the handler of a stream has read, up to the first error.
unfoldable pub recv_all : List Received → List Message × Option Delivered
unfolding recv_msg
recv_all [] = ([], none)
recv_all (r ∷ rs) = read_on (recv_msg r) (recv_all rs)
