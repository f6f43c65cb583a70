-- ===== src/Grpcex/MessageExamples.antt =====
-- Instances for the validator.
use framego.Prelude.{sym, ap, some-eq, false, some}
use framego.Prelude.Text.{bytes}
use framego.Errors.{Env, Status, plain}
use framego.Errors.Codes.{KeepsCodes}
use framego.Grpcex.Validator.{Message, validator}

abbrev env : Env
env = record {
  grpc_debug_mode = false;
  new_struct = λ d. some d;
  with_details = λ s p. some (record s { details = p });
}

env-KeepsCodes : KeepsCodes env
env-KeepsCodes s s' p e =
    let same = some-eq e in
    (sym (ap (λ (t : Status). t.code) same), sym (ap (λ (t : Status). t.message) same))

-- A message with a violation.
abbrev bad_message : Message
bad_message = validator (λ n. some (plain (bytes "empty"))) 4
