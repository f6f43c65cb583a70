-- ===== src/Errors/Examples.antt =====
-- Instances for errors.
use framego.Prelude.{◌≡◌, refl, sym, ap, some-eq, false, [], ◌∷◌, none, some}
use framego.Errors.{
  Proto, Status, Cause, foreign, Error, Env, to_cause, status_of, error_text, invalid_code,
  framework,
}
use framego.Errors.Codes.{code_of, status_of_code}

abbrev env : Env
env = record {
  grpc_debug_mode = false;
  new_struct = λ d. some d;
  with_details = λ s p. some (record s { details = p });
}

abbrev not_found : Status
not_found = record { code = 5; message = b'n' ∷ []; details = Proto.no_proto }

-- An error with code 5 that is wrapped twice.
abbrev inner : Cause
inner = framework (b'b' ∷ []) invalid_code (foreign (b'n' ∷ []) not_found) none none

abbrev outer : Error
outer = record {
  message = b'a' ∷ [];
  code = invalid_code;
  cause = inner;
  detail = none;
  grpc_status = none;
}

text : error_text (to_cause outer) ≡ b'a' ∷ b':' ∷ b' ' ∷ b'b' ∷ b':' ∷ b' ' ∷ b'n' ∷ []
unfolding error_text
text = refl

status_of_code_example : code_of (status_of env (to_cause outer)) ≡ some 5
status_of_code_example =
    status_of_code env (to_cause outer)
      (λ s s' p e.
        (let same = some-eq e in
          (sym (ap (λ (t : Status). t.code) same), sym (ap (λ (t : Status). t.message) same))))
      tt
