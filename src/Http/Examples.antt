-- ===== src/Http/Examples.antt =====
-- Instances for the http client.
use framego.Prelude.{ℕ, ◌≡◌, refl, true, false, [], ◌∷◌, none, some}
use framego.Prelude.Text.{Str, bytes}
use framego.Http.Value.{
  Value, Fields, Printer, scalar, text, list, no_values, value, no_fields, field,
}
use framego.Http.Form.{values_at, set_form_value, form_of_entries}
use framego.Http.Form.Agree.{entries_of}
use framego.Http.Request.{Env}

-- Texts print as they are, and `json` writes two brackets.
abbrev shown : Value → Str
shown (text t) = t
shown (scalar t) = t
shown _ = []

abbrev printer : Printer
printer = record {
  sprint = shown;
  sprint_byte = λ b. b ∷ [];
  invalid = bytes "<invalid>";
  marshal_to_string = λ v. some (bytes "{}");
  marshal_invalid = some (bytes "{}");
}

abbrev params : Fields
params = field (bytes "Name") (some (bytes "name")) (text (bytes "abc")) (
    field (bytes "Values") none
      (list (value (scalar (bytes "1")) (value (scalar (bytes "2")) no_values)))
      (field (bytes "hidden") none (text (bytes "x")) no_fields))

-- A server that answers each request, wherever its query is, with an empty body and status 200.
abbrev env : Env ℕ
env = record {
  printer = printer;
  encode = λ f. bytes "q";
  new_request = λ m url. elim url [ [] ↦ false | _ ↦ true ];
  url_host = λ url. some (bytes "h");
  perform = λ q. some (record { status_code = 200; body = [] });
  fast_perform = λ q. some (record { status_code = 200; body = [] });
  read_all = λ r. some r.body;
  unmarshal = λ body. some 7;
  accepts_nil = λ body. false;
}

two_values :
    values_at (bytes "Values") (form_of_entries printer [] (entries_of params))
    ≡ bytes "1" ∷ bytes "2" ∷ []
unfolding form_of_entries set_form_value
two_values = refl

abbrev posts : Str
posts = bytes "POST"
