-- ===== src/Http/Request/Sends.antt =====
-- What each client sends for a struct, and what it answers to each course of the exchange.
use framego.Prelude.{[], ◌∷◌, Option, none, some, ◌==◌, if◌then◌else◌}
use framego.Prelude.Text.{Str, bytes}
use framego.Http.Header.{Headers}
use framego.Http.Request.{
  Request, Response, Env, Answer, answered, http_error_status_code, exchange_error, read_error,
  unmarshal_error,
}

-- A request without a host of its own.
abbrev pub request_of : Str → Str → Option Str → Headers → Option Str → Request
request_of method url query headers body = record {
  method = method;
  url = url;
  query = query;
  host = none;
  headers = headers;
  body = body;
}

abbrev pub request_to : Str → Str → Str → Headers → Option Str → Request
request_to host method url headers body = record {
  method = method;
  url = url;
  query = none;
  host = some host;
  headers = headers;
  body = body;
}

abbrev pub of_type : Str → Headers
of_type mime = (bytes "Content-Type", mime) ∷ []

module _ {J : Type 0} where
  abbrev pub value_or : Answer J → Option J → Answer J
  value_or other none = other
  value_or other (some v) = answered (some v)

  abbrev pub body_to : Env J → Option Str → Answer J
  body_to env none = read_error
  body_to env (some body) = value_or unmarshal_error (env.unmarshal body)

  -- The course of an exchange, by the body that is read of an answer with status 200.
  abbrev pub answer_to : (Response → Answer J) → Option Response → Answer J
  answer_to accepted none = exchange_error
  answer_to accepted (some r) =
      if r.status_code == 200 then accepted r else http_error_status_code r.status_code
