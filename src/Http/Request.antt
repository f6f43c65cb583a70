-- ===== src/Http/Request.antt =====
-- client/http/client.go: `RequestJSON` of the two clients. What the libraries do is a parameter: to
-- make a request, to parse a URL, to send a request and to read and decode its answer.
pub mod Sends
use framego.Prelude.{
  ℕ, Bool, true, false, ◌||◌, List, [], ◌∷◌, ◌++◌, Option, none, some, ◌==◌, if◌then◌else◌,
}
use framego.Prelude.Text.{Str, bytes, is_same}
use framego.Http.Value.{Value, Entries, Printer, Error, Outcome, ok, failed, panics}
use framego.Http.Form.{
  UrlValues, RequestDataFormat, query_string, form, json, raw, no_data, get_body_reader_and_form,
}
use framego.Http.Header.{Headers, set_all}

-- `host` is set by one client only.
pub record Request : Type 0 where
  pub method : Str
  pub url : Str
  pub query : Option Str
  pub host : Option Str
  pub headers : Headers
  pub body : Option Str

pub record Response : Type 0 where
  pub status_code : ℕ
  pub body : Str

-- `new_request` is whether `http.NewRequest` takes the method and the URL, `url_host` the host of a
-- URL that parses, `perform` and `fast_perform` the exchange
-- of `Do` of net/http and of `DoTimeout` of fasthttp (`none` for an error), `read_all` the body as it is read,
-- and `accepts_nil` whether the decoder takes a nil target.
pub record Env (J : Type 0) : Type 0 where
  pub printer : Printer
  pub encode : UrlValues → Str
  pub new_request : Str → Str → Bool
  pub url_host : Str → Option Str
  pub perform : Request → Option Response
  pub fast_perform : Request → Option Response
  pub read_all : Response → Option Str
  pub unmarshal : Str → Option J
  pub accepts_nil : Str → Bool

-- `answered none` is success with no value decoded.
pub data Answer (J : Type 0) : Type 0 where
  answered : Option J → Answer J
  refused : Error → Answer J
  http_error_status_code : ℕ → Answer J
  exchange_error read_error unmarshal_error panicked : Answer J

abbrev pub form_content_type : Headers
form_content_type = (bytes "Content-Type", bytes "application/x-www-form-urlencoded") ∷ []

abbrev pub json_content_type : Headers
json_content_type = (bytes "Content-Type", bytes "application/json") ∷ []

abbrev pub content_type : RequestDataFormat → Headers
content_type form = form_content_type
content_type json = json_content_type
content_type _ = []

abbrev pub encoded_query : (UrlValues → Str) → RequestDataFormat → Option UrlValues → Option Str
encoded_query encode query_string (some f) = some (encode f)
encoded_query encode _ _ = none

abbrev pub is_bodiless : Str → Bool
is_bodiless method = is_same method (bytes "GET") || is_same method (bytes "HEAD")

-- `fmt.Sprintf("%s?%s", url, query)`.
abbrev pub url_with : Str → Option Str → Str
url_with url none = url
url_with url (some query) = url ++ b'?' ∷ query

module _ {J : Type 0} where
  decoded : Option J → Answer J
  decoded none = unmarshal_error
  decoded (some v) = answered (some v)

  -- From the status code on. `wants` is whether there is a target to decode to.
  read_answer : Env J → Option Str → Answer J
  unfolding decoded
  read_answer env none = read_error
  read_answer env (some body) = decoded (env.unmarshal body)

  take_response : Env J → Bool → Response → Answer J
  unfolding read_answer
  take_response env wants r =
      if r.status_code == 200
      then if wants then read_answer env (env.read_all r) else answered none
      else http_error_status_code r.status_code

  received : Env J → Bool → Option Response → Answer J
  unfolding take_response
  received env wants none = exchange_error
  received env wants (some r) = take_response env wants r

  abbrev send : Env J → Bool → Request → Answer J
  send env wants q = received env wants (env.perform q)

  with_headers : (Headers → Answer J) → Outcome Headers → Answer J
  with_headers k (ok h) = k h
  with_headers k (failed e) = refused e
  with_headers k panics = panicked

  with_body :
      (Option Str × Option UrlValues → Answer J)
      → Outcome (Option Str × Option UrlValues)
      → Answer J
  with_body k (ok b) = k b
  with_body k (failed e) = refused e
  with_body k panics = panicked

  -- A method or URL that `NewRequest` refuses leaves a nil request, which is followed by each way on.
  default_exchange :
      Env J
      → Bool
      → Str
      → Str
      → RequestDataFormat
      → List (Option Entries)
      → Option Str × Option UrlValues
      → Answer J
  unfolding received with_headers
  default_exchange env wants method url kind headers (body, f) =
      if env.new_request method url
      then with_headers
          (λ h. send env wants (record {
            method = method;
            url = url;
            query = encoded_query env.encode kind f;
            host = none;
            headers = h;
            body = body;
          }))
          (set_all env.printer (content_type kind) headers)
      else panicked

  unfoldable pub default_request_json :
      Env J → Bool → Str → Str → RequestDataFormat → Value → List (Option Entries) → Answer J
  unfolding default_exchange with_body
  default_request_json env wants method url kind data_ headers =
      with_body (default_exchange env wants method url kind headers)
        (get_body_reader_and_form env.printer env.encode kind data_)

  -- The other client: a body is not sent with GET and HEAD, and `Unmarshal` gets a nil target too.
  fast_take_response : Env J → Bool → Response → Answer J
  unfolding decoded
  fast_take_response env wants r =
      if r.status_code == 200
      then if wants
        then decoded (env.unmarshal r.body)
        else if env.accepts_nil r.body
        then answered none
        else unmarshal_error
      else http_error_status_code r.status_code

  fast_received : Env J → Bool → Option Response → Answer J
  unfolding fast_take_response
  fast_received env wants none = exchange_error
  fast_received env wants (some r) = fast_take_response env wants r

  abbrev fast_send : Env J → Bool → Request → Answer J
  fast_send env wants q = fast_received env wants (env.fast_perform q)

  -- `none` is a URL that does not parse, which leaves a nil pointer that is followed.
  fast_exchange_at :
      Env J
      → Bool
      → Str
      → Str
      → RequestDataFormat
      → List (Option Entries)
      → Option Str × Option UrlValues
      → Option Str
      → Answer J
  unfolding fast_received with_headers
  fast_exchange_at env wants method url kind headers (body, f) none = panicked
  fast_exchange_at env wants method url kind headers (body, f) (some host) =
      with_headers
        (λ h. fast_send env wants (record {
          method = method;
          url = url_with url (encoded_query env.encode kind f);
          query = none;
          host = some host;
          headers = h;
          body = if is_bodiless method then none else body;
        }))
        (set_all env.printer (content_type kind) headers)

  abbrev fast_exchange :
      Env J
      → Bool
      → Str
      → Str
      → RequestDataFormat
      → List (Option Entries)
      → Option Str × Option UrlValues
      → Answer J
  fast_exchange env wants method url kind headers b =
      fast_exchange_at env wants method url kind headers b (env.url_host url)

  unfoldable pub fast_request_json :
      Env J → Bool → Str → Str → RequestDataFormat → Value → List (Option Entries) → Answer J
  unfolding fast_exchange_at with_body
  fast_request_json env wants method url kind data_ headers =
      with_body (fast_exchange env wants method url kind headers)
        (get_body_reader_and_form env.printer env.encode kind data_)
