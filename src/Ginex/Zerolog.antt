-- ===== src/Ginex/Zerolog.antt =====
-- ginex/zerolog.go: the logger of an HTTP request, and what is logged of it. Times are left out; what gin
-- gives of a request and of its answer is data.
pub mod Logged
use framego.Prelude.{ℕ, List, [], ◌∷◌, ◌++◌, some}
use framego.Prelude.Int.{ℤ}
use framego.Prelude.Text.{Str, bytes}
use framego.Appmgr.Context.{Context, Logger, Panic, from_context, set_gin_context_logger}

pub record Request : Type 0 where
  pub client_ip : Str
  pub method : Str
  pub path : Str
  pub raw_query : Str
  pub content_length : ℤ

pub data Event : Type 0 where
  http_request : Str → ℤ → ℕ → ℤ → Event
  http_request_panic : Str → ℤ → Panic → Event
  other_event : ℕ → Event

pub record Entry : Type 0 where
  pub by : Logger
  pub event : Event

-- How the rest of the handlers end: with a status and a size of the answer, or with a panic.
pub data End : Type 0 where
  written : ℕ → ℤ → End
  panicked : Panic → End

pub record Served : Type 0 where
  pub entries : List Entry
  pub how : End

abbrev pub fields_of : Request → Logger
fields_of q = (bytes "ip", q.client_ip) ∷ (bytes "method", q.method) ∷ (bytes "path", q.path) ∷ []

-- The keys of gin's context, which the handlers after it see.
unfoldable pub context_logger_middleware : Request → Context → Context
unfolding set_gin_context_logger
context_logger_middleware q ctx = set_gin_context_logger ctx (some (fields_of q))

abbrev pub event_of : Request → End → Event
event_of q (written status size) = http_request q.raw_query q.content_length status size
event_of q (panicked p) = http_request_panic q.raw_query q.content_length p

-- `next` is what `c.Next()` runs; a panic is logged and raised again.
unfoldable pub log_request_middleware : Request → Context → (Context → Served) → Served
unfolding from_context
log_request_middleware q ctx next =
    let served = next ctx in
    record {
      entries =
          served.entries ++ record { by = from_context ctx; event = event_of q served.how } ∷ [];
      how = served.how;
    }
