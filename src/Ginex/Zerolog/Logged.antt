-- ===== src/Ginex/Zerolog/Logged.antt =====
-- What is logged of an HTTP request behind the two middlewares.
use framego.Prelude.{◌≡◌, refl, ap, [], ◌∷◌, ◌++◌, some}
use framego.Prelude.Text.{find-put}
use framego.Appmgr.Context.{
  Context, context_logger_key, logger, as_logger, from_context, set_gin_context_logger,
}
use framego.Ginex.Zerolog.{
  Request, Served, fields_of, event_of, context_logger_middleware, log_request_middleware,
}

from_context-set :
    (q : Request) (ctx : Context) → from_context (context_logger_middleware q ctx) ≡ fields_of q
unfolding from_context context_logger_middleware set_gin_context_logger
from_context-set q ctx =
    ap as_logger (find-put context_logger_key context_logger_key (logger (some (fields_of q))) ctx)

-- Behind the context logger and then the request log, a request ends as the rest of its handlers end, a panic included, and its end is logged once, after all that they log, with its address, method and path, whatever logger the context had.
pub context_logger-log_request_middleware :
    (q : Request) (ctx : Context) (next : Context → Served)
    → log_request_middleware q (context_logger_middleware q ctx) next ≡ record {
      entries =
          (next (context_logger_middleware q ctx)).entries
          ++ record {
            by = fields_of q;
            event = event_of q (next (context_logger_middleware q ctx)).how;
          }
            ∷ [];
      how = (next (context_logger_middleware q ctx)).how;
    }
unfolding log_request_middleware
context_logger-log_request_middleware q ctx next = rw (from_context-set q ctx) refl
