-- ===== src/Grpcex/Calls.antt =====
-- Calls of the gRPC server: what google.golang.org/grpc hands to an interceptor, and what comes of it.
-- `A` is the request: a message, or a stream.
use framego.Prelude.{ℕ, ◌≡◌, List, [], ◌++◌, Option}
use framego.Prelude.Text.{Str}
use framego.Errors.{Error}
use framego.Grpcex.Access.{AuthInfo}
use framego.Grpcex.Metadata.{Metadata}
use framego.Appmgr.Context.{Context, Logger, Panic}

pub record Peer : Type 0 where
  pub address : Str
  pub auth_info : Option AuthInfo

-- The context is cut into the peer, the incoming metadata and the values; `uuids` are the answers of
-- `uuid.New()` to come.
pub record Call (A : Type 0) : Type 0 where
  pub full_method : Str
  pub peer : Option Peer
  pub metadata : Option Metadata
  pub uuids : ℕ → Str
  pub ctx : Context
  pub req : A

pub data Event : Type 0 where
  grpc_request : Event
  grpc_request_with_error : Error → Event
  grpc_request_panic : Panic → Event
  grpc_stream_start : Event
  grpc_stream_end : Event
  grpc_stream_end_with_error : Error → Event
  grpc_handler_panic_recovery : Error → Event
  other_event : ℕ → Event

pub record Entry : Type 0 where
  pub by : Logger
  pub event : Event

pub data Reply : Type 0 where
  answered : ℕ → Reply
  failed : Error → Reply
  panicked : Panic → Reply

-- What is logged, in order, and how the call ends.
pub record Outcome : Type 0 where
  pub entries : List Entry
  pub reply : Reply

abbrev pub Handle : Type 0 → Type 0
Handle A = Call A → Outcome

abbrev pub Interceptor : Type 0 → Type 0
Interceptor A = Call A → Handle A → Outcome

abbrev pub returns : Reply → Outcome
returns r = record { entries = []; reply = r }

abbrev pub and_logs : Outcome → List Entry → Outcome
and_logs o entries = record { entries = o.entries ++ entries; reply = o.reply }

-- Calls of one caller: the method, the peer and the metadata are the same.
abbrev pub IsSameCaller : {A : Type 0} → Call A → Call A → Type 0
IsSameCaller c d = (d.full_method ≡ c.full_method) × (d.peer ≡ c.peer) × (d.metadata ≡ c.metadata)

-- The request is the same too: only the values of the context and the uuids may differ.
abbrev pub IsSameCall : {A : Type 0} → Call A → Call A → Type 0
IsSameCall c d = IsSameCaller c d × (d.req ≡ c.req)
