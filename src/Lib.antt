-- ===== src/Lib.antt =====
-- Verification of framego, a Go library for backend services.
--
-- The parts of the program, and the files that model them:
--
-- * uniqueid/generator.go, in UniqueId/Generator.antt and UniqueId/Host.antt. `Generator` is the
--   struct generatorImpl; `advance`, `compose` and `snowflake_id` are snowflakeID, `new_id` is NewID,
--   and `new_generator_from_host_name` is NewGeneratorFromHostName. Arithmetic is that of 64-bit
--   words. The loop of NewID runs over the list of readings that its clock will give; 2^32 + 1
--   readings are proved to be enough. XTEA is a parameter, of which it is assumed that it permutes
--   the blocks of eight bytes; the host's name is an argument. `IsInEra` says that the time, with
--   room for the calls to come, fits the 42 bits that the layout has for it (until the year 2159).
-- * uniqueid/uniqueid.go, in UniqueId/Text.antt: an id as text, over bytes.
-- * health/runner.go, in Health/Status.antt, Health/Composite.antt and Health/Runner.antt. The
--   goroutines of the composite check are modelled twice: one after the other (`check_all`), and
--   step by step under a schedule (Health/Composite/Race.antt), where a goroutine tests the shared
--   status in one step and stores its own in another. A cycle of the runner is split at the check,
--   since cycles may overlap. Errors are the identities that `==` compares.
-- * health/service.go, in Health/Server.antt. The lock makes each method one step; a channel is its
--   identity and what its one place holds.
-- * pool/pool.go, in Pool/IdleList.antt, Pool/Methods.antt, Pool/Conns.antt and
--   Pool/System.antt; Pool/Get.antt is a whole `get` by one goroutine. The idle list is modelled with its pointers, as addresses on a heap, and refines
--   the plain list that the methods use. `System` is a pool with its goroutines: each event is a stretch of `get`, `put` or `Close`
--   under the lock, and the goroutines between two stretches are counted by where they stand.
-- * datacache/datacache.go, in DataCache/Single.antt: `claim` is the part of Get that decides on an
--   update, `finish_load` the end of the update's goroutine, `wait` the loop at the end of Get, which
--   runs on fuel; as much as the wait lasts in milliseconds, and one more, is proved to be enough.
--   Times are of type `int64`, with their wrap-around.
-- * datacache/datacachemap.go, in DataCache/Keyed.antt: each definition is a stretch of Get, GetMany,
--   updateData, updateBatch or evictKeys under one lock, or several that follow each other. Items are
--   addresses on a heap, since a goroutine may hold an item that the map has lost. The looks and claims of
--   many calls are the steps of DataCache/Keyed/Steps.antt.
-- * copy/copy.go, in Copy.antt (the copies by way of bytes) and Copy/Gob.antt (GobDeepCopy, whose
--   goroutines share a pool of codecs, from when the pool is made): an event is a Get, an Encode, or a Decode with the Put, and any
--   sequence of events is a schedule. A codec is a parameter with a state, of which it is assumed that it
--   answers as a new one after whole copies. GetCopy of both caches is in DataCache/Copied.antt.
-- * crypto/aes.go and crypto/random.go, in Crypto.antt; the cipher and its mode are parameters.
-- * grpcex/access_controller.go, in Grpcex/Access.antt: `check_access` is checkAccess, with its texts
--   as bytes; the casbin enforcer is a parameter, of which nothing is assumed. The interceptors, with the
--   errors of the calls that they deny, are in Grpcex/Access/Intercepts.antt, and NewAccessController in
--   Grpcex/Access/Controller.antt.
-- * grpcex/zerolog.go and log/context.go, in Grpcex/Zerolog.antt and Appmgr/Context.antt, over calls
--   (Grpcex/Calls.antt): a call is what an interceptor is given, with its context cut into the peer, the
--   metadata and the values, and its outcome is what is logged and how it ends, which may be a panic.
-- * errors/error.go, in Errors.antt. An error with its causes is a tree, and `status_of` is GRPCStatus,
--   which answers and leaves its caches; what gRPC and structpb do with a status is a parameter, of
--   which it is assumed that adding details keeps the code.
-- * grpcex/validator.go, in Grpcex/Validator.antt: the validation of a message, and the interceptors that
--   refuse a message or hand it on. What a message's `Validate` answers is a parameter.
-- * grpcex/header.go and grpcex/auth.go, in Grpcex/Metadata.antt, over the metadata of a call.
-- * client/http/client.go, in Http.antt and its children: a Go value by its kind (Http/Value.antt), the
--   forms of getBodyReaderAndForm (Http/Form.antt), the headers of setHeader (Http/Header.antt),
--   GetClient (Http/Client.antt), and RequestJSON of both clients (Http/Request.antt). What `fmt`,
--   `json`, `url` and the transports do is a parameter.
-- * config/stringmap.go, in Config/StringMap.antt: the getters over a tree of values. `jsonpath`, the deep
--   copy through JSON, viper and the validator are parameters.
-- * appmgr/middleware.go and parseMiddlewareConfig and resolvePathInConfig of appmgr/config.go, in
--   Appmgr/Middleware.antt (the manager and the applier) and Appmgr/Middleware/Builtin.antt (the
--   middlewares, the default manager and Apply). A handler is known by the call that makes it; names are
--   ASCII texts; a nil map of options is an empty one. ginex/cors.go and ginex/compress.go, in Ginex.antt:
--   with what the two gin middlewares are made. ginex/zerolog.go is in Ginex/Zerolog.antt.
-- * What the interceptors of a service do with a call, in Appmgr/Chain.antt: each handler of
--   Appmgr/Middleware.antt that this repository makes is the model of its interceptor. The chain of
--   grpc_middleware, the recovery of grpc_recovery and the interceptors of other libraries are a parameter
--   with laws: from the left to the right, a panic to the handler, and nothing of a call is changed but the
--   values of its context.
-- * appmgr/context.go, with the service context and the recovery of appmgr/middleware.go, in
--   Appmgr/Context.antt.
-- * appmgr/client.go, in Appmgr/Clients.antt, over what Apply gives for no service.
-- * newTLSConfig and the credentials of appmgr/grpc.go, in Appmgr/Tls.antt, and newGrpcClient in
--   Appmgr/Dial.antt, which hands both to the clients.
-- * appmgr/service.go, in Appmgr/Services.antt (newService, with the servers of appmgr/grpc.go and
--   appmgr/gin.go by their interceptors, and the registrations) and Appmgr/Services/Runs.antt (Run, with
--   appmgr/serve.go up to where its goroutines start). The goroutines of appmgr/serve.go are in
--   Appmgr/Serve.antt: an event is a stretch of one of them, and any sequence of events is a schedule.
-- * NewApp, Init, AddJob and GetService of appmgr/app.go, in Appmgr/Init.antt: the steps of Init, each of
--   which may end the process; the managers that it makes are parameters, which Appmgr/Clients.antt,
--   Client/Databases.antt and UniqueId/Host.antt model, and newService is that of Appmgr/Services.antt.
-- * Run of appmgr/app.go, in Appmgr/Run.antt: an event is a stretch of `Run`, of a job's goroutine, or of the
--   goroutine that closes the channel of errors, and any sequence of events is a schedule. The jobs are
--   counted by where they stand.
-- * client/database/manager.go, client/cache/manager.go and client/pulsar/manager.go, in
--   Client/Databases.antt; what opens a client is a parameter.
-- * client/cache/utils.go, in Client/Codec.antt, and client/cache/redis.go, in Client/Redis.antt. strconv and
--   gob are parameters, and strconv is assumed to read back what it writes; the server is a
--   parameter with a state, of which what Redis documents of SET, SET NX, SET XX and GET is assumed.
--
-- The health service answers with the runner's last status and broadcasts what the runner reports.
-- The error of a job, of a panic and of a refused message is one of Errors.antt, and the interceptors that
-- access control gives carry the enforcer of Grpcex/Access.antt. The configuration's maps are read by the
-- middlewares. Prelude.antt and its children hold what the parts share: tests on numbers, lists, bits,
-- integers, texts and maps.
--
-- Not modelled: the set-up of loggers and metrics; the generated protobuf code; what only configures or
-- calls libraries (the options of gRPC, gin's server, GORM, mssqlx, Pulsar, viper, Apollo, the hashes of
-- crypto/sha.go, the JSON aliases); the modules of appmgr/observable.go.
pub mod Prelude
pub mod Appmgr
pub mod Client
pub mod Config
pub mod Copy
pub mod Crypto
pub mod DataCache
pub mod Errors
pub mod Ginex
pub mod Grpcex
pub mod Health
pub mod Http
pub mod Pool
pub mod UniqueId
