-- ===== src/Lib.antt =====
-- The accounts service (Go): registration with a verified email, signing in, sessions that are bound
-- to a machine, and the deletion of accounts, over gRPC. The program keeps accounts that wait for
-- verification in one Redis database, sessions in another and verified accounts in PostgreSQL, and
-- it sends messages through Kafka.
--
-- The parts, from the outside in, and the files that model them:
--
-- - cmd/server/app.go: `Startup` is `main` with the constructors of pkg/jaeger, pkg/metrics and the
--   repositories, and `Config` the settings of the service (internal/config/config.go).
-- - internal/handler/handler.go and validation.go: `Handler.Methods` has the eleven gRPC methods,
--   `Handler.Context` the headers and the conversion of errors, `Handler.Validation` the checks of
--   the input. `CreateAccount` is modelled on a request that is not nil.
-- - internal/service/service.go: `Service.Sessions` and `Service.Accounts` have the operations,
--   `Service.Process` the goroutines that they start.
-- - internal/repository/redisrepository: `Redis.Handling` is redis.go with the deferred calls,
--   `Redis.Registration` and `Redis.Sessions` are the two repositories.
-- - internal/repository/postgresrepository/accountsRepository.go: `Postgres`.
-- - internal/events: `Events`. pkg/jwt/jwt.go: `Token`. internal/models: `Models`.
-- - `System` is the running program: `System.Server` has the requests of the gRPC service
--   (pkg/accounts_service/v1/protos/accounts_service_v1_grpc.pb.go), `serve`, which dispatches
--   them, and the steps: a request, the run of a goroutine, what others do, a restart.
--   `System.Interference` is what others may do between two commands. `System.Keeps` has rules
--   for what an action keeps, `System.Invariant` the laws of an invariant of the service, and
--   `System.Operations`, `System.Deletion`, `System.Handlers` and `System.Requests` carry such an
--   invariant from the operations up to the requests. `System.Sound` and `System.Waiting` are two
--   invariants.
-- - pkg/accounts_service/v1/protos/accounts_service_v1.pb.gw.go: `Gateway` has the handler of a route
--   and, as the record `Rest`, the runtime of grpc-gateway; `Gateway.Requests` the functions
--   `local_request_…`, `Gateway.Patterns` and `Gateway.Routes` what is registered. `Gateway.Opcodes`
--   and the record `Mux` state what is assumed of the choice of a route. `Gateway.Remote` has the
--   functions `request_…`, which call a gRPC client, and the routes over them.
-- - pkg/accounts_service/v1/protos/accounts_service_v1_grpc.pb.go: `Rpc` has how the handler of a
--   method calls the server, `Rpc.Handlers` the handlers and their table, `Rpc.Client` the client,
--   `Rpc.Unimplemented` the stubs that a server embeds.
-- - pkg/logging/logging.go: `Logger`.
-- - `Logs` has the `logError` of the repositories and of the events.
-- - `Prelude` has the shared names, `Effect` the monad in which Go code is written down, and `Tests`
--   runs of the model.
--
-- The modules below these, such as `Redis.Sessions.Terminate`, hold what is proved about them. A Go
-- name `TerminateSessions` is `terminate_sessions` here. A loop body, a closure or the rest of a
-- function after an early return may have a name of its own.
--
-- How it is modelled:
--
-- - `External` has what the program calls and does not implement: the clients of Redis, of the
--   SQL database and of Kafka, JSON, JWT, bcrypt, UUIDs, the metadata of gRPC, addresses, the
--   clock, the logger, the counters of cache hits and misses. All of them act on an abstract
--   world. What is assumed of them is stated where it is used: `IsReachable` for a Redis
--   server that answers, `IsStore` for that server and a context that stays live, `IsJwt` for
--   golang-jwt, `IsBcrypt` for bcrypt, `IsTable` and `IsRemoval` for the rows of the
--   accounts, `IsConnection` for a gRPC connection that delivers calls and answers, and
--   `IsBackend` for what holds also when calls fail: a pipeline takes effect up to some
--   command, what else changes the sessions database is interference, a UUID is not spelled
--   like `account_…`, and a session keeps its id through JSON.
-- - A call ends in a value, an error or a panic (`Outcome`), and the state before an error stays
--   changed. `GoError` has one constructor for each kind of error that the code tells apart.
-- - The service's state is a `Process`: the world, and the goroutines that were started and have not
--   run. A goroutine runs after or between operations, as a whole, under the background context.
--   An operation is one step, but with `IsBackend` others may run between its calls, also between two
--   commands of a pipeline, which go-redis does not send as a transaction: `System.Interference` says
--   what they may do to the sessions database. The theorems that assume `IsStore` are about an
--   operation during which nothing else runs.
-- - The loop of the goroutine of `DeleteAccount` is recursion on the attempts that are left, at most
--   `NumRetriesForTerminateSessions`. All other recursion is on lists.
-- - Instants and durations are natural numbers of nanoseconds; a token carries whole seconds, and the
--   table of the accounts the day of a registration. The length of a text is its number of bytes.
--   Subtraction of lengths is guarded where it could be negative.
-- - The keys of a Go map come in the order of the model's list, one of the orders that Go may choose.
--   `IsReachable` does not let keys expire during a call; `IsBackend` does.
-- - `Platform` has what `main` calls. Its goroutines, which run the servers, are one step, `serve`,
--   that ends when a signal arrives or a server fails.
--
-- Not modelled: the other lines of the log, and their format; the HTTP server of the metrics;
-- reading the configuration file; how a message is encoded;
-- `RegisterAccountsServiceV1HandlerFromEndpoint`, which dials a connection; the metrics that a
-- deferred call would count after a panic; `PingContext`, which only the health check calls.
pub mod Prelude
pub mod Models
pub mod Effect
pub mod External
pub mod Logs
pub mod Redis
pub mod Postgres
pub mod Events
pub mod Token
pub mod Config
pub mod Service
pub mod Handler
pub mod Logger
pub mod Startup
pub mod System
pub mod Gateway
pub mod Rpc
mod Tests
