-- ===== src/Startup.antt =====
-- cmd/server/app.go: `main`, with the constructors that it calls. What it opens is closed by
-- deferred calls, in the reverse order.
pub mod Laws
pub mod Closes
use accounts_service.Prelude.{
  ℕ, String, ◌<>◌, Bool, not, List, [], ◌∷◌, Option, none, some, if◌then◌else◌,
}
use accounts_service.Models.Errors.{GoError, other_error}
use accounts_service.Effect.{
  Result, ok, err, M, Outcome, call, modify, throw_if, map_error, ◌>>=◌, ◌>>◌,
}

-- redis `Options`, as the configuration fills it.
pub record RedisOptions : Type 0 where
  pub network : String
  pub addr : String
  pub password : String
  pub db : ℕ

-- repository.go `DBConfig`
pub record DbConfig : Type 0 where
  pub host : String
  pub port : String
  pub username : String
  pub password : String
  pub db_name : String
  pub ssl_mode : String

-- jaeger.go `Config`
pub record JaegerConfig : Type 0 where
  pub service_name : String
  pub address : String
  pub log_spans : Bool

-- The fields of jaeger's `Configuration` that `InitJaeger` sets.
pub record TracerConfiguration : Type 0 where
  pub service_name : String
  pub sampler_type : String
  pub sampler_param : ℕ
  pub log_spans : Bool
  pub local_agent_host_port : String

-- The fields of `Config` that `main` reads to open what the service uses.
pub record StartupConfig : Type 0 where
  pub log_level : String
  pub prometheus_name : String
  pub jaeger_config : JaegerConfig
  pub registration_repository : RedisOptions
  pub sessions_cache_options : RedisOptions
  pub db_config : DbConfig
  pub account_events : List String
  pub tokens_delivery : List String

-- What the deferred calls of `main` close, and the writer of the tokens.
pub data Resource : Type 0 where
  tracer : Resource
  registration_client : Resource
  sessions_client : Resource
  database : Resource
  accounts_events_writer : Resource
  tokens_delivery_writer : Resource

-- The collectors of `CreateMetrics`: one with a name, or that of the build information.
pub data Collector : Type 0 where
  named : String → Collector
  build_info : Collector

-- How `main` ends: by `logger.Fatal`, or by returning from what the outcome says.
pub data Ending : Type 0 where
  fatal : GoError → Ending
  returned : Outcome (Unit {0}) → Ending

-- The libraries that `main` and the constructors call.
pub record Platform : Type 1 where
  pub State : Type 0
  pub error_text : GoError → String
  pub parse_level : String → Result (Unit {0})
  pub new_tracer : TracerConfiguration → State → Result (Unit {0}) × State
  pub register : Collector → State → Result (Unit {0}) × State
  -- `redis.NewClient(opt) != nil`
  pub new_client : RedisOptions → Bool
  pub ping : RedisOptions → State → Result (Unit {0}) × State
  pub sqlx_connect : String → String → State → Result (Unit {0}) × State
  pub new_writer : Resource → List String → State → State
  -- An error of `Close` is only logged.
  pub close : Resource → State → State
  -- Serving, until a signal arrives or a server fails.
  pub serve : State → State
  pub shutdown_server : State → State

-- What `CreateMetrics` registers, in its order.
abbrev pub collectors : String → List Collector
collectors name =
    named (name <> "_hits_total")
    ∷ named (name <> "_hits")
    ∷ named (name <> "_cache_hits")
    ∷ named (name <> "_cache_miss")
    ∷ named (name <> "_rest_panic_recover_total")
    ∷ named (name <> "_grpc_panic_recover_total")
    ∷ named (name <> "_times")
    ∷ build_info
    ∷ []

-- The text that `NewPostgreDB` passes to the driver.
unfoldable pub data_source_name : DbConfig → String
data_source_name cfg =
    "host=" <> cfg.host <> " port=" <> cfg.port <> " user=" <> cfg.username <> " password="
    <> cfg.password <> " dbname=" <> cfg.db_name <> " sslmode=" <> cfg.ssl_mode

module _ ⦃x : Platform⦄ where
  -- jaeger.go `InitJaeger`
  unfoldable pub init_jaeger : JaegerConfig → M x.State (Unit {0})
  init_jaeger cfg = call (
      x.new_tracer (record {
        service_name = cfg.service_name;
        sampler_type = "const";
        sampler_param = 1;
        log_spans = cfg.log_spans;
        local_agent_host_port = cfg.address;
      }))

  -- metrics.go `CreateMetrics`, by the collectors that are left to register.
  unfoldable pub register_all : List Collector → M x.State (Unit {0})
  register_all [] s = (Outcome.done tt, s)
  register_all (c ∷ cs) s =
      let (r, s') = x.register c s in
      elim r [ ok _ ↦ register_all cs s' | err e ↦ (Outcome.fail e, s') ]

  unfoldable pub create_metrics : String → M x.State (Unit {0})
  unfolding register_all
  create_metrics name = register_all (collectors name)

  -- redis.go `NewRedisClient`
  unfoldable pub new_redis_client : RedisOptions → M x.State (Unit {0})
  new_redis_client opt = do
    throw_if (not (x.new_client opt)) (other_error "can't create new redis client")
    map_error (λ e. other_error ("connection is not established: " <> x.error_text e))
        (call (x.ping opt))

  -- accountsRepository.go `NewPostgreDB`
  unfoldable pub new_postgre_db : DbConfig → M x.State (Unit {0})
  unfolding data_source_name
  new_postgre_db cfg = call (x.sqlx_connect "pgx" (data_source_name cfg))

  -- `defer resource.Shutdown()`, and the rest of the function.
  unfoldable pub closing : Resource → M x.State (Unit {0}) → M x.State (Unit {0})
  closing resource body s = let (r, s') = body s in (r, x.close resource s')

  -- The part of `main` from the connections to the databases on. The second deferred call of
  -- the events writer stands where one of the tokens writer would be expected.
  unfoldable pub serve_accounts : StartupConfig → M x.State (Unit {0})
  unfolding closing
  serve_accounts cfg =
      modify (x.new_writer accounts_events_writer cfg.account_events)
      >> closing accounts_events_writer (
          modify (x.new_writer tokens_delivery_writer cfg.tokens_delivery)
          >> closing accounts_events_writer (modify x.serve >> modify x.shutdown_server))

  unfoldable pub start : StartupConfig → M x.State (Unit {0})
  unfolding init_jaeger create_metrics new_redis_client new_postgre_db closing serve_accounts
  start cfg =
      init_jaeger cfg.jaeger_config
      >> closing tracer (
          create_metrics cfg.prometheus_name
          >> (new_redis_client cfg.registration_repository
              >> closing registration_client (
                  new_redis_client cfg.sessions_cache_options
                  >> closing sessions_client
                      (new_postgre_db cfg.db_config >> closing database (serve_accounts cfg)))))

  -- `main`
  unfoldable pub main : StartupConfig → x.State → Ending × x.State
  unfolding start
  main cfg s = elim (x.parse_level cfg.log_level) [
    | err e ↦ (fatal e, s)
    | ok _ ↦ let (r, s') = start cfg s in (returned r, s')
  ]
