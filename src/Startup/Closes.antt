-- ===== src/Startup/Closes.antt =====
-- cmd/server/app.go: the connections and writers that are closed when `main` has served.
use accounts_service.Prelude.{inl, inr, ap, ◌∙◌, ◌≡◌, List, [], ◌∷◌, refl, String, arith}
use accounts_service.Effect.{done, Result-cases}
use accounts_service.Startup.{
  Platform, StartupConfig, Resource, tracer, registration_client, sessions_client, database,
  accounts_events_writer, tokens_delivery_writer, TracerConfiguration, Collector, returned,
  init_jaeger, collectors, create_metrics, new_redis_client, new_postgre_db, data_source_name,
  closing, serve_accounts, start, main, RedisOptions, DbConfig, JaegerConfig, register_all,
}

module _ ⦃x : Platform⦄ where
  -- `closed` lists the calls of `Close`, the latest first; nothing else closes anything.
  pub record IsClosingLog (closed : x.State → List Resource) : Type 0 where
    pub closed-close : (r : Resource) (s : x.State) → closed (x.close r s) ≡ r ∷ closed s
    pub closed-new_tracer :
        (c : TracerConfiguration) (s : x.State) → closed (x.new_tracer c s).1 ≡ closed s
    pub closed-register : (c : Collector) (s : x.State) → closed (x.register c s).1 ≡ closed s
    pub closed-ping : (o : RedisOptions) (s : x.State) → closed (x.ping o s).1 ≡ closed s
    pub closed-sqlx_connect :
        (driver dsn : String) (s : x.State) → closed (x.sqlx_connect driver dsn s).1 ≡ closed s
    pub closed-new_writer :
        (r : Resource) (brokers : List String) (s : x.State)
        → closed (x.new_writer r brokers s) ≡ closed s
    pub closed-serve : (s : x.State) → closed (x.serve s) ≡ closed s
    pub closed-shutdown_server : (s : x.State) → closed (x.shutdown_server s) ≡ closed s

module _ ⦃x : Platform⦄ (closed : x.State → List Resource) (log : IsClosingLog closed) where
  closed-register_all :
      (cs : List Collector) (s : x.State) → closed (register_all cs s).1 ≡ closed s
  unfolding register_all
  closed-register_all [] s = refl
  closed-register_all (c ∷ cs) s =
      let kept = log.closed-register c s in
      let rest = closed-register_all cs (x.register c s).1 in
      elim (Result-cases (x.register c s).0) [ inl _ ↦ ground arith | inr _ ↦ ground arith ]

  closed-init_jaeger : (cfg : JaegerConfig) (s : x.State) → closed (init_jaeger cfg s).1 ≡ closed s
  unfolding init_jaeger
  closed-init_jaeger cfg s =
      let kept =
        log.closed-new_tracer
          (record {
            service_name = cfg.service_name;
            sampler_type = "const";
            sampler_param = 1;
            log_spans = cfg.log_spans;
            local_agent_host_port = cfg.address;
          })
          s in
      ground arith

  closed-new_redis_client :
      (opt : RedisOptions) (s : x.State) → closed (new_redis_client opt s).1 ≡ closed s
  unfolding new_redis_client
  closed-new_redis_client opt s = let kept = log.closed-ping opt s in ground arith

  closed-new_postgre_db :
      (cfg : DbConfig) (s : x.State) → closed (new_postgre_db cfg s).1 ≡ closed s
  unfolding new_postgre_db data_source_name
  closed-new_postgre_db cfg s =
      let kept = log.closed-sqlx_connect "pgx" (data_source_name cfg) s in ground arith

  closed-create_metrics :
      (name : String) (s : x.State) → closed (create_metrics name s).1 ≡ closed s
  unfolding create_metrics
  closed-create_metrics name s = closed-register_all (collectors name) s

  closed-serve_accounts :
      (cfg : StartupConfig) (s : x.State)
      → closed (serve_accounts cfg s).1 ≡ accounts_events_writer ∷ accounts_events_writer ∷ closed s
  unfolding serve_accounts closing
  closed-serve_accounts cfg s =
      let s1 = x.new_writer accounts_events_writer cfg.account_events s in
      let s2 = x.new_writer tokens_delivery_writer cfg.tokens_delivery s1 in
      let s3 = x.shutdown_server (x.serve s2) in
      log.closed-close accounts_events_writer (x.close accounts_events_writer s3)
      ∙ ap (λ rs. accounts_events_writer ∷ rs)
          (log.closed-close accounts_events_writer s3
            ∙ ap (λ rs. accounts_events_writer ∷ rs)
                (log.closed-shutdown_server (x.serve s2)
                  ∙ log.closed-serve s2
                  ∙ log.closed-new_writer tokens_delivery_writer cfg.tokens_delivery s1
                  ∙ log.closed-new_writer accounts_events_writer cfg.account_events s))

  -- When `main` returns after it has served, it has closed the tracer, the clients of Redis and
  -- the database once each and the writer of the account events twice, and never the writer of
  -- the tokens.
  pub main_closes :
      (cfg : StartupConfig) (s : x.State)
      → (main cfg s).0 ≡ returned (done tt)
      → closed (main cfg s).1
        ≡ tracer
          ∷ registration_client
          ∷ sessions_client
          ∷ database
          ∷ accounts_events_writer
          ∷ accounts_events_writer
          ∷ closed s
  unfolding main start closing
  main_closes cfg s served =
      let s1 = (init_jaeger cfg.jaeger_config s).1 in
      let s2 = (create_metrics cfg.prometheus_name s1).1 in
      let s3 = (new_redis_client cfg.registration_repository s2).1 in
      let s4 = (new_redis_client cfg.sessions_cache_options s3).1 in
      let s5 = (new_postgre_db cfg.db_config s4).1 in
      let s6 = (serve_accounts cfg s5).1 in
      let s7 = x.close database s6 in
      let s8 = x.close sessions_client s7 in
      let s9 = x.close registration_client s8 in
      let opened =
        closed-serve_accounts cfg s5
        ∙ ap (λ rs. accounts_events_writer ∷ accounts_events_writer ∷ rs)
            (closed-new_postgre_db cfg.db_config s4
              ∙ closed-new_redis_client cfg.sessions_cache_options s3
              ∙ closed-new_redis_client cfg.registration_repository s2
              ∙ closed-create_metrics cfg.prometheus_name s1
              ∙ closed-init_jaeger cfg.jaeger_config s) in
      let after_all =
        log.closed-close tracer s9
        ∙ ap (λ rs. tracer ∷ rs)
            (log.closed-close registration_client s8
              ∙ ap (λ rs. registration_client ∷ rs)
                  (log.closed-close sessions_client s7
                    ∙ ap (λ rs. sessions_client ∷ rs)
                        (log.closed-close database s6 ∙ ap (λ rs. database ∷ rs) opened))) in
      ground arith
