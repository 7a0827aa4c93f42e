-- ===== src/Startup/Laws.antt =====
-- cmd/server/app.go: what `main` closes, whichever step of the start fails.
use accounts_service.Prelude.{◌≡◌, List, [], ◌∷◌, Option, none, some, arith}
use accounts_service.Effect.{ok, M, modify, done, fail, panic}
use accounts_service.Startup.{
  Platform, StartupConfig, Resource, tracer, registration_client, sessions_client, database,
  accounts_events_writer, tokens_delivery_writer, returned, init_jaeger, create_metrics,
  new_redis_client, new_postgre_db, closing, serve_accounts, start, main,
}

module _ ⦃x : Platform⦄ where
  -- Closes a stack of resources, the last opened first.
  abbrev close_all : List Resource → x.State → x.State
  close_all [] s = s
  close_all (r ∷ rs) s = close_all rs (x.close r s)

  -- A step of the start, with the resource that is to be closed once it has been made.
  abbrev Step : Type 0
  Step = Option Resource × M x.State (Unit {0})

  abbrev push : Option Resource → List Resource → List Resource
  push none opened = opened
  push (some r) opened = r ∷ opened

  -- Makes the steps in turn until one fails, and then closes what was opened.
  abbrev run_steps : List Step → List Resource → M x.State (Unit {0})
  run_steps [] opened s = (done tt, close_all opened s)
  run_steps ((opens, act) ∷ rest) opened s =
      let (r, s') = act s in
      elim r [
        | done _ ↦ run_steps rest (push opens opened) s'
        | fail e ↦ (fail e, close_all opened s')
        | panic ↦ (panic, close_all opened s')
      ]

  abbrev steps : StartupConfig → List Step
  steps cfg =
      (some tracer, init_jaeger cfg.jaeger_config)
      ∷ (none, create_metrics cfg.prometheus_name)
      ∷ (some registration_client, new_redis_client cfg.registration_repository)
      ∷ (some sessions_client, new_redis_client cfg.sessions_cache_options)
      ∷ (some database, new_postgre_db cfg.db_config)
      ∷ (
        some accounts_events_writer,
        modify (x.new_writer accounts_events_writer cfg.account_events),
      )
      ∷ (
        some accounts_events_writer,
        modify (x.new_writer tokens_delivery_writer cfg.tokens_delivery),
      )
      ∷ (none, modify x.serve)
      ∷ (none, modify x.shutdown_server)
      ∷ []

  -- The connections, the writers and the server run one after the other; when one cannot be set
  -- up, `main` makes no further step and closes what is open, the last first.
  pub main-run_steps :
      (cfg : StartupConfig) (s : x.State)
      → x.parse_level cfg.log_level ≡ ok tt
      → let (r, after) = run_steps (steps cfg) [] s in main cfg s ≡ (returned r, after)
  unfolding main start closing serve_accounts
  main-run_steps cfg s level = ground arith
