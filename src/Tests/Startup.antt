-- ===== src/Tests/Startup.antt =====
-- The theorems on the start of the program, at a platform that records what is closed.
use accounts_service.Prelude.{◌≡◌, refl, String, ◌==◌, if◌then◌else◌, false, true, List, [], ◌∷◌}
use accounts_service.Models.Errors.{other_error}
use accounts_service.Effect.{ok, err, fail}
use accounts_service.Startup.{
  Platform, StartupConfig, Resource, tracer, registration_client, sessions_client, database,
  accounts_events_writer, returned, main, new_redis_client, init_jaeger, create_metrics,
}
use accounts_service.Startup.Laws.{main-run_steps}
use accounts_service.Startup.Closes.{IsClosingLog, main_closes}

-- Redis answers at the address "redis" only.
abbrev desk : Platform
desk = record {
  State = List Resource;
  error_text = λ e. "refused";
  parse_level = λ level. ok tt;
  new_tracer = λ c s. (ok tt, s);
  register = λ c s. (ok tt, s);
  new_client = λ opt. true;
  ping = λ opt s. (if opt.addr == "redis" then ok tt else err (other_error "refused"), s);
  sqlx_connect = λ driver dsn s. (ok tt, s);
  new_writer = λ r brokers s. s;
  close = λ r s. r ∷ s;
  serve = λ s. s;
  shutdown_server = λ s. s;
}

abbrev configured : String → StartupConfig
configured sessions_addr = record {
  log_level = "info";
  prometheus_name = "accounts_service";
  jaeger_config = record { service_name = "accounts"; address = "jaeger"; log_spans = false };
  registration_repository = record { network = "tcp"; addr = "redis"; password = ""; db = 0 };
  sessions_cache_options = record { network = "tcp"; addr = sessions_addr; password = ""; db = 1 };
  db_config = record {
    host = "db";
    port = "5432";
    username = "u";
    password = "p";
    db_name = "accounts";
    ssl_mode = "disable";
  };
  account_events = "kafka" ∷ [];
  tokens_delivery = "kafka" ∷ [];
}

abbrev desk-IsClosingLog : IsClosingLog ⦃x = desk⦄ (λ s. s)
desk-IsClosingLog = record {
  closed-close = λ r s. refl;
  closed-new_tracer = λ c s. refl;
  closed-register = λ c s. refl;
  closed-ping = λ o s. refl;
  closed-sqlx_connect = λ driver dsn s. refl;
  closed-new_writer = λ r brokers s. refl;
  closed-serve = λ s. refl;
  closed-shutdown_server = λ s. refl;
}

-- The sessions client does not answer.
main-run_steps_example : main ⦃x = desk⦄ (configured "nowhere") [] ≡ (
  returned (fail (other_error "connection is not established: refused")),
  tracer ∷ registration_client ∷ [],
)
unfolding init_jaeger create_metrics new_redis_client
main-run_steps_example = main-run_steps ⦃x = desk⦄ (configured "nowhere") [] refl

main_closes_example :
    (main ⦃x = desk⦄ (configured "redis") []).1
    ≡ tracer ∷ registration_client ∷ sessions_client ∷ database ∷ accounts_events_writer
      ∷ accounts_events_writer ∷ []
unfolding main
main_closes_example = main_closes ⦃x = desk⦄ (λ s. s) desk-IsClosingLog (configured "redis") [] refl
