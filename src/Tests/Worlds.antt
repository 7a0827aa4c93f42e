-- ===== src/Tests/Worlds.antt =====
-- The worlds, requests and failing libraries of the tests.
use accounts_service.Prelude.{none, some, [], ◌∷◌, ◌==◌, if◌then◌else◌}
use accounts_service.Models.{SignInDto, CreateAccountDto}
use accounts_service.Models.Errors.{other_error}
use accounts_service.Effect.{err}
use accounts_service.External.{External}
use accounts_service.External.Redis.{text, members}
use accounts_service.Config.{Config, AccountsServiceConfig, get_config, account_service_config}
use accounts_service.Service.Process.{Process}
use accounts_service.Tests.Memory.{World, Ctx, alice, dora, memory, database, session_server}

-- One session of Alice's, `s1`, and the pending account of Bob.
abbrev pub world : World
world = record {
  sessions = λ k.
      if k == "s1"
      then some (text "s1 at 5")
      else if k == "account_a1"
      then some (members ("s1" ∷ "s2" ∷ []))
      else none;
  registration = λ k. if k == "bob@example.org" then some (text "bob") else none;
  clock = 9;
  sent = [];
  rows = λ e.
      if e == "dora@example.org"
      then some dora
      else if e == "alice@example.org"
      then some alice
      else none;
}

abbrev pub no_sessions : World
no_sessions = record world { sessions = λ k. none }

abbrev pub later : World
later = record world { clock = 20 }

abbrev pub running : World → Process ⦃x = memory⦄
running w = record { world = w; tasks = [] }

abbrev pub request : Ctx
request = some (λ name.
    if name == "X-Session-Id"
    then "s1" ∷ []
    else if name == "X-Machine-Id"
    then "laptop" ∷ []
    else [])

abbrev pub file : Config
file = record {
  nonactivated_account_ttl = 5;
  sessions_ttl = 100;
  num_retries_for_terminate_sessions = 0;
  retry_sleep_time_for_terminate_sessions = 1;
  bcrypt_cost = 10;
  change_password_token_ttl = 5;
  change_password_token_secret = "key";
  verify_account_token_secret = "key";
}

abbrev pub configured : Config
configured = get_config file

abbrev pub settings : AccountsServiceConfig
settings = account_service_config configured

-- A configuration whose tokens the library does not sign.
abbrev pub unsigned : AccountsServiceConfig
unsigned = record settings { change_password_token_secret = "?"; verify_account_token_secret = "?" }

abbrev pub login : SignInDto
login = record {
  email = "alice@example.org";
  password = "secret";
  client_ip = "10.0.0.1";
  machine_id = "laptop";
}

abbrev pub signup : CreateAccountDto
signup = record { email = "carol@example.org"; username = "carol"; password = "secret" }

-- A database that refuses to insert, to delete and to commit.
abbrev pub failing : External
failing = record memory {
  sql = record database {
    tx_query_row_scan = λ ctx tx q vs w. (err (other_error "duplicate key"), w);
    tx_exec = λ ctx tx q vs w. (err (other_error "lost"), w);
    commit = λ tx w. (err (other_error "lost"), w);
  };
}

-- A database that does not commit.
abbrev pub uncommitting : External
uncommitting = record memory {
  sql = record database { commit = λ tx w. (err (other_error "lost"), w) };
}

-- A Redis server that cannot list sets.
abbrev pub unlisting : External
unlisting = record memory {
  sessions = record session_server { smembers = λ ctx k w. (err (other_error "lost"), w) };
}
