-- ===== src/Config.antt =====
-- internal/config/config.go and cmd/server/app.go: the settings that the service is built from.
pub mod Laws
use accounts_service.Prelude.{ℕ, String, num_eq, if◌then◌else◌}

-- The fields of `Config` that reach the service.
pub record Config : Type 0 where
  pub nonactivated_account_ttl : ℕ
  pub sessions_ttl : ℕ
  pub num_retries_for_terminate_sessions : ℕ
  pub retry_sleep_time_for_terminate_sessions : ℕ
  pub bcrypt_cost : ℕ
  pub change_password_token_ttl : ℕ
  pub change_password_token_secret : String
  pub verify_account_token_secret : String

-- service.go `AccountsServiceConfig`
pub record AccountsServiceConfig : Type 0 where
  pub change_password_token_ttl : ℕ
  pub change_password_token_secret : String
  pub verify_account_token_ttl : ℕ
  pub verify_account_token_secret : String
  pub num_retries_for_terminate_sessions : ℕ
  pub retry_sleep_time_for_terminate_sessions : ℕ
  pub nonactivated_account_ttl : ℕ
  pub bcrypt_cost : ℕ
  pub session_ttl : ℕ

-- `GetConfig`, once the file has been read.
unfoldable pub get_config : Config → Config
get_config instance_read =
    if num_eq instance_read.num_retries_for_terminate_sessions 0
    then record instance_read { num_retries_for_terminate_sessions = 1 }
    else instance_read

-- app.go `getAccountServiceConfig`
unfoldable pub account_service_config : Config → AccountsServiceConfig
account_service_config cfg = record {
  change_password_token_ttl = cfg.change_password_token_ttl;
  change_password_token_secret = cfg.change_password_token_secret;
  verify_account_token_ttl = cfg.nonactivated_account_ttl;
  verify_account_token_secret = cfg.verify_account_token_secret;
  num_retries_for_terminate_sessions = cfg.num_retries_for_terminate_sessions;
  retry_sleep_time_for_terminate_sessions = cfg.retry_sleep_time_for_terminate_sessions;
  nonactivated_account_ttl = cfg.nonactivated_account_ttl;
  bcrypt_cost = cfg.bcrypt_cost;
  session_ttl = cfg.sessions_ttl;
}
