-- ===== src/Config/Laws.antt =====
-- internal/config/config.go: what the service may rely on in its settings.
use Prim.Native.Nat.{max}
use accounts_service.Prelude.{◌≡◌, arith}
use accounts_service.Config

-- The service built from what `GetConfig` read makes at least one attempt to terminate the
-- sessions of a deleted account, and otherwise as many as the file says. Its secret for
-- verification tokens is the one that `VerifyAccount` reads from the global configuration, and
-- they live as long as a registration that waits.
service_settings :
    (file : Config.Config)
    → let cfg = Config.account_service_config (Config.get_config file) in
      (cfg.num_retries_for_terminate_sessions ≡ max 1 file.num_retries_for_terminate_sessions)
      × (cfg.verify_account_token_secret ≡ (Config.get_config file).verify_account_token_secret)
      × (cfg.verify_account_token_ttl ≡ cfg.nonactivated_account_ttl)
unfolding Config.account_service_config Config.get_config
service_settings file = (ground arith, ground arith, ground arith)
