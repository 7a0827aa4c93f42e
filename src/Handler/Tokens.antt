-- ===== src/Handler/Tokens.antt =====
-- internal/service/service.go and internal/handler/handler.go: the tokens that are requested, and those that are accepted.
use accounts_service.Prelude.{String, ◌≡◌, true, false, arith}
use accounts_service.Models.Errors.{other_error, status_error, grpc_unknown}
use accounts_service.External.{External}
use accounts_service.Effect.{err, done, fail}
use accounts_service.Config.{Config, AccountsServiceConfig}
use accounts_service.Redis.Registration
use accounts_service.Postgres
use accounts_service.Token
use accounts_service.Service.Process.{Process}
use accounts_service.Service.Accounts
use accounts_service.Handler.Context.{with_handler}

module _ ⦃x : External⦄ where
  -- When the token for a waiting registration cannot be signed,
  -- `RequestAccountVerificationToken` ends in the bare error of `GenerateToken`, which the handler
  -- reports with the status Unknown.
  verification_sign_error :
      (cfg : AccountsServiceConfig) (ctx : x.Ctx) (email url msg : String) (p : Process)
      → let db = Postgres.is_account_with_email_exist ctx email p.world in
        let cache = Registration.is_account_exist ctx email db.1 in
        db.0 ≡ done false
        → cache.0 ≡ done true
        → Token.generate_token email cfg.verify_account_token_secret cfg.verify_account_token_ttl
            cache.1
          ≡ err (other_error msg)
        → let request = Accounts.request_account_verification_token cfg ctx email url in
          (request p ≡ (fail (other_error msg), record p { world = cache.1 }))
          × ((with_handler request p).0
              ≡ fail (status_error grpc_unknown (Accounts.error_text (other_error msg))))
  unfolding Accounts.request_account_verification_token with_handler
  verification_sign_error cfg ctx email url msg p no_account waiting unsigned =
      (ground arith, ground arith)
