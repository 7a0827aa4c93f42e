-- ===== src/Service/Accounts.antt =====
-- internal/service/service.go: registration, verification, the password and the deletion of an
-- account.
use accounts_service.Prelude.{String, not, Option, none, some}
use accounts_service.Models.{CreateAccountDto}
use accounts_service.Models.Errors.{GoError, ErrorCode, error}
use accounts_service.External.{External}
unfoldable pub use accounts_service.Logs.{error_text}
use accounts_service.Effect.{
  M, pure, crash, call, gets, from_result, throw_if, map_error, try, ◌>>=◌, ◌>>◌,
}
use accounts_service.Config.{Config, AccountsServiceConfig}
use accounts_service.Token.{generate_token, parse_token}
use accounts_service.Postgres
use accounts_service.Redis.Registration
use accounts_service.Events
use accounts_service.Service.Process.{Process, on_world, spawn, terminate_all_task}
use accounts_service.Service.Sessions.{check_session}

module _ ⦃x : External⦄ where
  -- `models.Error(models.Internal, err.Error())` and the like.
  abbrev wrapped : ErrorCode → GoError → GoError
  wrapped c e = error c (error_text e)

  abbrev hash_failed : String → GoError → GoError
  hash_failed msg e = error ErrorCode.internal msg

  -- `CreateAccount`
  unfoldable pub create_account :
      AccountsServiceConfig → x.Ctx → CreateAccountDto → M Process (Unit {0})
  create_account cfg ctx dto = do
    exist ← on_world (Postgres.is_account_with_email_exist ctx dto.email)
    throw_if exist (
        error ErrorCode.conflict
          "a user with this email address already exists. please try another one or simple log in")
    in_cache ← on_world (Registration.is_account_exist ctx dto.email)
    throw_if in_cache (
        error ErrorCode.conflict
          "a user with this email address already exists. please try another one or verify email and log in")
    password_hash ←
        map_error (hash_failed "can't generate password hash")
          (on_world (call (x.bcrypt.generate_from_password dto.password cfg.bcrypt_cost)))
    on_world (
        Registration.set_account ctx dto.email
          (record { username = dto.username; password = password_hash })
          cfg.nonactivated_account_ttl)

  -- `RequestAccountVerificationToken`
  unfoldable pub request_account_verification_token :
      AccountsServiceConfig → x.Ctx → String → String → M Process (Unit {0})
  request_account_verification_token cfg ctx email callback_url = do
    exist ← on_world (Postgres.is_account_with_email_exist ctx email)
    throw_if exist (error ErrorCode.invalid_argument "account already activated")
    in_cache ← on_world (Registration.is_account_exist ctx email)
    throw_if (not in_cache)
        (error ErrorCode.not_found "a account with this email address not exist")
    generated ← gets (λ p.
        generate_token email cfg.verify_account_token_secret cfg.verify_account_token_ttl p.world)
    token ← from_result generated
    on_world (
        Events.request_email_verification ctx email token callback_url cfg.verify_account_token_ttl)

  -- `tx.Commit()`: a call on a nil transaction panics.
  unfoldable pub commit : Option x.Tx → M Process (Unit {0})
  commit none = crash
  commit (some tx) = map_error (wrapped ErrorCode.internal) (on_world (call (x.sql.commit tx)))

  -- `createAccount`
  unfoldable pub activate_account : x.Ctx → String → M Process (Unit {0})
  unfolding commit
  activate_account ctx email = do
    repo_account ← on_world (Registration.get_account ctx email)
    time ← gets (λ p. x.now p.world)
    created ← on_world (
        Postgres.create_account ctx (record {
          id = "";
          email = email;
          password = repo_account.password;
          registration_date = time;
        }))
    commit created.0
    map_error (wrapped ErrorCode.internal) (
        on_world (
          Events.account_created ctx (record {
            id = created.1;
            username = repo_account.username;
            email = email;
            registration_date = time;
          })))
    _ ← try (on_world (Registration.delete_account ctx email))
    pure tt

  -- `VerifyAccount`, which reads the secret from the global configuration.
  unfoldable pub verify_account : Config → x.Ctx → String → M Process (Unit {0})
  verify_account global ctx token = do
    parsed ← gets (λ p. parse_token token global.verify_account_token_secret p.world)
    email ← map_error (wrapped ErrorCode.invalid_argument) (from_result parsed)
    activate_account ctx email

  -- `RequestChangePasswordToken`
  unfoldable pub request_change_password_token :
      AccountsServiceConfig → x.Ctx → String → String → M Process (Unit {0})
  request_change_password_token cfg ctx email callback_url = do
    exist ← on_world (Postgres.is_account_with_email_exist ctx email)
    throw_if (not exist) (error ErrorCode.not_found "account not found")
    generated ← gets (λ p.
        generate_token email cfg.change_password_token_secret cfg.change_password_token_ttl p.world)
    token ← map_error (wrapped ErrorCode.internal) (from_result generated)
    on_world
        (Events.request_change_password ctx email token callback_url cfg.change_password_token_ttl)

  -- `ChangePassword`
  unfoldable pub change_password :
      AccountsServiceConfig → x.Ctx → String → String → M Process (Unit {0})
  change_password cfg ctx token new_password = do
    parsed ← gets (λ p. parse_token token cfg.change_password_token_secret p.world)
    email ← map_error (wrapped ErrorCode.invalid_argument) (from_result parsed)
    exist ← on_world (Postgres.is_account_with_email_exist ctx email)
    throw_if (not exist) (error ErrorCode.not_found "account not found")
    password_hash ←
        map_error (hash_failed "can't generate password hash.")
          (on_world (call (x.bcrypt.generate_from_password new_password cfg.bcrypt_cost)))
    on_world (Postgres.change_password ctx email password_hash)

  -- `DeleteAccount`
  unfoldable pub delete_account : x.Ctx → String → String → M Process (Unit {0})
  unfolding commit
  delete_account ctx session_id machine_id = do
    session ← check_session ctx machine_id session_id
    email ← on_world (Postgres.get_account_email ctx session.account_id)
    tx ← on_world (Postgres.delete_account ctx session.account_id)
    on_world (Events.account_deleted ctx email session.account_id)
    commit tx
    spawn (terminate_all_task session)
