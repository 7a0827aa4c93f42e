-- ===== src/Postgres/Errors.antt =====
-- The errors of the accounts repository.
use accounts_service.Prelude.{String, ◌≡◌, refl, true, arith}
use accounts_service.Models.{Account}
use accounts_service.External.{External}
use accounts_service.Effect.{
  Outcome, done, fail, panic, is_service_outcome, Reports, settle, outcome_error,
}
use accounts_service.Postgres

module _ ⦃x : External⦄ where
  settle-handle_error :
      {A : Type 0} (r : Outcome A) (ctx : x.Ctx) (w : x.World)
      → is_service_outcome (settle r (Postgres.handle_error ctx w (outcome_error r))) ≡ true
  unfolding Postgres.handle_error
  settle-handle_error (done a) ctx w = ground arith
  settle-handle_error (fail e) ctx w = ground arith
  settle-handle_error panic ctx w = refl

  pub create_account-Reports :
      (ctx : x.Ctx) (account : Account) → Reports (Postgres.create_account ctx account)
  unfolding Postgres.create_account
  create_account-Reports ctx account w = settle-handle_error _ ctx _

  pub is_account_with_email_exist-Reports :
      (ctx : x.Ctx) (email : String) → Reports (Postgres.is_account_with_email_exist ctx email)
  unfolding Postgres.is_account_with_email_exist
  is_account_with_email_exist-Reports ctx email w = ground arith

  pub get_account_by_email-Reports :
      (ctx : x.Ctx) (email : String) → Reports (Postgres.get_account_by_email ctx email)
  unfolding Postgres.get_account_by_email
  get_account_by_email-Reports ctx email w = settle-handle_error _ ctx _

  pub change_password-Reports :
      (ctx : x.Ctx) (email hash : String) → Reports (Postgres.change_password ctx email hash)
  unfolding Postgres.change_password
  change_password-Reports ctx email hash w = settle-handle_error _ ctx _

  pub delete_account-Reports :
      (ctx : x.Ctx) (id : String) → Reports (Postgres.delete_account ctx id)
  unfolding Postgres.delete_account
  delete_account-Reports ctx id w = settle-handle_error _ ctx _

  pub get_account_email-Reports :
      (ctx : x.Ctx) (id : String) → Reports (Postgres.get_account_email ctx id)
  unfolding Postgres.get_account_email
  get_account_email-Reports ctx id w = settle-handle_error _ ctx _

  -- Every error of every method of the accounts repository is a `ServiceError`.
  accounts_repository-Reports :
      (ctx : x.Ctx) (account : Account) (email id hash : String)
      → Reports (Postgres.create_account ctx account)
        × Reports (Postgres.is_account_with_email_exist ctx email)
        × Reports (Postgres.get_account_by_email ctx email)
        × Reports (Postgres.change_password ctx email hash)
        × Reports (Postgres.delete_account ctx id)
        × Reports (Postgres.get_account_email ctx id)
  accounts_repository-Reports ctx account email id hash = (
    create_account-Reports ctx account,
    is_account_with_email_exist-Reports ctx email,
    get_account_by_email-Reports ctx email,
    change_password-Reports ctx email hash,
    delete_account-Reports ctx id,
    get_account_email-Reports ctx id,
  )
