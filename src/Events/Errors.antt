-- ===== src/Events/Errors.antt =====
-- The errors of the two Kafka writers.
use accounts_service.Prelude.{ℕ, String, ◌≡◌, refl, true, arith}
use accounts_service.Models.{AccountCreatedDto}
use accounts_service.External.{External}
use accounts_service.Effect.{
  Outcome, done, fail, panic, is_service_outcome, Reports, settle, outcome_error,
}
use accounts_service.Events

module _ ⦃x : External⦄ where
  settle-handle_error :
      {A : Type 0} (msg : String) (r : Outcome A) (ctx : x.Ctx) (w : x.World)
      → is_service_outcome (settle r (Events.handle_error msg ctx w (outcome_error r))) ≡ true
  unfolding Events.handle_error
  settle-handle_error msg (done a) ctx w = ground arith
  settle-handle_error msg (fail e) ctx w = ground arith
  settle-handle_error msg panic ctx w = refl

  account_created-Reports :
      (ctx : x.Ctx) (account : AccountCreatedDto) → Reports (Events.account_created ctx account)
  unfolding Events.account_created
  account_created-Reports ctx account w = settle-handle_error _ _ ctx _

  pub account_deleted-Reports :
      (ctx : x.Ctx) (email id : String) → Reports (Events.account_deleted ctx email id)
  unfolding Events.account_deleted
  account_deleted-Reports ctx email id w = settle-handle_error _ _ ctx _

  request_email_verification-Reports :
      (ctx : x.Ctx) (email token url : String) (ttl : ℕ)
      → Reports (Events.request_email_verification ctx email token url ttl)
  unfolding Events.request_email_verification
  request_email_verification-Reports ctx email token url ttl w = settle-handle_error _ _ ctx _

  pub request_change_password-Reports :
      (ctx : x.Ctx) (email token url : String) (ttl : ℕ)
      → Reports (Events.request_change_password ctx email token url ttl)
  unfolding Events.request_change_password
  request_change_password-Reports ctx email token url ttl w = settle-handle_error _ _ ctx _

  -- Every error of the four kinds of messages is a `ServiceError`.
  events-Reports :
      (ctx : x.Ctx) (account : AccountCreatedDto) (email id token url : String) (ttl : ℕ)
      → Reports (Events.account_created ctx account)
        × Reports (Events.account_deleted ctx email id)
        × Reports (Events.request_email_verification ctx email token url ttl)
        × Reports (Events.request_change_password ctx email token url ttl)
  events-Reports ctx account email id token url ttl = (
    account_created-Reports ctx account,
    account_deleted-Reports ctx email id,
    request_email_verification-Reports ctx email token url ttl,
    request_change_password-Reports ctx email token url ttl,
  )
