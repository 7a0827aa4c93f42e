-- ===== src/Redis/Errors.antt =====
-- The errors of the two Redis repositories: `handleError` leaves none that is not a
-- `ServiceError`.
use accounts_service.Prelude.{ℕ, String, List, ◌≡◌, refl, true, arith}
use accounts_service.Models.{RegisteredAccount, Session}
use accounts_service.External.{External}
use accounts_service.Effect.{
  Outcome, done, fail, panic, is_service_outcome, Reports, settle, outcome_error,
}
use accounts_service.Redis.Handling.{handle_error}
use accounts_service.Redis.Registration
use accounts_service.Redis.Sessions

module _ ⦃x : External⦄ where
  settle-handle_error :
      {A : Type 0} (r : Outcome A) (ctx : x.Ctx) (w : x.World)
      → is_service_outcome (settle r (handle_error ctx w (outcome_error r))) ≡ true
  unfolding handle_error
  settle-handle_error (done a) ctx w = ground arith
  settle-handle_error (fail e) ctx w = ground arith
  settle-handle_error panic ctx w = refl

  pub is_account_exist-Reports :
      (ctx : x.Ctx) (email : String) → Reports (Registration.is_account_exist ctx email)
  unfolding Registration.is_account_exist
  is_account_exist-Reports ctx email w = settle-handle_error _ ctx _

  pub set_account-Reports :
      (ctx : x.Ctx) (email : String) (account : RegisteredAccount) (ttl : ℕ)
      → Reports (Registration.set_account ctx email account ttl)
  unfolding Registration.set_account
  set_account-Reports ctx email account ttl w = settle-handle_error _ ctx _

  pub get_account-Reports :
      (ctx : x.Ctx) (email : String) → Reports (Registration.get_account ctx email)
  unfolding Registration.get_account
  get_account-Reports ctx email w = settle-handle_error _ ctx _

  pub delete_account-Reports :
      (ctx : x.Ctx) (email : String) → Reports (Registration.delete_account ctx email)
  unfolding Registration.delete_account
  delete_account-Reports ctx email w = settle-handle_error _ ctx _

  pub set_session-Reports :
      (ctx : x.Ctx) (session : Session) (ttl : ℕ) → Reports (Sessions.set_session ctx session ttl)
  unfolding Sessions.set_session
  set_session-Reports ctx session ttl w = settle-handle_error _ ctx _

  pub terminate_sessions-Reports :
      (ctx : x.Ctx) (ids : List String) (id : String)
      → Reports (Sessions.terminate_sessions ctx ids id)
  unfolding Sessions.terminate_sessions
  terminate_sessions-Reports ctx ids id w = settle-handle_error _ ctx _

  pub get_session-Reports : (ctx : x.Ctx) (id : String) → Reports (Sessions.get_session ctx id)
  unfolding Sessions.get_session
  get_session-Reports ctx id w = settle-handle_error _ ctx _

  update_last_activity-Reports :
      (ctx : x.Ctx) (session : Session) (time ttl : ℕ)
      → Reports (Sessions.update_last_activity ctx session time ttl)
  unfolding Sessions.update_last_activity
  update_last_activity-Reports ctx session time ttl w = settle-handle_error _ ctx _

  get_sessions_ids-Reports :
      (ctx : x.Ctx) (id : String) → Reports (Sessions.get_sessions_ids ctx id)
  unfolding Sessions.get_sessions_ids
  get_sessions_ids-Reports ctx id w = settle-handle_error _ ctx _

  pub get_sessions_for_account-Reports :
      (ctx : x.Ctx) (id : String) → Reports (Sessions.get_sessions_for_account ctx id)
  unfolding Sessions.get_sessions_for_account
  get_sessions_for_account-Reports ctx id w = settle-handle_error _ ctx _

  terminate_all_sessions-Reports :
      (ctx : x.Ctx) (id : String) → Reports (Sessions.terminate_all_sessions ctx id)
  unfolding Sessions.terminate_all_sessions
  terminate_all_sessions-Reports ctx id w = settle-handle_error _ ctx _

  -- Every error of every method of the two Redis repositories is a `ServiceError`.
  redis_repositories-Reports :
      (ctx : x.Ctx) (email id : String) (ids : List String) (account : RegisteredAccount)
      (session : Session) (time ttl : ℕ)
      → Reports (Registration.is_account_exist ctx email)
        × Reports (Registration.set_account ctx email account ttl)
        × Reports (Registration.get_account ctx email)
        × Reports (Registration.delete_account ctx email)
        × Reports (Sessions.set_session ctx session ttl)
        × Reports (Sessions.terminate_sessions ctx ids id)
        × Reports (Sessions.get_session ctx id)
        × Reports (Sessions.update_last_activity ctx session time ttl)
        × Reports (Sessions.get_sessions_ids ctx id)
        × Reports (Sessions.get_sessions_for_account ctx id)
        × Reports (Sessions.terminate_all_sessions ctx id)
  redis_repositories-Reports ctx email id ids account session time ttl = (
    is_account_exist-Reports ctx email,
    set_account-Reports ctx email account ttl,
    get_account-Reports ctx email,
    delete_account-Reports ctx email,
    set_session-Reports ctx session ttl,
    terminate_sessions-Reports ctx ids id,
    get_session-Reports ctx id,
    update_last_activity-Reports ctx session time ttl,
    get_sessions_ids-Reports ctx id,
    get_sessions_for_account-Reports ctx id,
    terminate_all_sessions-Reports ctx id,
  )
