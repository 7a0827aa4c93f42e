-- ===== src/Handler/Statuses.antt =====
-- internal/handler/handler.go: `handleError` turns every error into a status.
use accounts_service.Prelude.{String, Bool, true, false, List, ◌≡◌, refl}
use accounts_service.Models.Errors.{service_error, status_error, redis_nil, no_rows, other_error}
use accounts_service.External.{External}
use accounts_service.Effect.{M, Outcome, done, fail, panic}
use accounts_service.Config.{Config, AccountsServiceConfig}
use accounts_service.Service.Process.{Process}
use accounts_service.Handler.Validation.{CreateAccountRequest}
use accounts_service.Handler.Context as Context
use accounts_service.Handler.Methods as Methods

-- No error, or an error that is a gRPC status; a panic carries no error.
abbrev pub is_status_outcome : {A : Type 0} → Outcome A → Bool
is_status_outcome (done a) = true
is_status_outcome (fail (status_error c msg)) = true
is_status_outcome (fail e) = false
is_status_outcome panic = true

module _ ⦃x : External⦄ where
  -- Whatever the state, the method ends in no error that is not a status.
  abbrev pub HasStatus : {A : Type 0} → M Process A → Type 0
  HasStatus m = (p : Process) → is_status_outcome (m p).0 ≡ true

  converted :
      {A : Type 0} (r : Outcome A) (p q : Process)
      → is_status_outcome (Context.with_handler (λ _. (r, q)) p).0 ≡ true
  unfolding Context.with_handler
  converted (done a) p q = refl
  converted (fail (service_error e)) p q = refl
  converted (fail (status_error c msg)) p q = refl
  converted (fail redis_nil) p q = refl
  converted (fail no_rows) p q = refl
  converted (fail (other_error msg)) p q = refl
  converted panic p q = refl

  pub with_handler-HasStatus : {A : Type 0} (m : M Process A) → HasStatus (Context.with_handler m)
  unfolding Context.with_handler
  with_handler-HasStatus m p = converted (m p).0 p (m p).1

  -- Every error of every gRPC method is a status.
  pub methods-HasStatus :
      (cfg : AccountsServiceConfig) (global : Config) (ctx : x.Ctx) (signup : CreateAccountRequest)
      (login : Methods.SignInRequest) (email url token password : String) (ids : List String)
      → HasStatus (Methods.create_account cfg ctx signup)
        × HasStatus (Methods.request_account_verification_token cfg ctx email url)
        × HasStatus (Methods.verify_account global ctx token)
        × HasStatus (Methods.sign_in cfg ctx login)
        × HasStatus (Methods.get_account_id ctx)
        × HasStatus (Methods.logout ctx)
        × HasStatus (Methods.request_change_password_token cfg ctx email url)
        × HasStatus (Methods.change_password cfg ctx token password)
        × HasStatus (Methods.get_all_sessions ctx)
        × HasStatus (Methods.terminate_sessions ctx ids)
        × HasStatus (Methods.delete_account ctx)
  unfolding Methods.create_account Methods.request_account_verification_token Methods.verify_account
      Methods.sign_in Methods.get_account_id Methods.logout Methods.request_change_password_token
      Methods.change_password Methods.get_all_sessions Methods.terminate_sessions
      Methods.delete_account
  methods-HasStatus cfg global ctx signup login email url token password ids = (
    with_handler-HasStatus _,
    with_handler-HasStatus _,
    with_handler-HasStatus _,
    with_handler-HasStatus _,
    with_handler-HasStatus _,
    with_handler-HasStatus _,
    with_handler-HasStatus _,
    with_handler-HasStatus _,
    with_handler-HasStatus _,
    with_handler-HasStatus _,
    with_handler-HasStatus _,
  )
