-- ===== src/Rpc/Outcomes.antt =====
-- internal/handler/handler.go: the outcomes that gRPC sends to a client.
use accounts_service.Prelude.{true, ◌≡◌, ◌∙◌, refl, sym, ap}
use accounts_service.Models.Errors.{service_error, status_error, redis_nil, no_rows, other_error}
use accounts_service.External.{External}
use accounts_service.Effect.{Outcome, done, fail, panic, M, pure, ◌>>=◌}
use accounts_service.Config.{Config, account_service_config}
use accounts_service.Service.Process.{Process}
use accounts_service.Handler.Methods
use accounts_service.Handler.Statuses.{is_status_outcome, HasStatus, with_handler-HasStatus}
use accounts_service.System.Server.{
  Request, Response, empty_response, access_response, all_sessions_response, serve,
}
use accounts_service.Rpc.{OutType, empty_out, access_out, all_sessions_out, type_of}
use accounts_service.Rpc.Dispatch.{out_of}

module _ ⦃x : External⦄ where
  -- The value of an action, as its `type_of`.
  abbrev HasType : M Process Response → OutType → Type 0
  HasType m out = (p : Process) (resp : Response) → (m p).0 ≡ done resp → type_of resp ≡ out

  typed :
      {A : Type 0} (r : Outcome A) (f : A → Response) (out : OutType) (p q : Process)
      (resp : Response)
      → ((a : A) → type_of (f a) ≡ out)
      → (((λ _. (r, q)) >>= λ a. pure (f a)) p).0 ≡ done resp
      → type_of resp ≡ out
  typed (done a) f out p q resp same ended =
      let value : f a ≡ resp = cc in ap type_of (sym value) ∙ same a
  typed (fail e) f out p q resp same ended = cc
  typed panic f out p q resp same ended = cc

  map-HasType :
      {A : Type 0} (m : M Process A) (f : A → Response) (out : OutType)
      → ((a : A) → type_of (f a) ≡ out)
      → HasType (m >>= λ a. pure (f a)) out
  map-HasType m f out same p resp = typed (m p).0 f out p (m p).1 resp same

  settled :
      {A : Type 0} (r : Outcome A) (f : A → Response) (p q : Process)
      → is_status_outcome r ≡ true
      → is_status_outcome (((λ _. (r, q)) >>= λ a. pure (f a)) p).0 ≡ true
  settled (done a) f p q status = refl
  settled (fail (service_error e)) f p q status = status
  settled (fail (status_error c msg)) f p q status = refl
  settled (fail redis_nil) f p q status = status
  settled (fail no_rows) f p q status = status
  settled (fail (other_error msg)) f p q status = status
  settled panic f p q status = refl

  map-HasStatus :
      {A : Type 0} (m : M Process A) (f : A → Response)
      → HasStatus m
      → HasStatus (m >>= λ a. pure (f a))
  map-HasStatus m f status p = settled (m p).0 f p (m p).1 (status p)

  -- Every method answers with a message of the type that its interface declares.
  pub serve-HasType :
      (global : Config) (ctx : x.Ctx) (r : Request) (p : Process) (resp : Response)
      → (serve global ctx r p).0 ≡ done resp
      → type_of resp ≡ out_of r
  unfolding serve
  serve-HasType global ctx (Request.create_account m) =
      map-HasType (Methods.create_account (account_service_config global) ctx m)
        (λ _. empty_response) empty_out (λ _. refl)
  serve-HasType global ctx Request.delete_account =
      map-HasType (Methods.delete_account ctx) (λ _. empty_response) empty_out (λ _. refl)
  serve-HasType global ctx (Request.request_account_verification_token email url) =
      map-HasType
        (Methods.request_account_verification_token (account_service_config global) ctx email url)
        (λ _. empty_response) empty_out (λ _. refl)
  serve-HasType global ctx (Request.verify_account token) =
      map-HasType (Methods.verify_account global ctx token) (λ _. empty_response) empty_out
        (λ _. refl)
  serve-HasType global ctx (Request.sign_in m) =
      map-HasType (Methods.sign_in (account_service_config global) ctx m) access_response access_out
        (λ _. refl)
  serve-HasType global ctx Request.get_account_id =
      map-HasType (Methods.get_account_id ctx) (λ _. empty_response) empty_out (λ _. refl)
  serve-HasType global ctx Request.logout =
      map-HasType (Methods.logout ctx) (λ _. empty_response) empty_out (λ _. refl)
  serve-HasType global ctx (Request.request_change_password_token email url) =
      map-HasType
        (Methods.request_change_password_token (account_service_config global) ctx email url)
        (λ _. empty_response) empty_out (λ _. refl)
  serve-HasType global ctx (Request.change_password token new_password) =
      map-HasType (Methods.change_password (account_service_config global) ctx token new_password)
        (λ _. empty_response) empty_out (λ _. refl)
  serve-HasType global ctx Request.get_all_sessions =
      map-HasType (Methods.get_all_sessions ctx) all_sessions_response all_sessions_out (λ _. refl)
  serve-HasType global ctx (Request.terminate_sessions ids) =
      map-HasType (Methods.terminate_sessions ctx ids) (λ _. empty_response) empty_out (λ _. refl)

  pub serve-HasStatus :
      (global : Config) (ctx : x.Ctx) (r : Request) → HasStatus (serve global ctx r)
  unfolding serve Methods.create_account Methods.request_account_verification_token
      Methods.verify_account Methods.sign_in Methods.get_account_id Methods.logout
      Methods.request_change_password_token Methods.change_password Methods.get_all_sessions
      Methods.terminate_sessions Methods.delete_account
  serve-HasStatus global ctx (Request.create_account m) =
      map-HasStatus (Methods.create_account (account_service_config global) ctx m)
        (λ _. empty_response) (with_handler-HasStatus _)
  serve-HasStatus global ctx Request.delete_account =
      map-HasStatus (Methods.delete_account ctx) (λ _. empty_response) (with_handler-HasStatus _)
  serve-HasStatus global ctx (Request.request_account_verification_token email url) =
      map-HasStatus
        (Methods.request_account_verification_token (account_service_config global) ctx email url)
        (λ _. empty_response) (with_handler-HasStatus _)
  serve-HasStatus global ctx (Request.verify_account token) =
      map-HasStatus (Methods.verify_account global ctx token) (λ _. empty_response)
        (with_handler-HasStatus _)
  serve-HasStatus global ctx (Request.sign_in m) =
      map-HasStatus (Methods.sign_in (account_service_config global) ctx m) access_response
        (with_handler-HasStatus _)
  serve-HasStatus global ctx Request.get_account_id =
      map-HasStatus (Methods.get_account_id ctx) (λ _. empty_response) (with_handler-HasStatus _)
  serve-HasStatus global ctx Request.logout =
      map-HasStatus (Methods.logout ctx) (λ _. empty_response) (with_handler-HasStatus _)
  serve-HasStatus global ctx (Request.request_change_password_token email url) =
      map-HasStatus
        (Methods.request_change_password_token (account_service_config global) ctx email url)
        (λ _. empty_response) (with_handler-HasStatus _)
  serve-HasStatus global ctx (Request.change_password token new_password) =
      map-HasStatus (Methods.change_password (account_service_config global) ctx token new_password)
        (λ _. empty_response) (with_handler-HasStatus _)
  serve-HasStatus global ctx Request.get_all_sessions =
      map-HasStatus (Methods.get_all_sessions ctx) all_sessions_response (with_handler-HasStatus _)
  serve-HasStatus global ctx (Request.terminate_sessions ids) =
      map-HasStatus (Methods.terminate_sessions ctx ids) (λ _. empty_response)
        (with_handler-HasStatus _)
