-- ===== src/Tests/Requests.antt =====
-- The theorems on requests, their checks and their errors, at concrete data.
use accounts_service.Prelude.{◌≡◌, refl, none, some, [], arith}
use accounts_service.Models.Errors.{ErrorCode, error}
use accounts_service.Effect.{Reports}
use accounts_service.Redis.Sessions as Repository
use accounts_service.Service.Sessions as Service
use accounts_service.Service.Accounts as Accounts
use accounts_service.Service.Errors.{service-Reports}
use accounts_service.Service.Authentication.{Refuses, unauthenticated_refused}
use accounts_service.Config.{get_config}
use accounts_service.Handler.Validation.{CreateAccountRequest, validate_signup_input}
use accounts_service.Handler.Inputs.{validate_signup_input_iff}
use accounts_service.Handler.Context as Context
use accounts_service.Handler.Methods as Methods
use accounts_service.Handler.Authorized.{IsAuthorized, get_account_id-IsAuthorized}
use accounts_service.Handler.Statuses.{HasStatus, methods-HasStatus}
use accounts_service.Tests.Memory.{memory}
use accounts_service.Tests.Worlds.{world, running, request, settings, file, login, signup}

unauthenticated_refused_example :
    Refuses
      (Accounts.delete_account none "s1" "phone")
      (running world)
      (error ErrorCode.unauthenticated "invalid session or machine id")
      (running world)
unfolding Service.check_session Repository.get_session
unauthenticated_refused_example =
    (unauthenticated_refused none "phone" "s1" []
      (error ErrorCode.unauthenticated "invalid session or machine id") (running world) refl).4

get_account_id-IsAuthorized_example : IsAuthorized ⦃x = memory⦄ request (running world)
unfolding Methods.get_account_id Context.auth_headers Service.get_account_id
    Service.check_and_update_session Service.check_session Repository.get_session
get_account_id-IsAuthorized_example = get_account_id-IsAuthorized request (running world) refl

abbrev form : CreateAccountRequest
form = record {
  email = "carol@example.org";
  username = "carol";
  password = "secret";
  repeat_password = "secret";
}

abbrev short : CreateAccountRequest
short = record form { username = "ca" }

validate_signup_input_iff_example : validate_signup_input ⦃x = memory⦄ (some form) ≡ none
validate_signup_input_iff_example = (validate_signup_input_iff form).1 (record {
  repeated = refl;
  username = (omega arith, omega arith);
  password = (omega arith, omega arith);
  email = (omega arith, omega arith);
  address = refl;
})

service-Reports_example : Reports (Service.logout ⦃x = memory⦄ none "s1" "laptop")
service-Reports_example =
    (service-Reports settings (get_config file) none "s1" "laptop" [] login signup "bob@example.org"
      "url" "token" "secret").2

methods-HasStatus_example : HasStatus (Methods.logout ⦃x = memory⦄ request)
methods-HasStatus_example =
    (methods-HasStatus settings (get_config file) request form
      (record { email = "alice@example.org"; password = "secret"; client_ip = "10.0.0.1" })
      "bob@example.org" "url" "token" "secret" []).5
