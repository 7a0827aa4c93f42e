-- ===== src/System/Handlers.antt =====
-- internal/handler/handler.go: the methods and an invariant of the service, in the sense of
-- `System.Invariant`.
use accounts_service.Prelude.{String, Option, none, some, List, arith}
use accounts_service.Models.{CreateAccountDto}
use accounts_service.Models.Errors.{GoError}
use accounts_service.External.{External}
use accounts_service.External.Redis.{Keys}
use accounts_service.Effect.{M, call, from_result, ◌>>=◌, ◌>>◌}
use accounts_service.Config.{Config, AccountsServiceConfig}
use accounts_service.Service.Process.{Process, on_world}
use accounts_service.Service.Sessions
use accounts_service.Service.Accounts
use accounts_service.Handler.Context.{
  with_handler, convert_error, auth_headers, machine_id_of, account_id_header,
}
use accounts_service.Handler.Validation.{
  CreateAccountRequest, validate_signup_input, validate_email, validate_password,
}
use accounts_service.Handler.Methods
use accounts_service.Handler.Methods.{SignInRequest}
use accounts_service.System.Keeps.{
  Keeps, Any, Keeps-pure, Keeps-throw, Keeps-throw_if, Keeps-map_error, Keeps-from_result,
  Keeps-bind, Keeps-then,
}
use accounts_service.System.Backend.{IsBackend}
use accounts_service.System.Invariant.{IsInvariant, IsSame}
use accounts_service.System.Accounts as Same
use accounts_service.System.Operations
use accounts_service.System.Deletion

module _ ⦃x : External⦄ (keys : x.World → Keys) (b : IsBackend keys) {P : Process → Type 0}
    {Good : String → Type 0} (i : IsInvariant keys P Good) where
  with_handler-Keeps : {A : Type 0} (m : M Process A) → Keeps P m Any → Keeps P (with_handler m) Any
  unfolding with_handler
  with_handler-Keeps m k = Keeps-map_error convert_error m k

  -- A method that asks for a session first.
  authorized-Keeps :
      {A : Type 0} (ctx : x.Ctx) (f : String × String → M Process A)
      → ((headers : String × String) → Keeps P (f headers) Any)
      → Keeps P (with_handler (from_result (auth_headers ctx) >>= f)) Any
  authorized-Keeps ctx f k = with_handler-Keeps _ (
      Keeps-bind (from_result (auth_headers ctx)) f
        (Keeps-from_result (auth_headers ctx) {Q = Any} (λ h e. tt)) (λ headers _. k headers))

  same-Keeps :
      {A : Type 0} (m : M Process A) → ((p : Process) → IsSame keys p (m p).1) → Keeps P m Any
  same-Keeps m same = record { after = λ p. i.same p (m p).1 (same p); value = λ p a h e. tt }

  pub get_account_id-Keeps : (ctx : x.Ctx) → Keeps P (Methods.get_account_id ctx) Any
  unfolding Methods.get_account_id
  get_account_id-Keeps ctx =
      let answer : String → M Process (Unit {0}) =
        λ account_id. on_world (call (x.set_header ctx account_id_header account_id)) in
      authorized-Keeps ctx (λ headers. Sessions.get_account_id ctx headers.0 headers.1 >>= answer)
        λ headers.
          Keeps-bind (Sessions.get_account_id ctx headers.0 headers.1) answer
            (Operations.get_account_id-Keeps keys b i ctx headers.0 headers.1)
            (λ account_id _.
              i.separate _ (λ w.
                ground (arith, b.separate.keys-set_header ctx account_id_header account_id w)))

  reject-Keeps : (e : Option GoError) → Keeps P (Methods.reject e) Any
  reject-Keeps none = Keeps-pure tt tt
  reject-Keeps (some e) = Keeps-throw _

  -- A method that checks its input first.
  checked-Keeps :
      {A : Type 0} (e : Option GoError) (m : M Process A)
      → Keeps P m Any
      → Keeps P (with_handler (Methods.reject e >> m)) Any
  checked-Keeps e m k = with_handler-Keeps _ (Keeps-then (Methods.reject e) m (reject-Keeps e) k)

  pub create_account-Keeps :
      (cfg : AccountsServiceConfig) (ctx : x.Ctx) (input : CreateAccountRequest)
      → Keeps P (Methods.create_account cfg ctx input) Any
  unfolding Methods.create_account
  create_account-Keeps cfg ctx input =
      let dto : CreateAccountDto = record {
        email = input.email;
        username = input.username;
        password = input.password;
      } in
      checked-Keeps (validate_signup_input (some input)) (Accounts.create_account cfg ctx dto)
        (same-Keeps _ (Same.create_account-IsSame keys b cfg ctx dto))

  pub request_account_verification_token-Keeps :
      (cfg : AccountsServiceConfig) (ctx : x.Ctx) (email url : String)
      → Keeps P (Methods.request_account_verification_token cfg ctx email url) Any
  unfolding Methods.request_account_verification_token
  request_account_verification_token-Keeps cfg ctx email url =
      checked-Keeps (validate_email email)
        (Accounts.request_account_verification_token cfg ctx email url)
        (same-Keeps _ (Same.request_account_verification_token-IsSame keys b cfg ctx email url))

  pub verify_account-Keeps :
      (global : Config) (ctx : x.Ctx) (token : String)
      → Keeps P (Methods.verify_account global ctx token) Any
  unfolding Methods.verify_account
  verify_account-Keeps global ctx token =
      with_handler-Keeps _ (same-Keeps _ (Same.verify_account-IsSame keys b global ctx token))

  pub request_change_password_token-Keeps :
      (cfg : AccountsServiceConfig) (ctx : x.Ctx) (email url : String)
      → Keeps P (Methods.request_change_password_token cfg ctx email url) Any
  unfolding Methods.request_change_password_token
  request_change_password_token-Keeps cfg ctx email url =
      with_handler-Keeps _
        (same-Keeps _ (Same.request_change_password_token-IsSame keys b cfg ctx email url))

  pub change_password-Keeps :
      (cfg : AccountsServiceConfig) (ctx : x.Ctx) (token new_password : String)
      → Keeps P (Methods.change_password cfg ctx token new_password) Any
  unfolding Methods.change_password
  change_password-Keeps cfg ctx token new_password =
      checked-Keeps (validate_password new_password)
        (Accounts.change_password cfg ctx token new_password)
        (same-Keeps _ (Same.change_password-IsSame keys b cfg ctx token new_password))

  pub sign_in-Keeps :
      (cfg : AccountsServiceConfig) (ctx : x.Ctx) (input : SignInRequest)
      → Keeps P (Methods.sign_in cfg ctx input) Any
  unfolding Methods.sign_in
  sign_in-Keeps cfg ctx input =
      let enter : String → M Process String = λ machine_id. Sessions.sign_in cfg ctx (record {
        email = input.email;
        password = input.password;
        client_ip = input.client_ip;
        machine_id = machine_id;
      }) in
      with_handler-Keeps _ (
        Keeps-then _ _ (Keeps-throw_if _ _) (
          Keeps-bind (from_result (machine_id_of ctx)) enter
            (Keeps-from_result (machine_id_of ctx) {Q = Any} (λ m e. tt))
            (λ machine_id _. Operations.sign_in-Keeps keys b i cfg ctx _)))

  pub logout-Keeps : (ctx : x.Ctx) → Keeps P (Methods.logout ctx) Any
  unfolding Methods.logout
  logout-Keeps ctx =
      authorized-Keeps ctx (λ headers. Sessions.logout ctx headers.0 headers.1)
        (λ headers. Operations.logout-Keeps keys b i ctx headers.0 headers.1)

  pub get_all_sessions-Keeps : (ctx : x.Ctx) → Keeps P (Methods.get_all_sessions ctx) Any
  unfolding Methods.get_all_sessions
  get_all_sessions-Keeps ctx =
      authorized-Keeps ctx (λ headers. Sessions.get_all_sessions ctx headers.0 headers.1)
        (λ headers. Operations.get_all_sessions-Keeps keys b i ctx headers.0 headers.1)

  pub terminate_sessions-Keeps :
      (ctx : x.Ctx) (ids : List String) → Keeps P (Methods.terminate_sessions ctx ids) Any
  unfolding Methods.terminate_sessions
  terminate_sessions-Keeps ctx ids =
      authorized-Keeps ctx (λ headers. Sessions.terminate_sessions ctx headers.0 headers.1 ids)
        (λ headers. Operations.terminate_sessions-Keeps keys b i ctx headers.0 headers.1 ids)

  pub delete_account-Keeps : (ctx : x.Ctx) → Keeps P (Methods.delete_account ctx) Any
  unfolding Methods.delete_account
  delete_account-Keeps ctx =
      authorized-Keeps ctx (λ headers. Accounts.delete_account ctx headers.0 headers.1)
        (λ headers. Deletion.delete_account-Keeps keys b i ctx headers.0 headers.1)
