-- ===== src/Gateway/Remote/Served.antt =====
-- pkg/accounts_service/v1/protos/accounts_service_v1.pb.gw.go and accounts_service_v1_grpc.pb.go: the
-- gateway in front of a connection, and the one in front of the service itself.
use accounts_service.Prelude.{◌≡◌, refl, ap}
use accounts_service.Models.Errors.{GoError}
use accounts_service.External.{External}
use accounts_service.Effect.{Result, ok, err, Outcome, done, fail, M, from_result, ◌>>=◌}
use accounts_service.Config.{Config}
use accounts_service.Service.Process.{Process}
use accounts_service.System.Server.{Request, Response, serve}
use accounts_service.Rpc.Client.{Invoke, Client, new_client}
use accounts_service.Rpc.RoundTrip.{IsConnection, new_client-serve}
use accounts_service.Gateway.{Rest, Server, Params}
use accounts_service.Gateway.Requests
use accounts_service.Gateway.Requests.{LocalRequest, body_message, query_message, token_param}
use accounts_service.Gateway.Remote
use accounts_service.Gateway.Remote.{RemoteRequest}
use accounts_service.Gateway.Remote.Agreement.{
  outcome_of, plain, as_server, Agrees, requests-AgreesEach,
}

module _ ⦃x : External⦄ where
  -- `u` ends in the state of `t`, and with its value or its error.
  abbrev Passed : Outcome Response × Process → Outcome Response × Process → Type 0
  Passed u t =
      (u.1 ≡ t.1)
      × ((resp : Response) → t.0 ≡ done resp → u.0 ≡ done resp)
      × ((e : GoError) → t.0 ≡ fail e → u.0 ≡ fail e)

  same-Passed :
      (m n : M Process Response)
      → m ≡ n
      → (t : Outcome Response × Process) (p : Process) → Passed (n p) t
      → Passed (m p) t
  same-Passed m n same t p passed = rw (same) passed

  from_result-Passed :
      {A : Type 0} (r : Result A) (k l : A → M Process Response)
      → ((a : A) (q : Process) → Passed (k a q) (l a q))
      → (p : Process) → Passed ((from_result r >>= k) p) ((from_result r >>= l) p)
  from_result-Passed (ok a) k l passed p = passed a p
  from_result-Passed (err e) k l passed p = (refl, λ resp same. same, λ e same. same)

module _ ⦃x : External⦄ (g : Rest) (s t : Server)
    (rel : (ctx : x.Ctx) (r : Request) (p : Process) → Passed (s ctx r p) (t ctx r p)) where
  abbrev Follows : LocalRequest g s → LocalRequest g t → Type 0
  Follows a b =
      (ctx : x.Ctx) (req : g.HttpRequest) (params : Params) (p : Process)
      → Passed (a ctx req params p) (b ctx req params p)

  create_account-Follows :
      Follows (Requests.local_create_account g s) (Requests.local_create_account g t)
  unfolding Requests.local_create_account
  create_account-Follows ctx req params p =
      from_result-Passed (body_message g g.decode_create_account req) _ _
        (λ m. rel ctx (Request.create_account m)) p

  delete_account-Follows :
      Follows (Requests.local_delete_account g s) (Requests.local_delete_account g t)
  unfolding Requests.local_delete_account
  delete_account-Follows ctx req params p = rel ctx Request.delete_account p

  request_account_verification_token-Follows :
      Follows
        (Requests.local_request_account_verification_token g s)
        (Requests.local_request_account_verification_token g t)
  unfolding Requests.local_request_account_verification_token
  request_account_verification_token-Follows ctx req params p =
      from_result-Passed (query_message g g.populate_verification_token req) _ _
        (λ m. rel ctx (Request.request_account_verification_token m.0 m.1)) p

  verify_account-Follows :
      Follows (Requests.local_verify_account g s) (Requests.local_verify_account g t)
  unfolding Requests.local_verify_account
  verify_account-Follows ctx req params p =
      from_result-Passed (body_message g g.decode_verify_account req) _ _
        (λ _.
          from_result-Passed (token_param g params) _ _
            (λ token. rel ctx (Request.verify_account token)))
        p

  sign_in-Follows : Follows (Requests.local_sign_in g s) (Requests.local_sign_in g t)
  unfolding Requests.local_sign_in
  sign_in-Follows ctx req params p =
      from_result-Passed (body_message g g.decode_sign_in req) _ _
        (λ m. rel ctx (Request.sign_in m)) p

  get_account_id-Follows :
      Follows (Requests.local_get_account_id g s) (Requests.local_get_account_id g t)
  unfolding Requests.local_get_account_id
  get_account_id-Follows ctx req params p = rel ctx Request.get_account_id p

  logout-Follows : Follows (Requests.local_logout g s) (Requests.local_logout g t)
  unfolding Requests.local_logout
  logout-Follows ctx req params p = rel ctx Request.logout p

  request_change_password_token-Follows :
      Follows
        (Requests.local_request_change_password_token g s)
        (Requests.local_request_change_password_token g t)
  unfolding Requests.local_request_change_password_token
  request_change_password_token-Follows ctx req params p =
      from_result-Passed (query_message g g.populate_change_password_token req) _ _
        (λ m. rel ctx (Request.request_change_password_token m.0 m.1)) p

  change_password-Follows :
      Follows (Requests.local_change_password g s) (Requests.local_change_password g t)
  unfolding Requests.local_change_password
  change_password-Follows ctx req params p =
      from_result-Passed (body_message g g.decode_change_password req) _ _
        (λ m. rel ctx (Request.change_password m.0 m.1)) p

  get_all_sessions-Follows :
      Follows (Requests.local_get_all_sessions g s) (Requests.local_get_all_sessions g t)
  unfolding Requests.local_get_all_sessions
  get_all_sessions-Follows ctx req params p = rel ctx Request.get_all_sessions p

  terminate_sessions-Follows :
      Follows (Requests.local_terminate_sessions g s) (Requests.local_terminate_sessions g t)
  unfolding Requests.local_terminate_sessions
  terminate_sessions-Follows ctx req params p =
      from_result-Passed (body_message g g.decode_terminate_sessions req) _ _
        (λ m. rel ctx (Request.terminate_sessions m)) p

module _ ⦃x : External⦄ (g : Rest) (global : Config) (invoke : Invoke g.Metadata)
    (arrive : x.Ctx → x.Ctx) where
  abbrev client : Client g.Metadata
  client = new_client invoke

  abbrev as_client : Server
  as_client = as_server g client

  abbrev server : Server
  server ctx = serve global (arrive ctx)

  abbrev Serves : RemoteRequest g → LocalRequest g server → Type 0
  Serves remote_request local_request =
      (ctx : x.Ctx) (req : g.HttpRequest) (params : Params) (p : Process)
      → Passed (plain g (remote_request ctx req params) p) (local_request ctx req params p)

  -- Each function over the client, and the one over the service.
  abbrev pub ServesEach : Type 0
  ServesEach =
      Serves (Remote.request_create_account g client) (Requests.local_create_account g server)
      × Serves (Remote.request_delete_account g client) (Requests.local_delete_account g server)
      × Serves (Remote.request_request_account_verification_token g client)
          (Requests.local_request_account_verification_token g server)
      × Serves (Remote.request_verify_account g client) (Requests.local_verify_account g server)
      × Serves (Remote.request_sign_in g client) (Requests.local_sign_in g server)
      × Serves (Remote.request_get_account_id g client) (Requests.local_get_account_id g server)
      × Serves (Remote.request_logout g client) (Requests.local_logout g server)
      × Serves (Remote.request_request_change_password_token g client)
          (Requests.local_request_change_password_token g server)
      × Serves (Remote.request_change_password g client) (Requests.local_change_password g server)
      × Serves (Remote.request_get_all_sessions g client) (Requests.local_get_all_sessions g server)
      × Serves (Remote.request_terminate_sessions g client)
          (Requests.local_terminate_sessions g server)

module _ ⦃x : External⦄ (g : Rest) (global : Config) (invoke : Invoke g.Metadata)
    (arrive : x.Ctx → x.Ctx) (c : IsConnection (serve global) invoke arrive) where
  client-Passed :
      (ctx : x.Ctx) (r : Request) (p : Process)
      → Passed (as_server g (new_client invoke) ctx r p) (serve global (arrive ctx) r p)
  client-Passed ctx r p =
      let (moved, value, failure) = new_client-serve global invoke arrive c ctx r p in
      (
        moved,
        λ resp same. ap (outcome_of g) (value resp same),
        λ e same. ap (outcome_of g) (failure e same),
      )

  served :
      (remote_request : RemoteRequest g)
      (called : LocalRequest g (as_client g global invoke arrive))
      (local_request : LocalRequest g (server g global invoke arrive))
      → Agrees g (client g global invoke arrive) remote_request called
      → Follows g
          (as_client g global invoke arrive)
          (server g global invoke arrive)
          client-Passed
          called
          local_request
      → Serves g global invoke arrive remote_request local_request
  served remote_request called local_request agrees follows ctx req params p =
      same-Passed _ _ (agrees ctx req params) (local_request ctx req params p) p
        (follows ctx req params p)

  -- Over a connection that delivers calls and answers, each function of the gateway over a gRPC client
  -- of the service returns what the function over the service itself returns, be it a message or an
  -- error, and ends in the same state. Of a method that panics, nothing is said of the answer.
  pub remote-ServesEach : ServesEach g global invoke arrive
  remote-ServesEach =
      let calls = client g global invoke arrive in
      let called = as_client g global invoke arrive in
      let direct = server g global invoke arrive in
      let (a0, a1, a2, a3, a4, a5, a6, a7, a8, a9, a10) = requests-AgreesEach g calls in
      (
        served (Remote.request_create_account g calls) (Requests.local_create_account g called)
            (Requests.local_create_account g direct) a0
            (create_account-Follows g (as_client g global invoke arrive)
              (server g global invoke arrive) client-Passed),
        served (Remote.request_delete_account g calls) (Requests.local_delete_account g called)
            (Requests.local_delete_account g direct) a1
            (delete_account-Follows g (as_client g global invoke arrive)
              (server g global invoke arrive) client-Passed),
        served (Remote.request_request_account_verification_token g calls)
            (Requests.local_request_account_verification_token g called)
            (Requests.local_request_account_verification_token g direct) a2
            (request_account_verification_token-Follows g (as_client g global invoke arrive)
              (server g global invoke arrive) client-Passed),
        served (Remote.request_verify_account g calls) (Requests.local_verify_account g called)
            (Requests.local_verify_account g direct) a3
            (verify_account-Follows g (as_client g global invoke arrive)
              (server g global invoke arrive) client-Passed),
        served (Remote.request_sign_in g calls) (Requests.local_sign_in g called)
            (Requests.local_sign_in g direct) a4
            (sign_in-Follows g (as_client g global invoke arrive) (server g global invoke arrive)
              client-Passed),
        served (Remote.request_get_account_id g calls) (Requests.local_get_account_id g called)
            (Requests.local_get_account_id g direct) a5
            (get_account_id-Follows g (as_client g global invoke arrive)
              (server g global invoke arrive) client-Passed),
        served (Remote.request_logout g calls) (Requests.local_logout g called)
            (Requests.local_logout g direct) a6
            (logout-Follows g (as_client g global invoke arrive) (server g global invoke arrive)
              client-Passed),
        served (Remote.request_request_change_password_token g calls)
            (Requests.local_request_change_password_token g called)
            (Requests.local_request_change_password_token g direct) a7
            (request_change_password_token-Follows g (as_client g global invoke arrive)
              (server g global invoke arrive) client-Passed),
        served (Remote.request_change_password g calls) (Requests.local_change_password g called)
            (Requests.local_change_password g direct) a8
            (change_password-Follows g (as_client g global invoke arrive)
              (server g global invoke arrive) client-Passed),
        served (Remote.request_get_all_sessions g calls) (Requests.local_get_all_sessions g called)
            (Requests.local_get_all_sessions g direct) a9
            (get_all_sessions-Follows g (as_client g global invoke arrive)
              (server g global invoke arrive) client-Passed),
        served (Remote.request_terminate_sessions g calls)
            (Requests.local_terminate_sessions g called)
            (Requests.local_terminate_sessions g direct) a10
            (terminate_sessions-Follows g (as_client g global invoke arrive)
              (server g global invoke arrive) client-Passed),
      )
