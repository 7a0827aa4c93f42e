-- ===== src/Rpc/RoundTrip.antt =====
-- pkg/accounts_service/v1/protos/accounts_service_v1_grpc.pb.go and internal/handler/handler.go: what
-- a client is answered over a connection to the service.
use mathlib.Core.List.{Memᴰ}
use accounts_service.Prelude.{String, true, Option, none, some, ◌≡◌, ◌∙◌, refl, ap}
use accounts_service.Models.Errors.{
  GoError, service_error, status_error, redis_nil, no_rows, other_error,
}
use accounts_service.External.{External}
use accounts_service.Effect.{Result, ok, err, Outcome, done, fail, panic, M}
use accounts_service.Config.{Config}
use accounts_service.Service.Process.{Process}
use accounts_service.Handler.Statuses.{is_status_outcome}
use accounts_service.System.Server.{Request, Response, serve}
use accounts_service.Gateway.{Server}
use accounts_service.Rpc.{Message, Decode, OutType, type_of, Interceptor, UnaryHandler, MethodDesc}
use accounts_service.Rpc.Handlers.{service_desc}
use accounts_service.Rpc.Client.{Invoke, new_client}
use accounts_service.Rpc.Dispatch.{
  message_of, out_of, name_of, Reads, Calls, path, request-IsServed,
}
use accounts_service.Rpc.Outcomes.{serve-HasType, serve-HasStatus}

module _ ⦃x : External⦄ where
  -- An interceptor passes the call on, and its outcome back.
  abbrev Passes : Option Interceptor → Type 0
  Passes none = Unit
  Passes (some intercept) =
      (ctx : x.Ctx) (m : Message) (name : String) (next : UnaryHandler)
      → intercept ctx m name next ≡ next ctx m

  -- What the client receives for an outcome: a message of the type that it expects, or a status.
  abbrev pub Receives : OutType → Outcome Response → Result Response → Type 0
  Receives out (done resp) res = type_of resp ≡ out → res ≡ ok resp
  Receives out (fail (status_error c msg)) res = res ≡ err (status_error c msg)
  Receives out _ res = Unit

  -- A connection of google.golang.org/grpc to a server that has registered the table: the handler of
  -- that name is called, with the message that was sent, under the context that has arrived.
  pub record IsConnection (server : Server) {metadata : Type 0} (invoke : Invoke metadata)
      (arrive : x.Ctx → x.Ctx) : Type 0 where
    pub delivered :
        (ctx : x.Ctx) (m : Message) (out : OutType) (p : Process) (d : MethodDesc)
        → Memᴰ d (service_desc server).methods
        → (dec : Decode) × (interceptor : Option Interceptor) × Reads dec m
          × Passes interceptor
          × ((invoke ctx (path server d) m out p).1 ≡ (d.handler (arrive ctx) dec interceptor p).1)
          × Receives out
              (d.handler (arrive ctx) dec interceptor p).0
              (invoke ctx (path server d) m out p).0.0

module _ ⦃x : External⦄ (server : Server) {metadata : Type 0} (invoke : Invoke metadata)
    (arrive : x.Ctx → x.Ctx) (c : IsConnection server invoke arrive) where
  -- The client's methods call under the names and with the messages of the table.
  new_client-Request :
      (ctx : x.Ctx) (r : Request)
      → new_client invoke ctx r ≡ invoke ctx (name_of r) (message_of r) (out_of r)
  unfolding new_client
  new_client-Request ctx (Request.create_account m) = refl
  new_client-Request ctx Request.delete_account = refl
  new_client-Request ctx (Request.request_account_verification_token email url) = refl
  new_client-Request ctx (Request.verify_account token) = refl
  new_client-Request ctx (Request.sign_in m) = refl
  new_client-Request ctx Request.get_account_id = refl
  new_client-Request ctx Request.logout = refl
  new_client-Request ctx (Request.request_change_password_token email url) = refl
  new_client-Request ctx (Request.change_password token new_password) = refl
  new_client-Request ctx Request.get_all_sessions = refl
  new_client-Request ctx (Request.terminate_sessions ids) = refl

  -- The handler of an entry makes the call, also through an interceptor that passes it on.
  handler-Passes :
      (handler : x.Ctx → Decode → Option Interceptor → M Process Response) (name : String)
      (r : Request) (ctx : x.Ctx) (dec : Decode) (interceptor : Option Interceptor)
      → Calls server handler name r
      → Reads dec (message_of r)
      → Passes interceptor
      → handler ctx dec interceptor ≡ server ctx r
  handler-Passes handler name r ctx dec none calls read passes = (calls ctx dec read).0
  handler-Passes handler name r ctx dec (some intercept) calls read passes =
      let (direct, next, same, via) = calls ctx dec read in
      via intercept ∙ passes ctx (message_of r) name next ∙ same

  -- A call of the client changes what that call of the server changes, and receives its outcome.
  pub new_client-Receives :
      (ctx : x.Ctx) (r : Request) (p : Process)
      → let t = server (arrive ctx) r p in
        ((new_client invoke ctx r p).1 ≡ t.1)
        × Receives (out_of r) t.0 (new_client invoke ctx r p).0.0
  new_client-Receives ctx r p =
      let (d, mem, named, calls) = request-IsServed server r in
      let (dec, interceptor, read, passes, moved, received) =
        c.delivered ctx (message_of r) (out_of r) p d mem in
      let handled =
        handler-Passes d.handler (path server d) r (arrive ctx) dec interceptor calls read passes in
      rw (new_client-Request ctx r, ← named, ← ap (λ m. m p) handled) (moved, received)

module _ ⦃x : External⦄ (global : Config) {metadata : Type 0} (invoke : Invoke metadata)
    (arrive : x.Ctx → x.Ctx) (c : IsConnection (serve global) invoke arrive) where
  expected :
      (out : OutType) (r : Outcome Response) (res : Result Response)
      → Receives out r res
      → is_status_outcome r ≡ true
      → ((resp : Response) → r ≡ done resp → type_of resp ≡ out)
      → ((resp : Response) → r ≡ done resp → res ≡ ok resp)
        × ((e : GoError) → r ≡ fail e → res ≡ err e)
  expected out (done resp) res received status typed =
      (λ resp' same. received (typed resp refl) ∙ cc, λ e same. cc)
  expected out (fail (status_error c msg)) res received status typed =
      (λ resp same. cc, λ e same. cc)
  expected out (fail (service_error e)) res received status typed = cc
  expected out (fail redis_nil) res received status typed = cc
  expected out (fail no_rows) res received status typed = cc
  expected out (fail (other_error msg)) res received status typed = cc
  expected out panic res received status typed = (λ resp same. cc, λ e same. cc)

  -- Over a connection that delivers calls and answers, a gRPC client of the service is answered what
  -- the method returned: the same message, or the same status; and the call changes what the method
  -- changes. Of a method that panics, nothing is said of the answer.
  pub new_client-serve :
      (ctx : x.Ctx) (r : Request) (p : Process)
      → let t = serve global (arrive ctx) r p in
        let u = new_client invoke ctx r p in
        (u.1 ≡ t.1)
        × ((resp : Response) → t.0 ≡ done resp → u.0.0 ≡ ok resp)
        × ((e : GoError) → t.0 ≡ fail e → u.0.0 ≡ err e)
  new_client-serve ctx r p =
      let (moved, received) = new_client-Receives (serve global) invoke arrive c ctx r p in
      let (value, failure) =
        expected (out_of r) (serve global (arrive ctx) r p).0 (new_client invoke ctx r p).0.0
          received (serve-HasStatus global (arrive ctx) r p)
          (serve-HasType global (arrive ctx) r p) in
      (moved, value, failure)
