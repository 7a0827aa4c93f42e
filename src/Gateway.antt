-- ===== src/Gateway.antt =====
-- pkg/accounts_service/v1/protos/accounts_service_v1.pb.gw.go: the REST gateway. Here are the calls
-- of its runtime, as parameters, and the handler that every route registers.
pub mod Requests
pub mod Patterns
pub mod Routes
pub mod Opcodes
pub mod Table
pub mod Mux
pub mod Delivery
pub mod RoundTrip
pub mod Remote
use accounts_service.Prelude.{ℕ, String, Bool, Option, List}
use accounts_service.Models.Errors.{GoError}
use accounts_service.External.{External}
use accounts_service.Effect.{Result, ok, err, M, Outcome, done, fail, panic}
use accounts_service.Service.Process.{Process}
use accounts_service.Handler.Validation.{CreateAccountRequest}
use accounts_service.Handler.Methods.{SignInRequest}
use accounts_service.System.Server.{Request, Response}

-- The arguments of `runtime.NewPattern`.
pub record Pattern : Type 0 where
  pub version : ℕ
  pub ops : List ℕ
  pub pool : List String
  pub verb : String

-- `pathParams`
abbrev pub Params : Type 0
Params = List (String × String)

-- net/http, `utilities` and `runtime` of grpc-gateway. A decoder gives the message as it leaves it,
-- and its error; it and `populate_…` start from an empty message.
pub record Rest ⦃x : External⦄ : Type 1 where
  pub HttpRequest : Type 0
  pub Body : Type 0
  pub Form : Type 0
  pub Metadata : Type 0
  pub request_context : HttpRequest → x.Ctx
  -- `context.WithCancel`, and the call of `cancel`.
  pub with_cancel : x.Ctx → x.World → x.Ctx × x.World
  pub cancel : x.Ctx → x.World → x.World
  -- `grpc.NewContextWithServerTransportStream` with a new stream; the stream's header and trailer.
  pub new_stream : x.Ctx → x.World → x.Ctx × x.World
  pub stream_header : x.Ctx → x.World → Metadata
  pub stream_trailer : x.Ctx → x.World → Metadata
  pub no_metadata : Metadata
  pub metadata_join : Metadata → Metadata → Metadata
  -- `runtime.AnnotateIncomingContext`: the name of the method, and the path's template.
  pub annotate : x.Ctx → HttpRequest → String → String → Result x.Ctx
  -- `runtime.NewServerMetadataContext`: the header and the trailer.
  pub metadata_context : x.Ctx → Metadata → Metadata → x.Ctx
  -- `utilities.IOReaderFactory(req.Body)`
  pub read_body : HttpRequest → Result Body
  -- `err == io.EOF`
  pub is_eof : GoError → Bool
  -- `marshaler.NewDecoder(newReader()).Decode(&protoReq)`
  pub decode_create_account : HttpRequest → Body → CreateAccountRequest × Option GoError
  pub decode_verify_account : HttpRequest → Body → String × Option GoError
  pub decode_sign_in : HttpRequest → Body → SignInRequest × Option GoError
  pub decode_change_password : HttpRequest → Body → (String × String) × Option GoError
  pub decode_terminate_sessions : HttpRequest → Body → List String × Option GoError
  -- `req.ParseForm()`
  pub parse_form : HttpRequest → Result Form
  -- `runtime.PopulateQueryParameters`: the email and the URL.
  pub populate_verification_token : Form → Result (String × String)
  pub populate_change_password_token : Form → Result (String × String)
  -- `runtime.String`
  pub string_param : String → Result String
  -- A pattern on the path of a request.
  pub match_pattern : Pattern → HttpRequest → Option Params

module _ ⦃x : External⦄ where
  -- `AccountsServiceV1Server`
  abbrev pub Server : Type 0
  Server = x.Ctx → Request → M Process Response

  -- What is written: by `runtime.HTTPError` or by `runtime.ForwardResponseMessage`.
  pub data Reply : Type 0 where
    http_error : x.Ctx → GoError → Reply
    forwarded : x.Ctx → Response → Reply

module _ ⦃x : External⦄ (g : Rest) where
  -- What follows the call of the method.
  abbrev pub reply_to : x.Ctx → Outcome Response → Outcome Reply
  reply_to ctx (done response) = done (forwarded ctx response)
  reply_to ctx (fail e) = done (http_error ctx e)
  reply_to ctx panic = panic

  -- The handler's body under its stream's context.
  unfoldable pub answer :
      String
      → String
      → (x.Ctx → g.HttpRequest → Params → M Process Response)
      → x.Ctx
      → g.HttpRequest
      → Params
      → M Process Reply
  answer full_method template local_request ctx req params p =
      elim (g.annotate ctx req full_method template) [
        | err e ↦ (done (http_error ctx e), p)
        | ok annotated ↦
            let (r, p') = local_request annotated req params p in
            let header = g.metadata_join g.no_metadata (g.stream_header ctx p'.world) in
            let trailer = g.metadata_join g.no_metadata (g.stream_trailer ctx p'.world) in
            (reply_to (g.metadata_context annotated header trailer) r, p')
      ]

  -- The function that `mux.Handle` is given.
  unfoldable pub http_handler :
      String
      → String
      → (x.Ctx → g.HttpRequest → Params → M Process Response)
      → g.HttpRequest
      → Params
      → M Process Reply
  unfolding answer
  http_handler full_method template local_request req params p =
      let (ctx, w) = g.with_cancel (g.request_context req) p.world in
      let (stream_ctx, w') = g.new_stream ctx w in
      let (r, p') =
        answer full_method template local_request stream_ctx req params (record p { world = w' }) in
      (r, record p' { world = g.cancel ctx p'.world })
