-- ===== src/Gateway/Mux.antt =====
-- pkg/accounts_service/v1/protos/accounts_service_v1.pb.gw.go: the HTTP request of each call of a
-- method, and what `runtime.ServeMux` makes of a request.
use mathlib.Core.List.{Memᴰ}
use accounts_service.Prelude.{
  String, true, Option, none, some, List, [], ◌∷◌, ◌≡◌, refl, sym, ap, ◌∙◌,
}
use accounts_service.External.{External}
use accounts_service.Effect.{Result, ok}
use accounts_service.Models.Errors.{GoError}
use accounts_service.System.Server.{Request}
use accounts_service.Gateway.{Pattern, Rest, Server, Params, http_handler}
use accounts_service.Gateway.Opcodes.{run_pattern, is_known}
use accounts_service.Gateway.Requests.{LocalRequest, decoded, body_message, query_message}
use accounts_service.Gateway.Routes.{Route, routes}
use accounts_service.Gateway.Table.{routes-is_known, routes_unambiguous}

-- The method and the path's components, proto/accounts_service/v1/accounts_service_v1.proto.
abbrev pub address : Request → String × List String
address (Request.create_account _) = ("POST", "v1" ∷ "sign-up" ∷ [])
address Request.delete_account = ("DELETE", "v1" ∷ "account" ∷ [])
address (Request.request_account_verification_token _ _) = ("GET", "v1" ∷ "verification" ∷ [])
address (Request.verify_account token) = ("POST", "v1" ∷ "verification" ∷ token ∷ [])
address (Request.sign_in _) = ("POST", "v1" ∷ "sign-in" ∷ [])
address Request.get_account_id = ("GET", "v1" ∷ "account-id" ∷ [])
address Request.logout = ("POST", "v1" ∷ "logout" ∷ [])
address (Request.request_change_password_token _ _) = ("GET", "v1" ∷ "change" ∷ "password" ∷ [])
address (Request.change_password _ _) = ("POST", "v1" ∷ "change-password" ∷ [])
address Request.get_all_sessions = ("GET", "v1" ∷ "sessions" ∷ [])
address (Request.terminate_sessions _) = ("POST", "v1" ∷ "sessions" ∷ "terminate" ∷ [])

module _ ⦃x : External⦄ (g : Rest) where
  -- The text of the body is decoded to the message.
  abbrev HasBody :
      {A : Type 0} → (g.HttpRequest → g.Body → A × Option GoError) → g.HttpRequest → A → Type 0
  HasBody decode req a =
      (body : g.Body) × (g.read_body req ≡ ok body) × (decode req body ≡ (a, none))

  -- The parameters of the query are read as the message.
  abbrev HasQuery : {A : Type 0} → (g.Form → Result A) → g.HttpRequest → A → Type 0
  HasQuery populate req a = (form : g.Form) × (g.parse_form req ≡ ok form) × (populate form ≡ ok a)

  -- The HTTP request carries the message; the body of a verification may name any token.
  abbrev pub Carries : g.HttpRequest → Request → Type 0
  Carries req (Request.create_account m) = HasBody g.decode_create_account req m
  Carries req (Request.request_account_verification_token email url) =
      HasQuery g.populate_verification_token req (email, url)
  Carries req (Request.verify_account token) =
      ((other : String) × HasBody g.decode_verify_account req other)
      × (g.string_param token ≡ ok token)
  Carries req (Request.sign_in m) = HasBody g.decode_sign_in req m
  Carries req (Request.request_change_password_token email url) =
      HasQuery g.populate_change_password_token req (email, url)
  Carries req (Request.change_password token new_password) =
      HasBody g.decode_change_password req (token, new_password)
  Carries req (Request.terminate_sessions ids) = HasBody g.decode_terminate_sessions req ids
  Carries req _ = Unit

  -- `runtime.ServeMux`, which is not code of this repository: the method of a request, the components
  -- of a plain path, and the choice of a route with the bindings of its pattern.
  pub record Mux : Type 0 where
    pub method : g.HttpRequest → String
    pub path : g.HttpRequest → Option (List String)
    pub dispatch : List (Route g) → g.HttpRequest → Option (Route g × Params)
    -- A pattern is run as its opcodes say.
    pub matches :
        (p : Pattern) (req : g.HttpRequest) (components : List String)
        → is_known p ≡ true
        → path req ≡ some components
        → g.match_pattern p req ≡ run_pattern p components
    -- The routes of the request's method come first, and one whose pattern fits is chosen.
    pub chosen :
        (r : Route g) (rs : List (Route g)) (req : g.HttpRequest) (ps : Params)
        → Memᴰ r rs
        → r.method ≡ method req
        → g.match_pattern r.pattern req ≡ some ps
        → (s : Route g) × (qs : Params) × (dispatch rs req ≡ some (s, qs))
          × Memᴰ s rs
          × (s.method ≡ method req)
          × (g.match_pattern s.pattern req ≡ some qs)

module _ ⦃x : External⦄ (g : Rest) where
  pub body_message-HasBody :
      {A : Type 0} (decode : g.HttpRequest → g.Body → A × Option GoError) (req : g.HttpRequest)
      (a : A)
      → HasBody g decode req a
      → body_message g decode req ≡ ok a
  unfolding body_message decoded
  body_message-HasBody decode req a (body, got, made) = rw (body_message, got, made) refl

  pub query_message-HasQuery :
      {A : Type 0} (populate : g.Form → Result A) (req : g.HttpRequest) (a : A)
      → HasQuery g populate req a
      → query_message g populate req ≡ ok a
  unfolding query_message
  query_message-HasQuery populate req a (form, got, made) = rw (query_message, got, made) refl

module _ ⦃x : External⦄ (g : Rest) (server : Server) (mux : Mux g) where
  pub dispatch-route :
      (r : Route g) (req : g.HttpRequest) (cs : List String) (ps : Params)
      → Memᴰ r (routes g server)
      → mux.method req ≡ r.method
      → mux.path req ≡ some cs
      → run_pattern r.pattern cs ≡ some ps
      → mux.dispatch (routes g server) req ≡ some (r, ps)
  dispatch-route r req cs ps mem same at fits =
      let r_known = routes-is_known g server r mem in
      let r_match = mux.matches r.pattern req cs r_known at in
      let (s, qs, chosen, s_mem, s_method, s_match) =
        mux.chosen r (routes g server) req ps mem (sym same) (r_match ∙ fits) in
      let s_runs = mux.matches s.pattern req cs (routes-is_known g server s s_mem) at in
      let s_fits = sym s_runs ∙ s_match in
      let one =
        routes_unambiguous g server r s cs ps qs mem s_mem (sym same ∙ sym s_method) fits s_fits in
      let runs : Path (Option Params) (some qs) (some ps) =
        sym s_fits ∙ ap (λ t. run_pattern t.pattern cs) (sym one) ∙ fits in
      let bound : Path Params qs ps = cc in
      chosen ∙ ap (λ t. some (t, qs)) (sym one) ∙ ap (λ t. some (r, t)) bound

  -- The HTTP request is dispatched to a route whose handler calls the server with `r`, under the
  -- context that the gateway makes.
  abbrev pub IsDelivered : g.HttpRequest → Request → Type 0
  IsDelivered req r =
      (route : Route g) × (params : Params) × (name : String) × (template : String)
      × (local_request : LocalRequest g server) × (mux.dispatch (routes g server) req
          ≡ some (route, params))
      × (route.handler ≡ http_handler g name template local_request)
      × ((ctx : x.Ctx) → local_request ctx req params ≡ server ctx r)
