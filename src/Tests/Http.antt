-- ===== src/Tests/Http.antt =====
-- The REST gateway over the server in memory: the first route that fits is chosen, and a text is
-- decoded to the messages that it spells.
use mathlib.Core.List.{Memᴰ}
use mathlib.Core.List.Memᴰ.{head, tail}
use accounts_service.Prelude.{
  String, false, ◌==◌, Bool-cases, Option, none, some, Option-cases, List, [], ◌∷◌, ◌≡◌, refl, inl,
  inr, eq_iff, if◌then◌else◌, sym, ◌∙◌, ap,
}
use accounts_service.Effect.{ok}
use accounts_service.System.Server.{Request, serve}
use accounts_service.Gateway.{Pattern, Rest, Params}
use accounts_service.Gateway.Opcodes.{run_pattern}
use accounts_service.Gateway.Routes
use accounts_service.Gateway.Routes.{Route, routes}
use accounts_service.Gateway.Mux.{Mux, IsDelivered}
use accounts_service.Gateway.Table.{routes_unambiguous}
use accounts_service.Gateway.RoundTrip.{request-IsDelivered}
use accounts_service.Tests.Memory.{memory}
use accounts_service.Tests.Worlds.{configured, request}

pub record HttpRequest : Type 0 where
  pub method : String
  pub path : List String
  pub body : String

abbrev pub rest : Rest ⦃x = memory⦄
rest = record {
  HttpRequest = HttpRequest;
  Body = String;
  Form = String;
  Metadata = List String;
  request_context = λ req. request;
  with_cancel = λ ctx w. (ctx, w);
  cancel = λ ctx w. w;
  new_stream = λ ctx w. (ctx, w);
  stream_header = λ ctx w. [];
  stream_trailer = λ ctx w. [];
  no_metadata = [];
  metadata_join = λ a b. b;
  annotate = λ ctx req name template. ok ctx;
  metadata_context = λ ctx header trailer. ctx;
  read_body = λ req. ok req.body;
  is_eof = λ e. false;
  decode_create_account =
      λ req b. (record { email = b; username = b; password = b; repeat_password = b }, none);
  decode_verify_account = λ req b. (b, none);
  decode_sign_in =
      λ req b. (record { email = b; password = "secret"; client_ip = "10.0.0.1" }, none);
  decode_change_password = λ req b. ((b, b), none);
  decode_terminate_sessions = λ req b. (b ∷ [], none);
  parse_form = λ req. ok req.body;
  populate_verification_token = λ f. ok (f, f);
  populate_change_password_token = λ f. ok (f, f);
  string_param = λ v. ok v;
  match_pattern = λ p req. run_pattern p req.path;
}

abbrev PathRoute : Type 0
PathRoute = Route ⦃x = memory⦄ rest

abbrev pick : List PathRoute → HttpRequest → Option (PathRoute × Params)
pick [] req = none
pick (r ∷ rs) req =
    let later = pick rs req in
    if r.method == req.method
    then elim (run_pattern r.pattern req.path) [ none ↦ later | some ps ↦ some (r, ps) ]
    else later

abbrev Chosen : List PathRoute → HttpRequest → Type 0
Chosen rs req =
    (s : PathRoute) × (qs : Params) × (pick rs req ≡ some (s, qs))
    × Memᴰ s rs
    × (s.method ≡ req.method)
    × (run_pattern s.pattern req.path ≡ some qs)

Chosen-later :
    (r : PathRoute) (rs : List PathRoute) (req : HttpRequest)
    → pick (r ∷ rs) req ≡ pick rs req
    → Chosen rs req
    → Chosen (r ∷ rs) req
Chosen-later r rs req same (s, qs, picked, mem, method, fits) =
    (s, qs, same ∙ picked, tail mem, method, fits)

pick-Chosen :
    (r : PathRoute) (rs : List PathRoute) (req : HttpRequest) (ps : Params)
    → Memᴰ r rs
    → r.method ≡ req.method
    → run_pattern r.pattern req.path ≡ some ps
    → Chosen rs req
pick-Chosen r [] req ps mem method fits = elim mem [ ]
pick-Chosen r (t ∷ rs) req ps (head same) method fits =
    let method_t : t.method ≡ req.method = ap (λ u. u.method) (sym same) ∙ method in
    let fits_t : run_pattern t.pattern req.path ≡ some ps =
      ap (λ u. run_pattern u.pattern req.path) (sym same) ∙ fits in
    (t, ps, rw ((eq_iff t.method req.method).1 method_t, fits_t) refl, head refl, method_t, fits_t)
pick-Chosen r (t ∷ rs) req ps (tail mem) method fits =
    let later = pick-Chosen r rs req ps mem method fits in
    elim (Bool-cases (t.method == req.method)) [
      | inr other ↦ Chosen-later t rs req (rw other refl) later
      | inl same ↦ elim (Option-cases (run_pattern t.pattern req.path)) [
        | inl misfit ↦ Chosen-later t rs req (rw (same, misfit) refl) later
        | inr (qs, fits_t) ↦
            (t, qs, rw (same, fits_t) refl, head refl, (eq_iff t.method req.method).0 same, fits_t)
      ]
    ]

run_pattern-path :
    (p : Pattern) (path components : List String)
    → some path ≡ some components
    → run_pattern p path ≡ run_pattern p components
run_pattern-path p path components at = cc

abbrev mux : Mux ⦃x = memory⦄ rest
mux = record {
  method = λ req. req.method;
  path = λ req. some req.path;
  dispatch = pick;
  matches = λ p req components known at. run_pattern-path p req.path components at;
  chosen = pick-Chosen;
}

abbrev sign_in_again : PathRoute
sign_in_again = Routes.sign_in_route rest (serve configured)

-- The body names another token.
abbrev verifying : HttpRequest
verifying = record { method = "POST"; path = "v1" ∷ "verification" ∷ "token" ∷ []; body = "other" }

request-IsDelivered_example :
    IsDelivered rest (serve configured) mux verifying (Request.verify_account "token")
request-IsDelivered_example =
    request-IsDelivered rest (serve configured) mux (Request.verify_account "token") verifying refl
      refl (("other", ("other", refl, refl)), refl)

routes_unambiguous_example : sign_in_again ≡ sign_in_again
unfolding routes
routes_unambiguous_example =
    routes_unambiguous rest (serve configured) sign_in_again sign_in_again ("v1" ∷ "sign-in" ∷ [])
      [] [] (tail (tail (tail (tail (head refl))))) (tail (tail (tail (tail (head refl))))) refl
      refl refl
