-- ===== src/Handler/Laws.antt =====
-- internal/handler/handler.go: the status of every failure, and the methods that need a session.
use accounts_service.Prelude.{
  String, ◌≡◌, ◌≢◌, some, List, [], ◌∷◌, eq_iff, arith, Option-cases, inl, inr,
}
use accounts_service.Models.Errors.{
  ErrorCode, GoError, ServiceError, service_error, status_error, grpc_unauthenticated,
}
use accounts_service.External.{External}
use accounts_service.Effect.{M, ok, err, fail}
use accounts_service.Service.Process.{Process}
use accounts_service.Handler.Context as Context
use accounts_service.Handler.Methods as Methods

-- Different codes of the service have different status codes.
convert_code_injective : (c d : ErrorCode) → Context.convert_code c ≡ Context.convert_code d → c ≡ d
unfolding Context.convert_code
convert_code_injective c d h = ground arith

module _ ⦃x : External⦄ where
  -- The status of the error that a service call ends in.
  with_handler-service_error :
      {A : Type 0} (m : M Process A) (e : ServiceError) (p : Process)
      → (m p).0 ≡ fail (service_error e)
      → Context.with_handler m p
        ≡ (fail (status_error (Context.convert_code e.code) e.msg), (m p).1)
  unfolding Context.with_handler
  with_handler-service_error m e p h = ground arith

  -- The first value of a header of the request, if it is there and not empty.
  abbrev pub HasHeader : x.Ctx → String → String → Type 0
  HasHeader ctx name value =
      (md : String → List String) × (rest : List String) × (x.incoming_metadata ctx ≡ some md)
      × (md name ≡ value ∷ rest)
      × (value ≢ "")

  first_value_ok :
      (vs : List String) (e : GoError) (v : String)
      → Context.first_value vs e ≡ ok v
      → (rest : List String) × (vs ≡ v ∷ rest) × (v ≢ "")
  first_value_ok [] e v h = cc
  first_value_ok (u ∷ us) e v h = (us, ground (arith, eq_iff u ""), ground (arith, eq_iff u ""))

  session_id_of_ok :
      (ctx : x.Ctx) (v : String) → Context.session_id_of ctx ≡ ok v → HasHeader ctx "X-Session-Id" v
  unfolding Context.session_id_of
  session_id_of_ok ctx v h = elim (Option-cases (x.incoming_metadata ctx)) [
    | inl nothing ↦ absurd (ground arith)
    | inr (md, e) ↦
        let (rest, listed, filled) =
          first_value_ok (md "X-Session-Id")
            (status_error grpc_unauthenticated "no session id provided") v (ground arith) in
        (md, rest, e, listed, filled)
  ]

  machine_id_of_ok :
      (ctx : x.Ctx) (v : String) → Context.machine_id_of ctx ≡ ok v → HasHeader ctx "X-Machine-Id" v
  unfolding Context.machine_id_of
  machine_id_of_ok ctx v h = elim (Option-cases (x.incoming_metadata ctx)) [
    | inl nothing ↦ absurd (ground arith)
    | inr (md, e) ↦
        let (rest, listed, filled) =
          first_value_ok (md "X-Machine-Id")
            (status_error grpc_unauthenticated "no machine id provided") v (ground arith) in
        (md, rest, e, listed, filled)
  ]

  pub auth_headers_ok :
      (ctx : x.Ctx) (session_id machine_id : String)
      → Context.auth_headers ctx ≡ ok (session_id, machine_id)
      → HasHeader ctx "X-Session-Id" session_id × HasHeader ctx "X-Machine-Id" machine_id
  unfolding Context.auth_headers
  auth_headers_ok ctx session_id machine_id h = (
    session_id_of_ok ctx session_id (ground arith),
    machine_id_of_ok ctx machine_id (ground arith),
  )

  auth_headers_error :
      (ctx : x.Ctx) (e : GoError)
      → Context.auth_headers ctx ≡ err e
      → (msg : String) × (e ≡ status_error grpc_unauthenticated msg)
  unfolding Context.auth_headers
  auth_headers_error ctx e h = ground arith

  -- The method ends with this error, and leaves the process as it is.
  abbrev pub RefusedWith : {A : Type 0} → M Process A → Process → GoError → Type 0
  RefusedWith m p e = m p ≡ (fail e, p)

  -- Without both headers every method that needs a session is refused with the status
  -- Unauthenticated, and the process stays as it is.
  headers_required :
      (ctx : x.Ctx) (e : GoError) (ids : List String) (p : Process)
      → Context.auth_headers ctx ≡ err e
      → (msg : String) × (e ≡ status_error grpc_unauthenticated msg)
        × RefusedWith (Methods.get_account_id ctx) p e
        × RefusedWith (Methods.logout ctx) p e
        × RefusedWith (Methods.get_all_sessions ctx) p e
        × RefusedWith (Methods.terminate_sessions ctx ids) p e
        × RefusedWith (Methods.delete_account ctx) p e
  unfolding Methods.get_account_id Methods.logout Methods.get_all_sessions
      Methods.terminate_sessions Methods.delete_account
  headers_required ctx e ids p missing =
      let (msg, status) = auth_headers_error ctx e missing in
      (msg, status, ground arith, ground arith, ground arith, ground arith, ground arith)
