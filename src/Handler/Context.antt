-- ===== src/Handler/Context.antt =====
-- internal/handler/handler.go: the request's headers, and the conversion of errors.
use accounts_service.Prelude.{String, none, some, List, [], ◌∷◌, ◌==◌, if◌then◌else◌}
use accounts_service.Models.Errors.{
  ErrorCode, GrpcCode, GoError, service_error, status_error, grpc_internal, grpc_invalid_argument,
  grpc_unauthenticated, grpc_already_exists, grpc_not_found, grpc_canceled, grpc_deadline_exceeded,
  grpc_permission_denied, grpc_unknown,
}
use accounts_service.External.{External}
use accounts_service.Effect.{M, Result, ok, err, map_error}
use accounts_service.Service.Process.{Process}
use accounts_service.Service.Accounts.{error_text}

-- `convertServiceErrCodeToGrpc`
unfoldable pub convert_code : ErrorCode → GrpcCode
convert_code ErrorCode.internal = grpc_internal
convert_code ErrorCode.invalid_argument = grpc_invalid_argument
convert_code ErrorCode.unauthenticated = grpc_unauthenticated
convert_code ErrorCode.conflict = grpc_already_exists
convert_code ErrorCode.not_found = grpc_not_found
convert_code ErrorCode.canceled = grpc_canceled
convert_code ErrorCode.deadline_exceeded = grpc_deadline_exceeded
convert_code ErrorCode.permission_denied = grpc_permission_denied
convert_code ErrorCode.unknown = grpc_unknown

abbrev session_id_header : String
session_id_header = "X-Session-Id"

abbrev machine_id_header : String
machine_id_header = "X-Machine-Id"

abbrev pub account_id_header : String
account_id_header = "X-Account-Id"

-- The first value of a header, unless it is missing or empty.
abbrev pub first_value : List String → GoError → Result String
first_value [] missing = err missing
first_value (v ∷ vs) missing = if v == "" then err missing else ok v

module _ ⦃x : External⦄ where
  -- `handleError`, on a non-nil error.
  unfoldable pub convert_error : GoError → GoError
  unfolding convert_code
  convert_error (service_error e) = status_error (convert_code e.code) e.msg
  convert_error (status_error c msg) = status_error c msg
  convert_error e = status_error grpc_unknown (error_text e)

  -- `defer h.handleError(&err)`
  unfoldable pub with_handler : {A : Type 0} → M Process A → M Process A
  unfolding convert_error
  with_handler m = map_error convert_error m

  -- `getSessionIDFromCtx`
  unfoldable pub session_id_of : x.Ctx → Result String
  session_id_of ctx = elim (x.incoming_metadata ctx) [
    | none ↦ err (status_error grpc_unauthenticated "no context metadata provided")
    | some md ↦
        first_value (md session_id_header)
          (status_error grpc_unauthenticated "no session id provided")
  ]

  -- `getMachineIDFromCtx`
  unfoldable pub machine_id_of : x.Ctx → Result String
  machine_id_of ctx = elim (x.incoming_metadata ctx) [
    | none ↦ err (status_error grpc_unauthenticated "no context metadata provided")
    | some md ↦
        first_value (md machine_id_header)
          (status_error grpc_unauthenticated "no machine id provided")
  ]

  -- `getAuthHeaders`: the session id and the machine id.
  unfoldable pub auth_headers : x.Ctx → Result (String × String)
  unfolding session_id_of machine_id_of
  auth_headers ctx = elim (session_id_of ctx) [
    | err e ↦ err e
    | ok session_id ↦ elim (machine_id_of ctx) [
      | err e ↦ err e
      | ok machine_id ↦ ok (session_id, machine_id)
    ]
  ]
