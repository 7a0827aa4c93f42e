-- ===== src/Models/Errors.antt =====
-- internal/models/errors.go: the error codes, `ServiceError` and `Code`, with the other errors
-- that reach this code as further constructors of `GoError`.
use accounts_service.Prelude.{String, ◌<>◌, Option, none, some}

pub data ErrorCode : Type 0 where
  unknown internal invalid_argument unauthenticated conflict not_found canceled : ErrorCode
  deadline_exceeded permission_denied : ErrorCode

pub record ServiceError : Type 0 where
  pub msg : String
  pub code : ErrorCode

-- The codes of google.golang.org/grpc/codes that this program uses.
pub data GrpcCode : Type 0 where
  grpc_canceled grpc_unknown grpc_invalid_argument grpc_deadline_exceeded : GrpcCode
  grpc_not_found grpc_already_exists grpc_permission_denied grpc_unauthenticated : GrpcCode
  grpc_internal grpc_unimplemented : GrpcCode

-- A non-nil `error`, by what `errors.As`, `errors.Is` and `status.FromError` can tell of it.
pub data GoError : Type 0 where
  service_error : ServiceError → GoError
  status_error : GrpcCode → String → GoError
  redis_nil : GoError
  no_rows : GoError
  other_error : String → GoError

-- `ErrorCode.String`
unfoldable pub code_string : ErrorCode → String
code_string ErrorCode.internal = "Internal"
code_string ErrorCode.invalid_argument = "InvalidArgument"
code_string ErrorCode.unauthenticated = "Unauthenticated"
code_string ErrorCode.conflict = "Conflict"
code_string ErrorCode.not_found = "NotFound"
code_string ErrorCode.canceled = "Canceled"
code_string ErrorCode.deadline_exceeded = "DeadlineExceeded"
code_string ErrorCode.permission_denied = "PermissionDenied"
code_string ErrorCode.unknown = "Unknown"

-- `ServiceError.Error`
unfoldable pub error_string : ServiceError → String
error_string e = code_string e.code <> " " <> e.msg

-- `errors.As(err, &serviceErr)`
abbrev as_service_error : GoError → Option ServiceError
as_service_error (service_error e) = some e
as_service_error _ = none

-- `Code`
abbrev pub code : Option GoError → ErrorCode
code (some (service_error e)) = e.code
code _ = ErrorCode.unknown

-- `Error`
abbrev pub error : ErrorCode → String → GoError
error c m = service_error (record { msg = m; code = c })
