-- ===== src/Redis/Handling.antt =====
-- internal/repository/redisrepository/redis.go: `handleError`, and the deferred `updateMetrics`
-- of the repositories.
use mathlib.Core.Option
use accounts_service.Prelude.{String, Option, none, some}
use accounts_service.Models.Errors.{ErrorCode, GoError, service_error, redis_nil, error, code}
use accounts_service.External.{
  External, CtxError, context_canceled, context_deadline_exceeded, context_other,
}
use accounts_service.Logs.{log_error, log_sessions_error, log_registration_error}
use accounts_service.Effect.{M, outcome_error, settle}

-- The code that a context's error is reported with; the zero value is `Unknown`.
unfoldable pub context_code : CtxError → ErrorCode
context_code context_canceled = ErrorCode.canceled
context_code context_deadline_exceeded = ErrorCode.deadline_exceeded
context_code context_other = ErrorCode.unknown

-- The second half of `handleError`: an error that is no `ServiceError` becomes one.
unfoldable pub convert_error : GoError → GoError
convert_error (service_error e) = service_error e
convert_error redis_nil = error ErrorCode.not_found "cache entity not found"
convert_error _ = error ErrorCode.internal "cache internal error"

module _ ⦃x : External⦄ where
  -- `handleError`: the value of `err` after it.
  unfoldable pub handle_error : x.Ctx → x.World → Option GoError → Option GoError
  unfolding context_code convert_error
  handle_error ctx w e = elim (x.ctx_err ctx w) [
    | some c ↦ some (error (context_code c) (x.ctx_err_text c))
    | none ↦ Option.map convert_error e
  ]

  -- `SessionsRepository.updateMetrics`
  unfoldable pub update_metrics : Option GoError → String → x.World → x.World
  update_metrics none method w = x.inc_cache_hits method w
  update_metrics (some e) method w = elim (code (some e)) [
    | ErrorCode.not_found ↦ x.inc_cache_miss method w
    | _ ↦ w
  ]

  -- The deferred calls of a method of `SessionsRepository`: `logError`, `handleError`, then
  -- `updateMetrics` on the error that it leaves.
  unfoldable pub with_defers : {A : Type 0} → x.Ctx → String → M x.World A → M x.World A
  unfolding handle_error update_metrics log_error
  with_defers ctx method body w =
      let (r, ended) = body w in
      let w' = log_sessions_error (outcome_error r) method ended in
      let e = handle_error ctx w' (outcome_error r) in (settle r e, update_metrics e method w')

  -- The deferred calls of a method of `RegistrationRepository`. The arguments of its `logError`
  -- and `updateMetrics` are evaluated at the `defer` statement, where `err` is nil.
  unfoldable pub with_early_defers : {A : Type 0} → x.Ctx → String → M x.World A → M x.World A
  unfolding handle_error update_metrics log_error
  with_early_defers ctx method body w =
      let (r, ended) = body w in
      let w' = log_registration_error none method ended in
      (settle r (handle_error ctx w' (outcome_error r)), update_metrics none method w')
