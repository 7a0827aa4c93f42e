-- ===== src/Redis/Metrics.antt =====
-- What the registration repository logs and counts when it has no registration.
use accounts_service.Prelude.{String, ◌≡◌, none, arith}
use accounts_service.Models.Errors.{ErrorCode, redis_nil, error}
use accounts_service.External.{External}
use accounts_service.Effect.{err, fail}
use accounts_service.Redis.Registration

module _ ⦃x : External⦄ where
  -- `GetAccount` of a registration that Redis does not have ends in "not found", logs nothing and
  -- counts a hit. The context is live.
  get_account_miss :
      (ctx : x.Ctx) (email : String) (w : x.World)
      → let got = x.registration.get ctx email w in
        got.0 ≡ err redis_nil
        → x.ctx_err ctx got.1 ≡ none
        → Registration.get_account ctx email w ≡ (
          fail (error ErrorCode.not_found "cache entity not found"),
          x.inc_cache_hits "GetAccount" got.1,
        )
  unfolding Registration.get_account
  get_account_miss ctx email w missing live = ground arith
