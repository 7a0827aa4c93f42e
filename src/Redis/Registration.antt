-- ===== src/Redis/Registration.antt =====
-- internal/repository/redisrepository/registrationRepository.go: the accounts that wait for
-- verification, each under its email.
use accounts_service.Prelude.{ℕ, String, Bool, not, num_eq}
use accounts_service.Models.{RegisteredAccount}
use accounts_service.External.{External}
use accounts_service.Effect.{M, pure, call, from_result, try, ◌>>=◌}
use accounts_service.Redis.Handling.{with_early_defers}

module _ ⦃x : External⦄ where
  -- `IsAccountExist`
  unfoldable pub is_account_exist : x.Ctx → String → M x.World Bool
  unfolding with_early_defers
  is_account_exist ctx email =
      with_early_defers ctx "IsAccountExist"
        do num ← call (x.registration.exists ctx email); pure (not (num_eq num 0))

  -- `SetAccount`: the error of `Set` is dropped.
  unfoldable pub set_account : x.Ctx → String → RegisteredAccount → ℕ → M x.World (Unit {0})
  unfolding with_early_defers
  set_account ctx email account ttl = with_early_defers ctx "SetAccount" do
    serialized ← from_result (x.json.marshal_registered account)
    _ ← try (call (x.registration.set ctx email serialized ttl))
    pure tt

  -- `GetAccount`
  unfoldable pub get_account : x.Ctx → String → M x.World RegisteredAccount
  unfolding with_early_defers
  get_account ctx email =
      with_early_defers ctx "GetAccount" do
        body ← call (x.registration.get ctx email)
        from_result (x.json.unmarshal_registered body)

  -- `DeleteAccount`
  unfoldable pub delete_account : x.Ctx → String → M x.World (Unit {0})
  unfolding with_early_defers
  delete_account ctx email =
      with_early_defers ctx "DeleteAccount" (call (x.registration.del ctx email))
