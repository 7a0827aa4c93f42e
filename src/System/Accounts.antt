-- ===== src/System/Accounts.antt =====
-- internal/service/service.go: what the operations on accounts do to the sessions database and to
-- the goroutines.
use accounts_service.Prelude.{String, Option, none, some, refl, arith}
use accounts_service.Models.{CreateAccountDto}
use accounts_service.External.{External}
use accounts_service.External.Redis.{Keys}
use accounts_service.Config.{Config, AccountsServiceConfig}
use accounts_service.Service.Process.{Process}
use accounts_service.Service.Accounts
use accounts_service.Postgres
use accounts_service.Redis.Registration
use accounts_service.System.Backend.{IsBackend}
use accounts_service.System.Invariant.{IsSame}
use accounts_service.System.Frame.{
  keys-is_account_exist, keys-set_account, keys-get_registered, keys-delete_registered,
  keys-create_account, keys-is_account_with_email_exist, keys-change_password, keys-account_created,
  keys-request_email_verification, keys-request_change_password,
}

module _ ⦃x : External⦄ (keys : x.World → Keys) (b : IsBackend keys) where
  pub create_account-IsSame :
      (cfg : AccountsServiceConfig) (ctx : x.Ctx) (dto : CreateAccountDto) (p : Process)
      → IsSame keys p (Accounts.create_account cfg ctx dto p).1
  unfolding Accounts.create_account
  create_account-IsSame cfg ctx dto p =
      let s = b.separate in
      let w1 = (Postgres.is_account_with_email_exist ctx dto.email p.world).1 in
      let w2 = (Registration.is_account_exist ctx dto.email w1).1 in
      let f1 = keys-is_account_with_email_exist keys s ctx dto.email p.world in
      let f2 = keys-is_account_exist keys s ctx dto.email w1 in
      let f3 = s.keys-generate dto.password cfg.bcrypt_cost w2 in
      let f4 = keys-set_account keys s ctx dto.email in
      (grind (arith, f1, f2, f3, f4), ground arith)

  pub request_account_verification_token-IsSame :
      (cfg : AccountsServiceConfig) (ctx : x.Ctx) (email url : String) (p : Process)
      → IsSame keys p (Accounts.request_account_verification_token cfg ctx email url p).1
  unfolding Accounts.request_account_verification_token
  request_account_verification_token-IsSame cfg ctx email url p =
      let s = b.separate in
      let w1 = (Postgres.is_account_with_email_exist ctx email p.world).1 in
      let w2 = (Registration.is_account_exist ctx email w1).1 in
      let f1 = keys-is_account_with_email_exist keys s ctx email p.world in
      let f2 = keys-is_account_exist keys s ctx email w1 in
      let f3 = keys-request_email_verification keys s ctx email in
      (grind (arith, f1, f2, f3), ground arith)

  pub request_change_password_token-IsSame :
      (cfg : AccountsServiceConfig) (ctx : x.Ctx) (email url : String) (p : Process)
      → IsSame keys p (Accounts.request_change_password_token cfg ctx email url p).1
  unfolding Accounts.request_change_password_token
  request_change_password_token-IsSame cfg ctx email url p =
      let s = b.separate in
      let w1 = (Postgres.is_account_with_email_exist ctx email p.world).1 in
      let f1 = keys-is_account_with_email_exist keys s ctx email p.world in
      let f2 = keys-request_change_password keys s ctx email in
      (grind (arith, f1, f2), ground arith)

  pub change_password-IsSame :
      (cfg : AccountsServiceConfig) (ctx : x.Ctx) (token new_password : String) (p : Process)
      → IsSame keys p (Accounts.change_password cfg ctx token new_password p).1
  unfolding Accounts.change_password
  change_password-IsSame cfg ctx token new_password p =
      let s = b.separate in
      let f1 = keys-is_account_with_email_exist keys s ctx in
      let f2 = s.keys-generate new_password cfg.bcrypt_cost in
      let f3 = keys-change_password keys s ctx in (grind (arith, f1, f2, f3), ground arith)

  pub commit-IsSame : (tx : Option x.Tx) (p : Process) → IsSame keys p (Accounts.commit tx p).1
  unfolding Accounts.commit
  commit-IsSame none p = (λ m h. h, refl)
  commit-IsSame (some tx) p =
      let f1 = b.separate.keys-commit tx p.world in (ground (arith, f1), ground arith)

  activate_account-IsSame :
      (ctx : x.Ctx) (email : String) (p : Process)
      → IsSame keys p (Accounts.activate_account ctx email p).1
  unfolding Accounts.activate_account
  activate_account-IsSame ctx email p =
      let s = b.separate in
      let f1 = keys-get_registered keys s ctx email p.world in
      let w1 = (Registration.get_account ctx email p.world).1 in
      let f2 = keys-create_account keys s ctx in
      let f3 = s.keys-commit in
      let f4 = keys-account_created keys s ctx in
      let f5 = keys-delete_registered keys s ctx email in
      (grind (arith, f1, f2, f3, f4, f5), ground arith)

  pub verify_account-IsSame :
      (global : Config) (ctx : x.Ctx) (token : String) (p : Process)
      → IsSame keys p (Accounts.verify_account global ctx token p).1
  unfolding Accounts.verify_account
  verify_account-IsSame global ctx token p =
      let f : (email : String) → IsSame keys p (Accounts.activate_account ctx email p).1 =
        λ email. activate_account-IsSame ctx email p in
      (grind (arith, f), grind (arith, f))
