-- ===== src/Service/Registration.antt =====
-- internal/service/service.go: what a successful registration and a successful change of the
-- password have done, and errors of Redis that a registration does not report.
use accounts_service.Prelude.{ℕ, String, ◌≡◌, true, false, none, arith, inl, inr}
use accounts_service.Models.{Account, RegisteredAccount, CreateAccountDto, SignInDto}
use accounts_service.External.{External}
use accounts_service.Effect.{ok, done, Result-cases}
use accounts_service.Config.{AccountsServiceConfig}
use accounts_service.Redis.Registration
use accounts_service.Postgres
use accounts_service.Token.{parse_token}
use accounts_service.Service.Process.{Process}
use accounts_service.Service.Sessions
use accounts_service.Service.Accounts

module _ ⦃x : External⦄ where
  -- No account and no waiting registration had the email, the password was hashed, and the hash
  -- was handed to the registration repository with the configured TTL as the last call. No
  -- goroutine was started.
  abbrev IsRegistered : AccountsServiceConfig → x.Ctx → CreateAccountDto → Process → Type 0
  IsRegistered cfg ctx dto p =
      let w1 = (Postgres.is_account_with_email_exist ctx dto.email p.world).1 in
      let w2 = (Registration.is_account_exist ctx dto.email w1).1 in
      let hashing = x.bcrypt.generate_from_password dto.password cfg.bcrypt_cost w2 in
      (hash : String) × ((Postgres.is_account_with_email_exist ctx dto.email p.world).0
        ≡ done false)
      × ((Registration.is_account_exist ctx dto.email w1).0 ≡ done false)
      × (hashing.0 ≡ ok hash)
      × (Registration.set_account ctx dto.email
            (record { username = dto.username; password = hash }) cfg.nonactivated_account_ttl
            hashing.1
          ≡ (done tt, (Accounts.create_account cfg ctx dto p).1.world))
      × ((Accounts.create_account cfg ctx dto p).1.tasks ≡ p.tasks)

  -- If `CreateAccount` succeeds, no account and no waiting registration had the email, the
  -- password was hashed, and the hash was handed to the registration repository with the
  -- configured TTL as the last call. No goroutine was started.
  create_account_done :
      (cfg : AccountsServiceConfig) (ctx : x.Ctx) (dto : CreateAccountDto) (p : Process)
      → (Accounts.create_account cfg ctx dto p).0 ≡ done tt
      → IsRegistered cfg ctx dto p
  unfolding Accounts.create_account
  create_account_done cfg ctx dto p h =
      let w1 = (Postgres.is_account_with_email_exist ctx dto.email p.world).1 in
      let w2 = (Registration.is_account_exist ctx dto.email w1).1 in
      elim (Result-cases (x.bcrypt.generate_from_password dto.password cfg.bcrypt_cost w2).0) [
        | inl (hash, hashed) ↦
            (hash, ground arith, ground arith, hashed, ground arith, ground arith)
        | inr (e, failed) ↦ absurd (ground arith)
      ]

  -- `SetAccount` reports success whatever `SET` answers, if the account can be marshalled and the
  -- context is live afterwards.
  set_account_ignores :
      (ctx : x.Ctx) (email body : String) (account : RegisteredAccount) (ttl : ℕ) (w : x.World)
      → x.json.marshal_registered account ≡ ok body
      → let w' = (x.registration.set ctx email body ttl w).1 in
        x.ctx_err ctx w' ≡ none
        → Registration.set_account ctx email account ttl w
          ≡ (done tt, x.inc_cache_hits "SetAccount" w')
  unfolding Registration.set_account
  set_account_ignores ctx email body account ttl w encoded live = ground arith

  -- If `SignIn` succeeds, the password matches the hash of the account with that email.
  sign_in_needs_password :
      (cfg : AccountsServiceConfig) (ctx : x.Ctx) (dto : SignInDto) (session_id : String)
      (p : Process)
      → (Sessions.sign_in cfg ctx dto p).0 ≡ done session_id
      → (account : Account) × ((Postgres.get_account_by_email ctx dto.email p.world).0
          ≡ done account)
        × (x.bcrypt.compare_hash_and_password account.password dto.password ≡ ok tt)
  unfolding Sessions.sign_in
  sign_in_needs_password cfg ctx dto session_id p h = ground arith

  -- The token carries an email that has an account, the new password was hashed, and the
  -- repository's `ChangePassword` for that email and hash went through as the last call.
  abbrev IsChanged : AccountsServiceConfig → x.Ctx → String → String → Process → Type 0
  IsChanged cfg ctx token password p =
      (email : String) × (hash : String) × (parse_token token cfg.change_password_token_secret
          p.world
        ≡ ok email)
      × ((Postgres.is_account_with_email_exist ctx email p.world).0 ≡ done true)
      × (let w = (Postgres.is_account_with_email_exist ctx email p.world).1 in
          let hashing = x.bcrypt.generate_from_password password cfg.bcrypt_cost w in
          (hashing.0 ≡ ok hash)
          × (Postgres.change_password ctx email hash hashing.1
              ≡ (done tt, (Accounts.change_password cfg ctx token password p).1.world)))

  -- If `ChangePassword` succeeds, the token carries an email that has an account, the new
  -- password was hashed, and the repository's `ChangePassword` for that email and hash went
  -- through as the last call.
  pub change_password_done :
      (cfg : AccountsServiceConfig) (ctx : x.Ctx) (token password : String) (p : Process)
      → (Accounts.change_password cfg ctx token password p).0 ≡ done tt
      → IsChanged cfg ctx token password p
  unfolding Accounts.change_password
  change_password_done cfg ctx token password p h =
      elim (Result-cases (parse_token token cfg.change_password_token_secret p.world)) [
        | inr (e, failed) ↦ absurd (ground arith)
        | inl (email, parsed) ↦
            let w = (Postgres.is_account_with_email_exist ctx email p.world).1 in
            elim (Result-cases (x.bcrypt.generate_from_password password cfg.bcrypt_cost w).0) [
              | inr (e, failed) ↦ absurd (ground arith)
              | inl (hash, hashed) ↦ (email, hash, parsed, ground arith, (hashed, ground arith))
            ]
      ]
