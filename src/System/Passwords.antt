-- ===== src/System/Passwords.antt =====
-- internal/service/service.go: `SignIn` after `ChangePassword`, over the table of the accounts.
use accounts_service.Prelude.{ℕ, String, Option, some, ◌≡◌, ◌≢◌, ◌∙◌, sym, ap, inl, inr, arith}
use accounts_service.Models.{Account, SignInDto}
use accounts_service.Models.Errors.{ErrorCode, error}
use accounts_service.External.{External}
use accounts_service.External.Redis.{Keys}
use accounts_service.Effect.{ok, done, fail, Result-cases}
use accounts_service.Config.{Config, AccountsServiceConfig, account_service_config}
use accounts_service.Postgres
use accounts_service.Postgres.Table.{IsTable, get_account_by_email_done, change_password_updates}
use accounts_service.Redis.Sessions.Store.{IsStore}
use accounts_service.Service.Process.{Process}
use accounts_service.Service.Sessions
use accounts_service.Service.Accounts
use accounts_service.Service.Lifecycle.{signed_in}
use accounts_service.Service.Registration.{change_password_done}
use accounts_service.Token.{parse_token}
use accounts_service.System.Backend.{IsBackend}
use accounts_service.System.Server.{IsReached}
use accounts_service.System.Usable.{reached-sign_in}

-- A hash fits its password.
pub record IsBcrypt ⦃x : External⦄ : Type 0 where
  pub own :
      (password hash : String) (cost : ℕ) (w : x.World)
      → (x.bcrypt.generate_from_password password cost w).0 ≡ ok hash
      → x.bcrypt.compare_hash_and_password hash password ≡ ok tt

module _ ⦃x : External⦄ where
  -- No hash that bcrypt makes of the first password fits the second. Bcrypt reads a password with a
  -- zero byte at its end, over and over, up to 72 bytes: passwords that agree in these, such as `p`
  -- and `p`, a zero byte and `p`, are not told apart.
  abbrev pub AreToldApart : String → String → Type 0
  AreToldApart password other =
      (hash : String) (cost : ℕ) (w : x.World)
      → (x.bcrypt.generate_from_password password cost w).0 ≡ ok hash
      → x.bcrypt.compare_hash_and_password hash other ≢ ok tt

module _ ⦃x : External⦄ (rows : x.World → String → Option Account) (t : IsTable rows) where
  -- The account's hash is one that was generated from the password.
  abbrev IsHashOf : Account → String → Type 0
  IsHashOf account password =
      (cost : ℕ) × (w : x.World) × ((x.bcrypt.generate_from_password password cost w).0
        ≡ ok account.password)

  change_password-IsHashOf :
      (cfg : AccountsServiceConfig) (ctx ctx' : x.Ctx) (token password email : String)
      (account : Account) (p q : Process)
      → (Accounts.change_password cfg ctx token password p).0 ≡ done tt
      → parse_token token cfg.change_password_token_secret p.world ≡ ok email
      → rows q.world email ≡ rows (Accounts.change_password cfg ctx token password p).1.world email
      → (Postgres.get_account_by_email ctx' email q.world).0 ≡ done account
      → IsHashOf account password
  change_password-IsHashOf cfg ctx ctx' token password email account p q changed parsed kept found =
      let (email', hash, parsed', exists, (hashed, stored)) =
        change_password_done cfg ctx token password p changed in
      let same : email' ≡ email = cc in
      let w = (Postgres.is_account_with_email_exist ctx email' p.world).1 in
      let w1 = (x.bcrypt.generate_from_password password cfg.bcrypt_cost w).1 in
      let (a, was, is, others) =
        change_password_updates rows t ctx email' hash w1 (ap (λ r. r.0) stored) in
      let row = get_account_by_email_done rows t ctx' email account q.world found in
      let after : rows q.world email ≡ some (record a { password = hash }) =
        kept ∙ ap (λ r. rows r.1 email) (sym stored) ∙ ap (rows _) (sym same) ∙ is in
      let found_row : Path Account account (record a { password = hash }) = cc in
      (cfg.bcrypt_cost, w, hashed ∙ ap ok (ap (λ r. r.password) (sym found_row)))

  -- After `ChangePassword` has succeeded for the account of an email, and as long as nothing else
  -- changes its row, `SignIn` with that email refuses every password that bcrypt tells apart from the
  -- new one, and has done nothing but look the account up. Assumed: an `UPDATE` that affects a row
  -- takes effect, and nothing else writes to the table during `ChangePassword`.
  pub other_password_refused :
      (cfg : AccountsServiceConfig) (ctx ctx' : x.Ctx) (token password : String) (dto : SignInDto)
      (account : Account) (p q : Process)
      → (Accounts.change_password cfg ctx token password p).0 ≡ done tt
      → parse_token token cfg.change_password_token_secret p.world ≡ ok dto.email
      → rows q.world dto.email
        ≡ rows (Accounts.change_password cfg ctx token password p).1.world dto.email
      → (Postgres.get_account_by_email ctx' dto.email q.world).0 ≡ done account
      → AreToldApart password dto.password
      → Sessions.sign_in cfg ctx' dto q ≡ (
        fail (error ErrorCode.invalid_argument "invalid login or password"),
        record q { world = (Postgres.get_account_by_email ctx' dto.email q.world).1 },
      )
  unfolding Sessions.sign_in
  other_password_refused cfg ctx ctx' token password dto account p q changed parsed kept found
        apart =
      let (cost, w, hashed) =
        change_password-IsHashOf cfg ctx ctx' token password dto.email account p q changed parsed
          kept found in
      elim (Result-cases (x.bcrypt.compare_hash_and_password account.password dto.password)) [
        | inl (_, matches) ↦ absurd (apart account.password cost w hashed matches)
        | inr (e, refused) ↦ ground arith
      ]

  -- In every state that the service reaches after `ChangePassword` has succeeded for the account of
  -- an email, as long as nothing else changes its row and over a reachable server, `SignIn` with that
  -- email and the new password gives a session with which `GetAccountID` gives the account's id to
  -- the machine that signed in. Assumed: a hash of bcrypt fits its password, the new session survives
  -- JSON, an `UPDATE` that affects a row takes effect, and nothing else writes to the table during
  -- `ChangePassword`.
  pub new_password_signs_in :
      (b : IsBcrypt) (keys : x.World → Keys) (k : IsBackend keys) (global : Config)
      (ctx ctx' : x.Ctx) (store : IsStore ctx' keys) (token : String) (dto : SignInDto)
      (account : Account) (body : String) (p q : Process)
      → let cfg = account_service_config global in
        (Accounts.change_password cfg ctx token dto.password p).0 ≡ done tt
        → parse_token token cfg.change_password_token_secret p.world ≡ ok dto.email
        → rows q.world dto.email
          ≡ rows (Accounts.change_password cfg ctx token dto.password p).1.world dto.email
        → (Postgres.get_account_by_email ctx' dto.email q.world).0 ≡ done account
        → IsReached keys global q
        → let w = (Postgres.get_account_by_email ctx' dto.email q.world).1 in
          let session = signed_in ctx' keys store dto account w in
          x.json.marshal_session session ≡ ok body
          → x.json.unmarshal_session body ≡ ok session
          → let ended = Sessions.sign_in cfg ctx' dto q in
            (ended.0 ≡ done session.session_id)
            × ((Sessions.get_account_id ctx' session.session_id dto.machine_id ended.1).0
                ≡ done account.id)
  new_password_signs_in b keys k global ctx ctx' store token dto account body p q changed parsed
        kept found reached encoded decoded =
      let cfg = account_service_config global in
      let (cost, w, hashed) =
        change_password-IsHashOf cfg ctx ctx' token dto.password dto.email account p q changed
          parsed kept found in
      let fits = b.own dto.password account.password cost w hashed in
      let (ended, named, others) =
        reached-sign_in keys k global ctx' store dto account body q reached found fits encoded
          decoded in
      (ended, named)
