-- ===== src/System/Verified.antt =====
-- internal/service/service.go: the row that `VerifyAccount` leaves in the table of the accounts.
use accounts_service.Prelude.{String, Option, some, ◌≡◌, ◌∙◌, ap, arith}
use accounts_service.Models.{Account, RegisteredAccount, AccountCreatedDto}
use accounts_service.External.{External}
use accounts_service.Effect.{ok, done}
use accounts_service.Config.{Config}
use accounts_service.Redis.Registration
use accounts_service.Postgres
use accounts_service.Postgres.Table.{IsTable, create_account_inserts}
use accounts_service.Events
use accounts_service.Token.{parse_token}
use accounts_service.Service.Process.{Process}
use accounts_service.Service.Accounts
use accounts_service.Service.Activation.{verify_account_done}

module _ ⦃x : External⦄ (rows : x.World → String → Option Account) (t : IsTable rows) where
  rows-account_created :
      (ctx : x.Ctx) (account : AccountCreatedDto) (w : x.World)
      → rows (Events.account_created ctx account w).1 ≡ rows w
  unfolding Events.account_created
  rows-account_created ctx account w = grind (arith, t.rows-account_events)

  rows-delete_registered :
      (ctx : x.Ctx) (email : String) (w : x.World)
      → rows (Registration.delete_account ctx email w).1 ≡ rows w
  unfolding Registration.delete_account
  rows-delete_registered ctx email w = grind (arith, t.rows-registration_del, t.rows-hits)

  -- If `VerifyAccount` succeeds, there was a registration under the email that the token carries, and
  -- the table has a row for that email with the hash of the registration. Assumed: an `INSERT` takes
  -- effect with the commit, and nothing else writes to the table during the operation.
  pub verify_account_row :
      (global : Config) (ctx : x.Ctx) (token : String) (p : Process)
      → let ended = Accounts.verify_account global ctx token p in
        ended.0 ≡ done tt
        → (email : String) × (registered : RegisteredAccount) × (account : Account) × (parse_token
              token global.verify_account_token_secret p.world
            ≡ ok email)
          × ((Registration.get_account ctx email p.world).0 ≡ done registered)
          × (rows ended.1.world email ≡ some account)
          × (account.email ≡ email)
          × (account.password ≡ registered.password)
  unfolding Accounts.verify_account Accounts.activate_account
  verify_account_row global ctx token p verified =
      let (email, registered, tx, id, parsed, (found, made, committed, sent)) =
        verify_account_done global ctx token p verified in
      let w1 = (Registration.get_account ctx email p.world).1 in
      let row : Account = record {
        id = "";
        email = email;
        password = registered.password;
        registration_date = x.now w1;
      } in
      let w2 = (x.sql.commit tx (Postgres.create_account ctx row w1).1).1 in
      let (stored, there, own, named, hashed) =
        create_account_inserts rows t ctx row tx id w1 made committed in
      let event : AccountCreatedDto = record {
        id = id;
        username = registered.username;
        email = email;
        registration_date = x.now w1;
      } in
      let w3 = (Events.account_created ctx event w2).1 in
      let w4 = (Registration.delete_account ctx email w3).1 in
      let final : (Accounts.verify_account global ctx token p).1.world ≡ w4 = ground arith in
      let kept : rows w4 ≡ rows w2 =
        rows-delete_registered ctx email w3 ∙ rows-account_created ctx event w2 in
      (
        email,
        registered,
        stored,
        parsed,
        found,
        ap (λ w. rows w email) final ∙ ap (λ r. r email) kept ∙ there,
        named,
        hashed,
      )
