-- ===== src/Service/Activation.antt =====
-- internal/service/service.go: verifying an account, on the path that goes through and on one
-- that fails half-way.
use accounts_service.Prelude.{inl, inr, ℕ, String, ◌≡◌, none, some, [], ◌∷◌, arith}
use accounts_service.Models.{Account, RegisteredAccount, AccountCreatedDto}
use accounts_service.Models.Errors.{GoError}
use accounts_service.External.{External, text, instant}
use accounts_service.Effect.{ok, err, done, panic, Outcome-cases, Result-cases}
use accounts_service.Config.{Config}
use accounts_service.Redis.Registration
use accounts_service.Postgres
use accounts_service.Events
use accounts_service.Token
use accounts_service.Service.Process.{Process}
use accounts_service.Service.Accounts

module _ ⦃x : External⦄ where
  -- The row that `createAccount` inserts.
  abbrev row : String → RegisteredAccount → ℕ → Account
  row email registered time = record {
    id = "";
    email = email;
    password = registered.password;
    registration_date = time;
  }

  -- If the insertion fails, the rollback goes through and the context is live, the repository's
  -- `CreateAccount` reports success with a nil transaction.
  create_account-insert_error :
      (ctx : x.Ctx) (account : Account) (tx : x.Tx) (e : GoError) (w : x.World)
      → let begun = x.sql.begin_tx ctx w in
        begun.0 ≡ ok tx
        → let values =
            text account.email ∷ text account.password ∷ instant account.registration_date ∷ [] in
          let scanned = x.sql.tx_query_row_scan ctx tx Postgres.insert_query values begun.1 in
          scanned.0 ≡ err e
          → let undone = x.sql.rollback tx scanned.1 in
            undone.0 ≡ ok tt
            → x.ctx_err ctx undone.1 ≡ none
            → Postgres.create_account ctx account w ≡ (done (none, ""), undone.1)
  unfolding Postgres.create_account
  create_account-insert_error ctx account tx e w begun scanned undone live = ground arith

  -- If the token is valid, a registration of its email is waiting, the insertion of the account
  -- fails, its rollback goes through and the context is live, `VerifyAccount` panics, and the
  -- rollback is the last call: no event is sent.
  pub verify_account-insert_error :
      (global : Config) (ctx : x.Ctx) (token email : String) (registered : RegisteredAccount)
      (tx : x.Tx) (e : GoError) (p : Process)
      → Token.parse_token token global.verify_account_token_secret p.world ≡ ok email
      → let waiting = Registration.get_account ctx email p.world in
        waiting.0 ≡ done registered
        → let begun = x.sql.begin_tx ctx waiting.1 in
          begun.0 ≡ ok tx
          → let values = text email ∷ text registered.password ∷ instant (x.now waiting.1) ∷ [] in
            let scanned = x.sql.tx_query_row_scan ctx tx Postgres.insert_query values begun.1 in
            scanned.0 ≡ err e
            → let undone = x.sql.rollback tx scanned.1 in
              undone.0 ≡ ok tt
              → x.ctx_err ctx undone.1 ≡ none
              → Accounts.verify_account global ctx token p ≡ (panic, record p { world = undone.1 })
  unfolding Accounts.verify_account Accounts.activate_account
  verify_account-insert_error global ctx token email registered tx e p parsed waiting begun scanned
        undone live =
      let time = x.now (Registration.get_account ctx email p.world).1 in
      let stopped =
        create_account-insert_error ctx (row email registered time) tx e
          (Registration.get_account ctx email p.world).1 begun scanned undone live in
      ground arith

  -- The token carries the email of a waiting registration, whose hash was inserted, the
  -- transaction was committed, and after the commit the event with the new id was written.
  abbrev IsVerified : Config → x.Ctx → String → Process → Type 0
  IsVerified global ctx token p =
      (email : String) × (registered : RegisteredAccount) × (tx : x.Tx) × (id : String)
      × (Token.parse_token token global.verify_account_token_secret p.world ≡ ok email)
      × (let waiting = Registration.get_account ctx email p.world in
          let time = x.now waiting.1 in
          let created = Postgres.create_account ctx (row email registered time) waiting.1 in
          let committed = x.sql.commit tx created.1 in
          let account : AccountCreatedDto = record {
            id = id;
            username = registered.username;
            email = email;
            registration_date = time;
          } in
          (waiting.0 ≡ done registered)
          × (created.0 ≡ done (some tx, id))
          × (committed.0 ≡ ok tt)
          × ((Events.account_created ctx account committed.1).0 ≡ done tt))

  -- If a verification succeeds, the token carries the email of a waiting registration, whose hash
  -- was inserted, the transaction was committed, and after the commit the event with the new id
  -- was written.
  pub verify_account_done :
      (global : Config) (ctx : x.Ctx) (token : String) (p : Process)
      → (Accounts.verify_account global ctx token p).0 ≡ done tt
      → IsVerified global ctx token p
  unfolding Accounts.verify_account Accounts.activate_account
  verify_account_done global ctx token p h =
      elim (Result-cases (Token.parse_token token global.verify_account_token_secret p.world)) [
        | inr (e, failed) ↦ absurd (ground arith)
        | inl (email, parsed) ↦
            let waiting = Registration.get_account ctx email p.world in
            elim (Outcome-cases waiting.0) [
              | inr failed ↦ absurd (grind (arith, failed))
              | inl (registered, found) ↦
                  let created =
                    Postgres.create_account ctx (row email registered (x.now waiting.1))
                      waiting.1 in
                  elim (Outcome-cases created.0) [
                    | inr failed ↦ absurd (grind (arith, failed))
                    | inl ((none, id), nil) ↦ absurd (ground arith)
                    | inl ((some tx, id), made) ↦ (
                      email,
                      registered,
                      tx,
                      id,
                      parsed,
                      (found, made, ground arith, ground arith),
                    )
                  ]
            ]
      ]
