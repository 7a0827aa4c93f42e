-- ===== src/System/Removed.antt =====
-- internal/service/service.go: the table of the accounts after `DeleteAccount`.
use accounts_service.Prelude.{
  String, Option, none, some, ◌<>◌, ◌≡◌, ◌≢◌, ◌∙◌, ap, sym, inl, inr, arith,
}
use accounts_service.Models.{Account, Session, SignInDto}
use accounts_service.External.{External, Message}
use accounts_service.Effect.{ok, done, Outcome-cases, Result-cases}
use accounts_service.Config.{AccountsServiceConfig}
use accounts_service.Redis.Sessions as Repository
use accounts_service.Postgres
use accounts_service.Postgres.Table.{IsTable, get_account_by_email_done}
use accounts_service.Postgres.Removal.{
  IsRemoval, without, without-other, get_account_email_done, delete_account_removes,
}
use accounts_service.Events
use accounts_service.Service.Process.{Process}
use accounts_service.Service.Sessions
use accounts_service.Service.Accounts

module _ ⦃x : External⦄ (rows : x.World → String → Option Account) (t : IsTable rows)
    (removal : IsRemoval rows) where
  rows-get_session :
      (ctx : x.Ctx) (id : String) (session : Session) (w : x.World)
      → (Repository.get_session ctx id w).0 ≡ done session
      → rows (Repository.get_session ctx id w).1 ≡ rows w
  unfolding Repository.get_session
  rows-get_session ctx id session w found =
      let got : (Repository.get_session ctx id w).1
          ≡ x.inc_cache_hits "GetSession" (x.sessions.get ctx id w).1 =
        ground arith in
      ap rows got ∙ t.rows-hits "GetSession" _ ∙ removal.rows-session_get ctx id w

  rows-check_session :
      (ctx : x.Ctx) (machine_id id : String) (session : Session) (p : Process)
      → (Sessions.check_session ctx machine_id id p).0 ≡ done session
      → rows (Sessions.check_session ctx machine_id id p).1.world ≡ rows p.world
  unfolding Sessions.check_session
  rows-check_session ctx machine_id id session p checked =
      elim (Outcome-cases (Repository.get_session ctx id p.world).0) [
        | inr failed ↦ absurd (grind (arith, failed))
        | inl (found, got) ↦
            let final : (Sessions.check_session ctx machine_id id p).1.world
                ≡ (Repository.get_session ctx id p.world).1 =
              ground arith in
            ap rows final ∙ rows-get_session ctx id found p.world got
      ]

  account_deleted_sends :
      (ctx : x.Ctx) (email id : String) (w : x.World)
      → (Events.account_deleted ctx email id w).0 ≡ done tt
      → (m : Message) × ((Events.account_deleted ctx email id w).1
          ≡ (x.account_events.write_messages ctx m w).1)
  unfolding Events.account_deleted
  account_deleted_sends ctx email id w sent =
      elim (Result-cases
        (x.json.marshal_account_deleted (record { email = email; account_id = id }))) [
          | inr (e, failed) ↦ absurd (ground arith)
          | inl (body, made) ↦ (
            record { topic = "account_deleted"; key = "account_" <> id; value = body },
            ground arith,
          )
        ]

  -- The deletion, its event and the commit.
  event-removes :
      (ctx : x.Ctx) (email account_id : String) (tx : x.Tx) (w : x.World)
      → (Postgres.delete_account ctx account_id w).0 ≡ done (some tx)
      → let sent =
          Events.account_deleted ctx email account_id
            (Postgres.delete_account ctx account_id w).1 in
        let committed = x.sql.commit tx sent.1 in
        sent.0 ≡ done tt
        → committed.0 ≡ ok tt
        → (e : String) → rows committed.1 e ≡ without (removal.uuid_text account_id) (rows w e)
  event-removes ctx email account_id tx w made sent committed e =
      let w2 = (Postgres.delete_account ctx account_id w).1 in
      let (m, wrote) = account_deleted_sends ctx email account_id w2 sent in
      let fits = ap (λ v. (x.sql.commit tx v).0) (sym wrote) ∙ committed in
      ap (λ v. rows (x.sql.commit tx v).1 e) wrote
      ∙ delete_account_removes rows removal ctx account_id tx m w made fits e

  -- If `DeleteAccount` succeeds, there was a row for the account of the caller's session. No row of
  -- this account is left, and all other rows are as they were. Assumed: a `DELETE` takes effect with
  -- the commit, and nothing else writes to the table during the operation.
  pub delete_account_row :
      (ctx : x.Ctx) (id machine_id : String) (p : Process)
      → let ended = Accounts.delete_account ctx id machine_id p in
        ended.0 ≡ done tt
        → (session : Session) × (email : String) × (account : Account) × ((Sessions.check_session
              ctx machine_id id p).0
            ≡ done session)
          × (rows p.world email ≡ some account)
          × (account.id ≡ removal.uuid_text session.account_id)
          × ((e : String)
              → rows ended.1.world e
                ≡ without (removal.uuid_text session.account_id) (rows p.world e))
  unfolding Accounts.delete_account Accounts.commit
  delete_account_row ctx id machine_id p ended =
      elim (Outcome-cases (Sessions.check_session ctx machine_id id p).0) [
        | inr failed ↦ absurd (grind (arith, failed))
        | inl (session, checked) ↦
            let w0 = (Sessions.check_session ctx machine_id id p).1.world in
            let account_id = session.account_id in
            elim (Outcome-cases (Postgres.get_account_email ctx account_id w0).0) [
              | inr failed ↦ absurd (grind (arith, failed))
              | inl (email, known) ↦
                  let w1 = (Postgres.get_account_email ctx account_id w0).1 in
                  let (kept, account, row, same) =
                    get_account_email_done rows removal ctx account_id email w0 known in
                  let before = rows-check_session ctx machine_id id session p checked in
                  elim (Outcome-cases (Postgres.delete_account ctx account_id w1).0) [
                    | inr failed ↦ absurd (grind (arith, failed))
                    | inl (none, nil) ↦ absurd (ground arith)
                    | inl (some tx, made) ↦
                        let w2 = (Postgres.delete_account ctx account_id w1).1 in
                        let w3 = (Events.account_deleted ctx email account_id w2).1 in
                        let final : (Accounts.delete_account ctx id machine_id p).1.world
                            ≡ (x.sql.commit tx w3).1 =
                          ground arith in
                        let removed =
                          event-removes ctx email account_id tx w1 made (grind arith)
                            (grind arith) in
                        (
                          session,
                          email,
                          account,
                          checked,
                          ap (λ r. r email) (sym before) ∙ row,
                          same,
                          λ e.
                              ap (λ w. rows w e) final
                              ∙ removed e
                              ∙ ap (λ r. without (removal.uuid_text account_id) (r e))
                                  (kept ∙ before),
                        )
                  ]
            ]
      ]

  -- After `DeleteAccount` has succeeded with a session of an account, and as long as nothing else
  -- writes a row for an email, whoever signs in with this email signs in to another account. Assumed:
  -- a `DELETE` takes effect with the commit, and nothing else writes to the table during the deletion.
  pub deleted_account_signs_in_no_more :
      (cfg : AccountsServiceConfig) (ctx ctx' : x.Ctx) (id machine_id signed_in : String)
      (session : Session) (dto : SignInDto) (p q : Process)
      → let ended = Accounts.delete_account ctx id machine_id p in
        ended.0 ≡ done tt
        → (Sessions.check_session ctx machine_id id p).0 ≡ done session
        → rows q.world dto.email ≡ rows ended.1.world dto.email
        → (Sessions.sign_in cfg ctx' dto q).0 ≡ done signed_in
        → (account : Account) × ((Postgres.get_account_by_email ctx' dto.email q.world).0
            ≡ done account)
          × (account.id ≢ removal.uuid_text session.account_id)
  unfolding Sessions.sign_in
  deleted_account_signs_in_no_more cfg ctx ctx' id machine_id signed_in session dto p q ended
        checked kept entered =
      let (session', email, deleted, checked', row, same, left) =
        delete_account_row ctx id machine_id p ended in
      elim (Outcome-cases (Postgres.get_account_by_email ctx' dto.email q.world).0) [
        | inr failed ↦ absurd (grind (arith, failed))
        | inl (account, found) ↦
            let is : rows q.world dto.email ≡ some account =
              get_account_by_email_done rows t ctx' dto.email account q.world found in
            let other =
              without-other (removal.uuid_text session'.account_id) (rows p.world dto.email) account
                (sym (left dto.email) ∙ sym kept ∙ is) in
            let same_session : Path Session session' session = cc in
            (account, found, rw (← same_session) other)
      ]
