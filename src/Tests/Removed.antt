-- ===== src/Tests/Removed.antt =====
-- The deletion of Alice's account over the server in memory.
use accounts_service.Prelude.{
  String, Option, none, some, ◌==◌, ◌≡◌, ◌≢◌, ◌∙◌, sym, ap, refl, arith, eq_iff, if◌then◌else◌,
}
use accounts_service.Models.{Account, Session, SignInDto}
use accounts_service.Effect.{ok, err, done}
use accounts_service.Models.Errors.{no_rows}
use accounts_service.Postgres.Removal.{IsRemoval, without}
use accounts_service.Service.Process.{Process}
use accounts_service.Service.Accounts
use accounts_service.Service.Sessions
use accounts_service.Postgres
use accounts_service.Events
use accounts_service.Redis.Sessions as Repository
use accounts_service.Config.{account_service_config}
use accounts_service.System.Removed.{delete_account_row, deleted_account_signs_in_no_more}
use accounts_service.Tests.Memory.{memory, session_at, email_of}
use accounts_service.Tests.Worlds.{world, running, configured}
use accounts_service.Tests.Passwords.{rows, memory-IsTable}

email_found :
    (id email : String) (row : Option Account)
    → email_of id row ≡ ok email
    → (a : Account) × (row ≡ some a) × ("alice@example.org" ≡ email) × (a.id ≡ id)
email_found id email none found = cc
email_found id email (some a) found =
    let chosen : (if a.id == id then ok "alice@example.org" else err no_rows) ≡ ok email = found in
    (a, refl, ground arith, ground (arith, eq_iff a.id id))

abbrev memory-IsRemoval : IsRemoval ⦃x = memory⦄ rows
memory-IsRemoval = record {
  uuid_text = λ id. id;
  email_sound = λ ctx id email w found.
      let (a, row, same, own) = email_found id email (w.rows "alice@example.org") found in
      (a, ap (λ e. w.rows e) (sym same) ∙ row, own);
  removed = λ ctx id tx res m w began executed committed e. refl;
  rows-get_string = λ ctx query vs w. refl;
  rows-session_get = λ ctx k w. refl;
}

-- Alice deletes her account.
abbrev after : Process ⦃x = memory⦄
after = (Accounts.delete_account none "s1" "laptop" (running world)).1

delete_account_row_example :
    (session : Session) × (email : String) × (account : Account) × ((Sessions.check_session none
        "laptop" "s1"
        (running world)).0
      ≡ done session)
    × (rows world email ≡ some account)
    × (account.id ≡ session.account_id)
    × ((e : String) → rows after.world e ≡ without session.account_id (rows world e))
unfolding Accounts.delete_account Sessions.check_session Repository.get_session
    Postgres.get_account_email Postgres.delete_account Events.account_deleted
delete_account_row_example =
    delete_account_row rows memory-IsTable memory-IsRemoval none "s1" "laptop" (running world) refl

-- Dora signs in.
abbrev dora_login : SignInDto
dora_login = record {
  email = "dora@example.org";
  password = "secret";
  client_ip = "10.0.0.1";
  machine_id = "laptop";
}

deleted_account_signs_in_no_more_example :
    (account : Account) × ((Postgres.get_account_by_email none "dora@example.org" after.world).0
      ≡ done account)
    × (account.id ≢ "a1")
unfolding Accounts.delete_account Sessions.check_session Repository.get_session
    Postgres.get_account_email Postgres.delete_account Events.account_deleted Sessions.sign_in
    Postgres.get_account_by_email Repository.set_session
deleted_account_signs_in_no_more_example =
    deleted_account_signs_in_no_more rows memory-IsTable memory-IsRemoval
      (account_service_config configured) none none "s1" "laptop" "s1" (session_at 5) dora_login
      (running world) after refl refl refl refl
