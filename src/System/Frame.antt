-- ===== src/System/Frame.antt =====
-- What the registration repository, the accounts repository and the events do to the sessions
-- database.
use accounts_service.Prelude.{ℕ, String, arith}
use accounts_service.Models.{Account, RegisteredAccount, AccountCreatedDto}
use accounts_service.External.{External}
use accounts_service.External.Redis.{Keys}
use accounts_service.Redis.Registration
use accounts_service.Postgres
use accounts_service.Events
use accounts_service.System.Interference.{Leaves}
use accounts_service.System.Backend.{IsSeparate}

module _ ⦃x : External⦄ (keys : x.World → Keys) (s : IsSeparate keys) where
  pub keys-is_account_exist :
      (ctx : x.Ctx) (email : String) (w : x.World)
      → Leaves keys w (Registration.is_account_exist ctx email w).1
  unfolding Registration.is_account_exist
  keys-is_account_exist ctx email w m h = grind (arith, h, s.keys-registration_exists, s.keys-hits)

  pub keys-set_account :
      (ctx : x.Ctx) (email : String) (account : RegisteredAccount) (ttl : ℕ) (w : x.World)
      → Leaves keys w (Registration.set_account ctx email account ttl w).1
  unfolding Registration.set_account
  keys-set_account ctx email account ttl w m h =
      grind (arith, h, s.keys-registration_set, s.keys-hits)

  pub keys-get_registered :
      (ctx : x.Ctx) (email : String) (w : x.World)
      → Leaves keys w (Registration.get_account ctx email w).1
  unfolding Registration.get_account
  keys-get_registered ctx email w m h = grind (arith, h, s.keys-registration_get, s.keys-hits)

  pub keys-delete_registered :
      (ctx : x.Ctx) (email : String) (w : x.World)
      → Leaves keys w (Registration.delete_account ctx email w).1
  unfolding Registration.delete_account
  keys-delete_registered ctx email w m h = grind (arith, h, s.keys-registration_del, s.keys-hits)

  pub keys-create_account :
      (ctx : x.Ctx) (account : Account) (w : x.World)
      → Leaves keys w (Postgres.create_account ctx account w).1
  unfolding Postgres.create_account
  keys-create_account ctx account w m h =
      grind (arith, h, s.keys-begin_tx, s.keys-tx_query_row_scan, s.keys-rollback, s.keys-log)

  pub keys-is_account_with_email_exist :
      (ctx : x.Ctx) (email : String) (w : x.World)
      → Leaves keys w (Postgres.is_account_with_email_exist ctx email w).1
  unfolding Postgres.is_account_with_email_exist
  keys-is_account_with_email_exist ctx email w m h = grind (arith, h, s.keys-get_string, s.keys-log)

  pub keys-get_account_by_email :
      (ctx : x.Ctx) (email : String) (w : x.World)
      → Leaves keys w (Postgres.get_account_by_email ctx email w).1
  unfolding Postgres.get_account_by_email
  keys-get_account_by_email ctx email w m h = grind (arith, h, s.keys-get_account, s.keys-log)

  pub keys-change_password :
      (ctx : x.Ctx) (email hash : String) (w : x.World)
      → Leaves keys w (Postgres.change_password ctx email hash w).1
  unfolding Postgres.change_password
  keys-change_password ctx email hash w m h = grind (arith, h, s.keys-exec, s.keys-log)

  pub keys-delete_row :
      (ctx : x.Ctx) (account_id : String) (w : x.World)
      → Leaves keys w (Postgres.delete_account ctx account_id w).1
  unfolding Postgres.delete_account
  keys-delete_row ctx account_id w m h =
      grind (arith, h, s.keys-begin_tx, s.keys-tx_exec, s.keys-rollback, s.keys-log)

  pub keys-get_account_email :
      (ctx : x.Ctx) (account_id : String) (w : x.World)
      → Leaves keys w (Postgres.get_account_email ctx account_id w).1
  unfolding Postgres.get_account_email
  keys-get_account_email ctx account_id w m h = grind (arith, h, s.keys-get_string, s.keys-log)

  pub keys-account_created :
      (ctx : x.Ctx) (account : AccountCreatedDto) (w : x.World)
      → Leaves keys w (Events.account_created ctx account w).1
  unfolding Events.account_created
  keys-account_created ctx account w m h = grind (arith, h, s.keys-account_events)

  pub keys-account_deleted :
      (ctx : x.Ctx) (email account_id : String) (w : x.World)
      → Leaves keys w (Events.account_deleted ctx email account_id w).1
  unfolding Events.account_deleted
  keys-account_deleted ctx email account_id w m h = grind (arith, h, s.keys-account_events)

  pub keys-request_email_verification :
      (ctx : x.Ctx) (email token url : String) (ttl : ℕ) (w : x.World)
      → Leaves keys w (Events.request_email_verification ctx email token url ttl w).1
  unfolding Events.request_email_verification
  keys-request_email_verification ctx email token url ttl w m h =
      grind (arith, h, s.keys-token_delivery)

  pub keys-request_change_password :
      (ctx : x.Ctx) (email token url : String) (ttl : ℕ) (w : x.World)
      → Leaves keys w (Events.request_change_password ctx email token url ttl w).1
  unfolding Events.request_change_password
  keys-request_change_password ctx email token url ttl w m h =
      grind (arith, h, s.keys-token_delivery)
