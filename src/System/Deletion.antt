-- ===== src/System/Deletion.antt =====
-- internal/service/service.go: `DeleteAccount` and an invariant of the service, in the sense of
-- `System.Invariant`.
use accounts_service.Prelude.{String, Option}
use accounts_service.Models.{Session}
use accounts_service.External.{External}
use accounts_service.External.Redis.{Keys}
use accounts_service.Effect.{M, ◌>>=◌, ◌>>◌}
use accounts_service.Postgres
use accounts_service.Events
use accounts_service.Service.Process.{Process, on_world, spawn, terminate_all_task}
use accounts_service.Service.Sessions
use accounts_service.Service.Accounts
use accounts_service.System.Keeps.{Keeps, Any, Keeps-bind, Keeps-then}
use accounts_service.System.Backend.{IsBackend}
use accounts_service.System.Invariant.{IsInvariant}
use accounts_service.System.Frame.{keys-get_account_email, keys-delete_row, keys-account_deleted}
use accounts_service.System.Accounts.{commit-IsSame}
use accounts_service.System.Operations.{check_session-Keeps}

module _ ⦃x : External⦄ (keys : x.World → Keys) (b : IsBackend keys) {P : Process → Type 0}
    {Good : String → Type 0} (i : IsInvariant keys P Good) where
  commit-Keeps : (tx : Option x.Tx) → Keeps P (Accounts.commit tx) Any
  commit-Keeps tx = record {
    after = λ p. i.same p (Accounts.commit tx p).1 (commit-IsSame keys b tx p);
    value = λ p a h e. tt;
  }

  pub delete_account-Keeps :
      (ctx : x.Ctx) (id machine_id : String)
      → Keeps P (Accounts.delete_account ctx id machine_id) Any
  unfolding Accounts.delete_account
  delete_account-Keeps ctx id machine_id =
      let s = b.separate in
      let finish : Session → Option x.Tx → M Process (Unit {0}) =
        λ session tx. Accounts.commit tx >> spawn (terminate_all_task session) in
      let publish : Session → String → Option x.Tx → M Process (Unit {0}) = λ session email tx.
        on_world (Events.account_deleted ctx email session.account_id) >> finish session tx in
      let remove : Session → String → M Process (Unit {0}) = λ session email.
        on_world (Postgres.delete_account ctx session.account_id) >>= publish session email in
      Keeps-bind (Sessions.check_session ctx machine_id id)
        (λ session. on_world (Postgres.get_account_email ctx session.account_id) >>= remove session)
        (check_session-Keeps keys b i ctx machine_id id)
        λ session _.
          Keeps-bind (on_world (Postgres.get_account_email ctx session.account_id)) (remove session)
            (i.separate _ (keys-get_account_email keys s ctx session.account_id))
            λ email _.
              Keeps-bind (on_world (Postgres.delete_account ctx session.account_id))
                (publish session email)
                (i.separate _ (keys-delete_row keys s ctx session.account_id))
                (λ tx _.
                  Keeps-then _ _
                    (i.separate _ (keys-account_deleted keys s ctx email session.account_id))
                    (Keeps-then _ _ (commit-Keeps tx) (i.start_terminate session)))
