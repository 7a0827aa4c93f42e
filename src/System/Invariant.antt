-- ===== src/System/Invariant.antt =====
-- What an invariant of the running service has to satisfy for every operation of
-- internal/service/service.go to keep it: one law for each way in which an operation touches the
-- state. `Good` is what the ids of the sessions at hand satisfy.
use accounts_service.Prelude.{ℕ, String, List, ◌≡◌}
use accounts_service.Models.{Session}
use accounts_service.External.{External}
use accounts_service.External.Redis.{Keys}
use accounts_service.Effect.{M}
use accounts_service.Redis.Sessions as Store
use accounts_service.Service.Process.{
  Process, on_world, spawn, update_session_task, terminate_all_task,
}
use accounts_service.Service.Sessions
use accounts_service.System.Interference.{Leaves}
use accounts_service.System.Keeps.{Keeps, Any}

module _ ⦃x : External⦄ (keys : x.World → Keys) where
  -- The sessions database is left to the others, and the goroutines do not differ.
  abbrev pub IsSame : Process → Process → Type 0
  IsSame p q = Leaves keys p.world q.world × (q.tasks ≡ p.tasks)

  pub record IsInvariant (P : Process → Type 0) (Good : String → Type 0) : Type 1 where
    pub get_session :
        (ctx : x.Ctx) (id : String)
        → Keeps P (on_world (Store.get_session ctx id)) (λ s. Good s.session_id)
    pub set_session :
        (ctx : x.Ctx) (session : Session) (ttl : ℕ)
        → Good session.session_id
        → Keeps P (on_world (Store.set_session ctx session ttl)) Any
    pub terminate_sessions :
        (ctx : x.Ctx) (ids : List String) (account_id : String)
        → Keeps P (on_world (Store.terminate_sessions ctx ids account_id)) Any
    pub get_sessions_for_account :
        (ctx : x.Ctx) (account_id : String)
        → Keeps P (on_world (Store.get_sessions_for_account ctx account_id)) Any
    -- A call that leaves the sessions database to the others.
    pub separate :
        {A : Type 0} (m : M x.World A)
        → ((w : x.World) → Leaves keys w (m w).1)
        → Keeps P (on_world m) Any
    pub fresh_id : Keeps P Sessions.fresh_id Good
    pub start_update :
        (session : Session) (time : ℕ)
        → Good session.session_id
        → Keeps P (spawn (update_session_task session time)) Any
    pub start_terminate : (session : Session) → Keeps P (spawn (terminate_all_task session)) Any
    pub same : (p q : Process) → IsSame p q → P p → P q
