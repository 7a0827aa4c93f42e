-- ===== src/System/Sound.antt =====
-- internal/service/service.go: an invariant of the running service, on the sessions database and
-- on the goroutines that wait.
use accounts_service.Prelude.{arith, List, [], ◌∷◌, ◌++◌}
use accounts_service.External.{External}
use accounts_service.External.Redis.{Keys}
use accounts_service.Effect.{M}
use accounts_service.Service.Process.{
  Process, on_world, spawn, Task, update_session_task, terminate_all_task,
}
use accounts_service.System.Keeps.{Keeps, Any, Keeps-modify}
use accounts_service.System.Keys.{IsSessionId, IsWellKeyed}
use accounts_service.System.Interference.{Interferes}
use accounts_service.System.Backend.{IsBackend}
use accounts_service.System.Invariant.{IsInvariant}
use accounts_service.System.Repository
use accounts_service.System.Termination

-- What a goroutine writes is the session it was started with.
abbrev pub IsPending : Task → Type 0
IsPending (update_session_task session time) = IsSessionId session.session_id
IsPending (terminate_all_task session) = Unit

abbrev AllPending : List Task → Type 0
AllPending [] = Unit
AllPending (t ∷ ts) = IsPending t × AllPending ts

pub AllPending-append : (ts us : List Task) → AllPending ts → AllPending us → AllPending (ts ++ us)
AllPending-append [] us _ all = all
AllPending-append (t ∷ ts) us (one, rest) all = (one, AllPending-append ts us rest all)

pub AllPending-split : (ts us : List Task) → AllPending (ts ++ us) → AllPending ts × AllPending us
AllPending-split [] us all = (tt, all)
AllPending-split (t ∷ ts) us (one, rest) =
    let (before, after) = AllPending-split ts us rest in ((one, before), after)

module _ ⦃x : External⦄ (keys : x.World → Keys) where
  -- The invariant of the service: the database is well keyed, and no waiting goroutine breaks it.
  pub record IsSound (p : Process) : Type 0 where
    pub keyed : IsWellKeyed (keys p.world)
    pub pending : AllPending p.tasks

  -- What the service keeps since the sessions database was `m`, whatever others do meanwhile.
  pub record IsSince (m : Keys) (p : Process) : Type 0 where
    pub since : Interferes m (keys p.world)
    pub pending : AllPending p.tasks

module _ ⦃x : External⦄ (keys : x.World → Keys) (b : IsBackend keys) {m : Keys}
    (h0 : IsWellKeyed m) where
  -- A call of a repository.
  Keeps-on_world :
      {A : Type 0} (call : M x.World A) {Q : A → Type 0}
      → Keeps (Repository.Since keys b h0) call Q
      → Keeps (IsSince keys m) (on_world call) Q
  Keeps-on_world call k = record {
    after = λ p h. record { since = k.after p.world h.since; pending = h.pending };
    value = λ p a h e. k.value p.world a h.since e;
  }

  Keeps-spawn : (t : Task) → IsPending t → Keeps (IsSince keys m) (spawn t) Any
  Keeps-spawn t one = Keeps-modify _ λ p h. record {
    since = h.since;
    pending = AllPending-append p.tasks (t ∷ []) h.pending (one, tt);
  }

  pub IsSince-IsInvariant : IsInvariant keys (IsSince keys m) IsSessionId
  IsSince-IsInvariant = record {
    get_session = λ ctx id. Keeps-on_world _ (Repository.get_session-Since keys b h0 ctx id);
    set_session = λ ctx session ttl one.
        Keeps-on_world _ (Repository.set_session-Since keys b h0 ctx session ttl one);
    terminate_sessions = λ ctx ids account_id.
        Keeps-on_world _ (Termination.terminate_sessions-Since keys b h0 ctx ids account_id);
    get_sessions_for_account = λ ctx account_id.
        Keeps-on_world _ (Repository.get_sessions_for_account-Since keys b h0 ctx account_id);
    separate = λ call leaves.
        Keeps-on_world call (record { after = λ w h. leaves w m h; value = λ w a h e. tt });
    fresh_id = record {
      after =
          λ p h. record { since = b.separate.keys-new_uuid p.world m h.since; pending = h.pending };
      value = λ p id h e account_id at. b.uuid account_id p.world (ground arith);
    };
    start_update = λ session time one. Keeps-spawn (update_session_task session time) one;
    start_terminate = λ session. Keeps-spawn (terminate_all_task session) tt;
    same = λ p q same h. record { since = same.0 m h.since; pending = rw same.1 h.pending };
  }
