-- ===== src/System/Reached.antt =====
-- The states that the service reaches, and the invariant of `System.Sound`.
use accounts_service.Prelude.{◌∷◌}
use accounts_service.External.{External}
use accounts_service.External.Redis.{Keys}
use accounts_service.Config.{Config, account_service_config}
use accounts_service.Service.Process.{Process}
use accounts_service.System.Keys.{Fits-none}
use accounts_service.System.Interference.{Interferes, quiet, Interferes-IsWellKeyed}
use accounts_service.System.Backend.{IsBackend}
use accounts_service.System.Sound.{
  IsSound, IsSince, IsSince-IsInvariant, AllPending-append, AllPending-split,
}
use accounts_service.System.Goroutines.{run_task-Since}
use accounts_service.System.Requests.{serve-Keeps}
use accounts_service.System.Server.{
  Request, serve, Step, request, goroutine, elsewhere, restart, IsReached, initial, next,
}

module _ ⦃x : External⦄ (keys : x.World → Keys) (b : IsBackend keys) (global : Config) where
  -- A request is served: what it does to the sessions database, and what it starts.
  serve-IsSince :
      (ctx : x.Ctx) (r : Request) (p : Process)
      → IsSound keys p
      → IsSince keys (keys p.world) (serve global ctx r p).1
  serve-IsSince ctx r p h =
      (serve-Keeps keys b (IsSince-IsInvariant keys b h.keyed) global ctx r).after p
        (record { since = quiet; pending = h.pending })

  step-IsSince :
      (p q : Process) → Step keys global p q → IsSound keys p → IsSince keys (keys p.world) q
  step-IsSince p q (request ctx r _) h = serve-IsSince ctx r p h
  step-IsSince p q (goroutine w t before after) h =
      let (earlier, (one, later)) = AllPending-split before (t ∷ after) h.pending in
      record {
        since = run_task-Since keys b h.keyed (account_service_config global) t w one quiet;
        pending = AllPending-append before after earlier later;
      }
  step-IsSince p q (elsewhere _ w others) h = record { since = others; pending = h.pending }
  step-IsSince p q (restart _) h = record { since = quiet; pending = tt }

  -- Whatever is requested, whichever calls fail, whenever the goroutines run and whatever others do
  -- between two commands, from an empty
  -- database the keys of the sessions database stay well formed: an account's key holds a set or
  -- nothing, any other key holds nothing or a text that, if it is a session, has that key as its
  -- id; and every goroutine that waits to store a session has one whose id is no account's key.
  pub reached-IsSound : (p : Process) → IsReached keys global p → IsSound keys p
  reached-IsSound p (initial w empty) = record {
    keyed = record { fits = λ k. rw (empty k) (Fits-none k) };
    pending = tt;
  }
  reached-IsSound q (next p _ reached step) =
      let h = reached-IsSound p reached in
      let k = step-IsSince p q step h in
      record {
        keyed = Interferes-IsWellKeyed (keys p.world) (keys q.world) k.since h.keyed;
        pending = k.pending;
      }

  -- What a step of the service does to the sessions database, in a state that it reaches and while
  -- others interfere, is no more than what others may do: keys expire, and commands run that store a
  -- text under the id of a session which, if it is a session, has that id, that add to the set of an
  -- account, or that delete.
  pub reached-Interferes :
      (p q : Process)
      → IsReached keys global p
      → Step keys global p q
      → Interferes (keys p.world) (keys q.world)
  reached-Interferes p q reached step = (step-IsSince p q step (reached-IsSound p reached)).since
