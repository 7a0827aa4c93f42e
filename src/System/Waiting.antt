-- ===== src/System/Waiting.antt =====
-- internal/service/service.go: what becomes of a goroutine that was started, for as long as the
-- process lives.
use mathlib.Core.List.{Memᴰ}
use mathlib.Core.List.Memᴰ
use accounts_service.Prelude.{Bool, true, false, List, [], ◌∷◌, ◌++◌, ◌≡◌, ◌⊎◌, inl, inr}
use accounts_service.External.{External}
use accounts_service.External.Redis.{Keys}
use accounts_service.Effect.{M}
use accounts_service.Config.{Config, account_service_config}
use accounts_service.Service.Process.{Process, Task, on_world, spawn, run_task}
use accounts_service.System.Keeps.{Keeps, Any, Keeps-modify}
use accounts_service.System.Backend.{IsBackend}
use accounts_service.System.Invariant.{IsInvariant}
use accounts_service.System.Requests.{serve-Keeps}
use accounts_service.System.Server.{
  IsReached, next, Request, Step, request, goroutine, elsewhere, restart, serve,
}

module _ ⦃x : External⦄ where
  -- The goroutine has been started and has not run.
  abbrev pub Waits : Task → Process → Type 0
  Waits t p = Memᴰ t p.tasks

  module _ (keys : x.World → Keys) (t : Task) where
    Waits-on_world : {A : Type 0} (m : M x.World A) → Keeps (Waits t) (on_world m) Any
    Waits-on_world m = record { after = λ p h. h; value = λ p a h e. tt }

    Waits-spawn : (u : Task) → Keeps (Waits t) (spawn u) Any
    Waits-spawn u = Keeps-modify _ (λ p h. Memᴰ.append_left (u ∷ []) h)

    Waits-IsInvariant : IsInvariant keys (Waits t) (λ _. Unit {0})
    Waits-IsInvariant = record {
      get_session = λ ctx id. Waits-on_world _;
      set_session = λ ctx session ttl one. Waits-on_world _;
      terminate_sessions = λ ctx ids account_id. Waits-on_world _;
      get_sessions_for_account = λ ctx account_id. Waits-on_world _;
      separate = λ m same. Waits-on_world m;
      fresh_id = record { after = λ p h. h; value = λ p a h e. tt };
      start_update = λ session time one. Waits-spawn _;
      start_terminate = λ session. Waits-spawn _;
      same = λ p q same h. rw same.1 h;
    }

    serve-Waits :
        (b : IsBackend keys) (global : Config) (ctx : x.Ctx) (r : Request) (p : Process)
        → Waits t p
        → Waits t (serve global ctx r p).1
    serve-Waits b global ctx r p = (serve-Keeps keys b Waits-IsInvariant global ctx r).after p

  abbrev is_restart :
      {keys : x.World → Keys} {global : Config} {p q : Process} → Step keys global p q → Bool
  is_restart (restart p) = true
  is_restart _ = false

  -- The life of a process, from one state to another.
  pub data Life (keys : x.World → Keys) (global : Config) (p : Process) : Process → Type 0 where
    born : Life keys global p p
    lives_on :
        (q r : Process)
        → Life keys global p q
        → (s : Step keys global q r) → is_restart s ≡ false
        → Life keys global p r

  -- Between two states of that life the goroutine has been run: it waited when the world was `world`,
  -- it then ran, and the life went on from there.
  pub record HasRun (keys : x.World → Keys) (global : Config) (p : Process) (t : Task) (q : Process)
      : Type 0 where
    pub world : x.World
    pub before : List Task
    pub after : List Task
    pub life : Life keys global p (record { world = world; tasks = before ++ (t ∷ after) })
    pub rest :
        Life keys global
          (record {
            world = run_task (account_service_config global) t world;
            tasks = before ++ after;
          })
          q

module _ ⦃x : External⦄ (keys : x.World → Keys) (b : IsBackend keys) (global : Config) where
  still_waits :
      (t u : Task) (before after : List Task)
      → Memᴰ t (before ++ (u ∷ after))
      → Memᴰ t (before ++ after) ⊎ (t ≡ u)
  still_waits t u before after h = elim (Memᴰ.append_cases before h) [
    | inl earlier ↦ inl (Memᴰ.append_left after earlier)
    | inr rest ↦ elim (Memᴰ.cases_cons rest) [
      | inl same ↦ inr same
      | inr later ↦ inl (Memᴰ.append_right before later)
    ]
  ]

  step-Waits :
      (t : Task) (p q r : Process)
      → Life keys global p q
      → (s : Step keys global q r) → is_restart s ≡ false
      → Waits t q
      → Waits t r ⊎ HasRun keys global p t r
  step-Waits t p q r life (request ctx c _) lives h = inl (serve-Waits keys t b global ctx c q h)
  step-Waits t p q r life (goroutine w u before after) lives h =
      elim (still_waits t u before after h) [
        | inl waits ↦ inl waits
        | inr same ↦ inr (record {
          world = w;
          before = before;
          after = after;
          life = rw same life;
          rest = rw same born;
        })
      ]
  step-Waits t p q r life (elsewhere _ w others) lives h = inl h
  step-Waits t p q r life (restart _) lives h = cc

  -- A goroutine that has been started is not lost while the process lives: through any requests,
  -- other goroutines and events outside, it still waits or it has been run.
  pub started_runs :
      (t : Task) (p q : Process)
      → Life keys global p q
      → Waits t p
      → Waits t q ⊎ HasRun keys global p t q
  started_runs t p q born h = inl h
  started_runs t p r (lives_on q _ life s lives) h = elim (started_runs t p q life h) [
    | inr has_run ↦ inr (record {
      world = has_run.world;
      before = has_run.before;
      after = has_run.after;
      life = has_run.life;
      rest = lives_on q r has_run.rest s lives;
    })
    | inl waits ↦ step-Waits t p q r life s lives waits
  ]

  pub Life-IsReached :
      (p q : Process) → Life keys global p q → IsReached keys global p → IsReached keys global q
  Life-IsReached p q born h = h
  Life-IsReached p r (lives_on q _ life s lives) h = next q r (Life-IsReached p q life h) s
