-- ===== src/Mesh/Scheduler/System.antt =====
-- kanbrick-mesh/src/scheduler.rs: the scheduler and its workers, interleaved in any order.
use kanbrick_v.Common.{ℕ, ◌+◌, Text, List, ◌∷◌, ◌++◌, ◌≡◌, Option, some, Result}
use kanbrick_v.Core.Context.{FirmContext}
use kanbrick_v.Mesh.Abi.{GuestRequest, GuestResponse}
use kanbrick_v.Mesh.Error.{MeshError}
use kanbrick_v.Mesh.Task.{RetryPolicy, SchedulerConfig}
use kanbrick_v.Mesh.Scheduler.{Scheduler, Shared, Worker, with_config, schedule_with_retry}
use kanbrick_v.Mesh.Scheduler.Thread.{move}

-- The moves of the workers that the scheduler has, whatever the runtime answers.
module _ (debug : Text → Text) where
  pub data Work (s : Scheduler) : Scheduler → Type 0 where
    worked :
        (before : List Worker) (w : Worker) (after : List Worker)
        (outcome : Result MeshError GuestResponse) (sh : Shared) (v : Worker)
        → s.workers ≡ before ++ w ∷ after
        → move debug s.shared w outcome ≡ some (sh, v)
        → Work s (record s { shared = sh; workers = before ++ v ∷ after })

  -- A caller schedules a task, or a worker moves.
  pub data Step (s : Scheduler) : Scheduler → Type 0 where
    scheduled :
        (name : Text) (ctx : FirmContext) (request : GuestRequest) (time : Option ℕ)
        (retry : RetryPolicy)
        → Step s (schedule_with_retry name ctx request time retry s).1
    moved : {t : Scheduler} → Work s t → Step s t

  pub data Reach (config : SchedulerConfig) : Scheduler → Type 0 where
    initial : Reach config (with_config config)
    later : {s t : Scheduler} → Reach config s → Step s t → Reach config t

  -- Moves of the workers alone, counted.
  pub data Works (s : Scheduler) : ℕ → Scheduler → Type 0 where
    idle : Works s 0 s
    one_more : {n : ℕ} {t u : Scheduler} → Works s n t → Work t u → Works s (n + 1) u

  pub data Steps (s : Scheduler) : Scheduler → Type 0 where
    here : Steps s s
    andthen : {t u : Scheduler} → Steps s t → Step t u → Steps s u
