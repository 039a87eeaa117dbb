-- ===== src/Mesh/Scheduler.antt =====
-- kanbrick-mesh/src/scheduler.rs: the state that the scheduler shares with its worker threads, and
-- what the scheduler does to it.
pub mod Thread
pub mod System
pub mod Permits
pub mod Moves
pub mod Invariant
pub mod Submitting
pub mod Working
pub mod Safety
pub mod Progress
pub mod Bounded
pub mod Alone
mod Tests
use kanbrick_v.Common.{
  ℕ, ◌+◌, ◌%◌, ◌^◌, Text, text_eq, nat_eq, List, [], ◌∷◌, ◌++◌, Option, none, some, Dict, lookup,
  insert, modify, suc, if◌then◌else◌, Bool,
}
use kanbrick_v.Core.Context.{FirmContext}
use kanbrick_v.Mesh.Abi.{GuestRequest}
use kanbrick_v.Mesh.Task.{
  TaskStatus, task_queued, is_terminal, RetryPolicy, SchedulerConfig, at_least, deadline_ticks,
  no_retries,
}

-- `Shared`; a semaphore is its number of permits
pub record Shared : Type 0 where
  pub statuses : Dict ℕ TaskStatus
  pub sems : Dict Text ℕ
  pub per_guest : ℕ
  pub next_id : ℕ

-- Where a worker's thread stands. An attempt is about to begin, runs, or is followed by a delay;
-- a thread that settles has a final status to set.
pub data Pc : Type 0 where
  acquiring releasing finished : Pc
  starting invoking backing_off : (attempt : ℕ) → Pc
  settling : TaskStatus → Pc

-- What a worker's thread holds.
pub record Worker : Type 0 where
  pub id : ℕ
  pub guest : Text
  pub ctx : FirmContext
  pub request : GuestRequest
  pub deadline : ℕ
  pub retry : RetryPolicy
  pub pc : Pc

-- `Scheduler`, without its handles on the runtime and the ticker
pub record Scheduler : Type 0 where
  pub shared : Shared
  pub tick : ℕ
  pub workers : List Worker

-- `Shared::set_status`
abbrev pub set_status : ℕ → TaskStatus → Shared → Shared
set_status i st sh = record sh { statuses = insert i st sh.statuses }

abbrev or_insert : Text → ℕ → Option ℕ → Dict Text ℕ → Dict Text ℕ
or_insert name permits none m = insert name permits m
or_insert name permits (some p) m = m

-- `Shared::guest_semaphore`
unfoldable pub guest_semaphore : Text → Shared → Shared
guest_semaphore name sh = record sh {
  sems = or_insert name sh.per_guest (lookup name sh.sems) sh.sems;
}

-- `Semaphore::release`
abbrev pub release : Text → Shared → Shared
release name sh = record sh { sems = modify name suc sh.sems }

-- `Scheduler::with_config`
unfoldable pub with_config : SchedulerConfig → Scheduler
with_config config = record {
  shared = record {
    statuses = [];
    sems = [];
    per_guest = at_least 1 config.per_guest_concurrency;
    next_id = 0;
  };
  tick = at_least 1000000 config.tick;
  workers = [];
}

abbrev pub new_worker : ℕ → Text → FirmContext → GuestRequest → ℕ → RetryPolicy → Worker
new_worker i name ctx request deadline retry = record {
  id = i;
  guest = name;
  ctx = ctx;
  request = request;
  deadline = deadline;
  retry = retry;
  pc = acquiring;
}

-- `Scheduler::schedule_with_retry`: the id, and the scheduler with one more worker
unfoldable pub schedule_with_retry :
    Text → FirmContext → GuestRequest → Option ℕ → RetryPolicy → Scheduler → ℕ × Scheduler
schedule_with_retry name ctx request timeout retry s =
    let i = s.shared.next_id in
    let counted = record (s.shared) { next_id = (i + 1) % 2 ^ 64 } in
    let queued = set_status i task_queued counted in
    (
      i,
      record s {
        shared = guest_semaphore name queued;
        workers =
            s.workers ++ new_worker i name ctx request (deadline_ticks s.tick timeout) retry ∷ [];
      },
    )

-- `Scheduler::schedule`
abbrev pub schedule : Text → FirmContext → GuestRequest → Option ℕ → Scheduler → ℕ × Scheduler
schedule name ctx request timeout s = schedule_with_retry name ctx request timeout no_retries s

-- `Scheduler::status`
unfoldable pub status : ℕ → Scheduler → Option TaskStatus
status i s = lookup i s.shared.statuses

abbrev seen : Bool → Option TaskStatus → Option TaskStatus → Option TaskStatus
seen late later none = none
seen late later (some st) = if is_terminal st then some st else if late then none else later

-- `Scheduler::wait`. Each glance is the scheduler as the thread finds it when it holds the lock,
-- and whether its deadline has passed by then.
unfoldable pub wait : ℕ → List (Scheduler × Bool) → Option TaskStatus
wait i [] = none
wait i ((s, late) ∷ glances) = let later = wait i glances in seen late later (status i s)
