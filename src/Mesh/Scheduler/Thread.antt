-- ===== src/Mesh/Scheduler/Thread.antt =====
-- kanbrick-mesh/src/scheduler.rs: the thread of a worker, one move at a time.
use kanbrick_v.Common.{
  ℕ, ◌+◌, suc, Text, text_eq, nat_eq, Option, none, some, lookup, insert, Result, ok, err,
  if◌then◌else◌, ltb,
}
use kanbrick_v.Mesh.Abi.{GuestResponse}
use kanbrick_v.Mesh.Error.{MeshError, timeout, mesh_error_text}
use kanbrick_v.Mesh.Task.{TaskStatus, task_running, task_completed, task_timed_out, task_failed}
use kanbrick_v.Mesh.Scheduler.{
  Shared, Worker, Pc, acquiring, starting, invoking, backing_off, settling, releasing, finished,
  set_status, release,
}

abbrev pub at : Pc → Worker → Worker
at p w = record w { pc = p }

-- `Semaphore::acquire`: there is no move while the guest has no permit.
abbrev pub acquire : Shared → Worker → Option ℕ → Option (Shared × Worker)
acquire sh w (some (suc p)) =
    some (record sh { sems = insert w.guest p sh.sems }, at (starting 0) w)
acquire sh w _ = none

-- The status that a failed attempt ends with, when it is the last.
unfoldable pub failure_status : (Text → Text) → MeshError → TaskStatus
failure_status debug (timeout name) = task_timed_out
failure_status debug e = task_failed (mesh_error_text debug e)

-- The move of `schedule_with_retry`'s thread when `outcome` is what the runtime answers to
-- `invoke_with_deadline`, if the thread asks it.
module _ (debug : Text → Text) where
  unfoldable pub after_attempt : ℕ → ℕ → Result MeshError GuestResponse → Pc
  after_attempt max_retries attempt (ok response) = settling (task_completed response.payload)
  after_attempt max_retries attempt (err e) =
      if ltb attempt max_retries then backing_off attempt else settling (failure_status debug e)

  unfoldable pub move_at :
      Shared → Worker → Result MeshError GuestResponse → Pc → Option (Shared × Worker)
  move_at sh w outcome acquiring = acquire sh w (lookup w.guest sh.sems)
  move_at sh w outcome (starting attempt) =
      some (set_status w.id task_running sh, at (invoking attempt) w)
  move_at sh w outcome (invoking attempt) =
      some (sh, at (after_attempt w.retry.max_retries attempt outcome) w)
  move_at sh w outcome (backing_off attempt) = some (sh, at (starting (attempt + 1)) w)
  move_at sh w outcome (settling st) = some (set_status w.id st sh, at releasing w)
  move_at sh w outcome releasing = some (release w.guest sh, at finished w)
  move_at sh w outcome finished = none

  abbrev pub move : Shared → Worker → Result MeshError GuestResponse → Option (Shared × Worker)
  move sh w outcome = move_at sh w outcome w.pc
