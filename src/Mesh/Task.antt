-- ===== src/Mesh/Task.antt =====
-- kanbrick-mesh/src/scheduler.rs: the status of a task, the policy for its retries, its deadline.
mod Policy
pub mod Delays
mod Tests
unfoldable pub use Policy.*
use kanbrick_v.Common.{Text, Bool, true, false, Option, some}
use kanbrick_v.Json.{JsonValue}

-- `TaskStatus`; the payload of the response stands for it
pub data TaskStatus : Type 0 where
  task_queued task_running task_timed_out : TaskStatus
  task_completed : JsonValue → TaskStatus
  task_failed : Text → TaskStatus

-- `TaskStatus::is_terminal`
abbrev pub is_terminal : TaskStatus → Bool
is_terminal task_queued = false
is_terminal task_running = false
is_terminal task_timed_out = true
is_terminal (task_completed r) = true
is_terminal (task_failed e) = true

-- The lifecycle that the module documents: whether a status may follow another.
abbrev pub may_follow : TaskStatus → TaskStatus → Bool
may_follow task_queued task_running = true
may_follow task_running task_queued = false
may_follow task_running b = true
may_follow _ _ = false
