-- ===== src/Mesh/Scheduler/Tests.antt =====
-- kanbrick-mesh/src/scheduler.rs: two tasks for one guest that may run one at a time.
use kanbrick_v.Common.{
  ℕ, zero, suc, ◌+◌, ◌^◌, ◌<◌, ◌≤◌, Text, codes, List, [], ◌∷◌, length, All, ◌≡◌, refl, Option,
  none, some, Result, ok, err, Bool, true, false, arith, ◌⊎◌, ◌≢◌, if◌then◌else◌, nat_beq, lookup,
  insert, text_beq, text_eq, nat_eq,
}
use kanbrick_v.Core.Clearance.{l3}
use kanbrick_v.Core.Context.{FirmContext}
use kanbrick_v.Json.{null}
use kanbrick_v.Mesh.Abi.{GuestRequest, GuestResponse}
use kanbrick_v.Mesh.Error.{MeshError, timeout}
use kanbrick_v.Mesh.Task.{
  TaskStatus, task_queued, task_running, task_completed, is_terminal, may_follow, SchedulerConfig,
  no_retries, exponential, deadline_ticks,
}
use kanbrick_v.Mesh.Scheduler.{
  Scheduler, Shared, Worker, finished, starting, invoking, settling, releasing, acquiring,
  with_config, schedule_with_retry, new_worker, status, wait, guest_semaphore,
}
use kanbrick_v.Mesh.Scheduler.Permits.{permits, running}
use kanbrick_v.Mesh.Scheduler.Thread.{at, move_at, after_attempt}
use kanbrick_v.Mesh.Scheduler.System.{
  scheduled, moved, Work, worked, Reach, initial, later, idle, one_more, Steps, here, andthen,
}
use kanbrick_v.Mesh.Scheduler.Safety.{permits_conserved, Step-lifecycle, wait-final}
use kanbrick_v.Mesh.Scheduler.Progress.{Ended, progress}
use kanbrick_v.Mesh.Scheduler.Bounded.{work_left, Works-bounded}
use kanbrick_v.Mesh.Scheduler.Alone.{run_alone, retry_result, run_alone-retry_result}

abbrev quoted : Text → Text
quoted t = t

abbrev one_at_a_time : SchedulerConfig
one_at_a_time = record { per_guest_concurrency = 1; tick = 10000000 }

abbrev caller : FirmContext
caller = record {
  user_id = 7;
  email = codes "pm@firm.test";
  clearance = l3;
  firm_id = codes "firm";
  roles = [];
  session_id = 1;
  issued_at = 0;
}

abbrev request : GuestRequest
request = record { payload = null }

abbrev guest : Text
guest = codes "g"

abbrev answer : Result MeshError GuestResponse
answer = ok (record { payload = null })

abbrev queued_once : Scheduler
queued_once =
    (schedule_with_retry guest caller request none no_retries (with_config one_at_a_time)).1

abbrev queued_twice : Scheduler
queued_twice = (schedule_with_retry guest caller request none no_retries queued_once).1

twice_Reach : Reach quoted one_at_a_time queued_twice
twice_Reach =
    later (later initial (scheduled guest caller request none no_retries))
      (scheduled guest caller request none no_retries)

permits_conserved_example :
    permits queued_twice.shared guest + running guest queued_twice.workers ≡ 1
unfolding schedule_with_retry with_config
permits_conserved_example =
    permits_conserved quoted {config = one_at_a_time} (omega arith) twice_Reach guest

progress_example :
    ((t : Scheduler) × Work quoted queued_twice t) ⊎ All (Ended queued_twice) queued_twice.workers
unfolding schedule_with_retry with_config
progress_example = progress quoted answer {config = one_at_a_time} (omega arith) twice_Reach

abbrev flaky : ℕ → Result MeshError GuestResponse
flaky zero = err (timeout guest)
flaky (suc n) = ok (record { payload = null })

abbrev retried_worker : Worker
retried_worker = new_worker 0 guest caller request 5 (exponential 3 1000 2)

abbrev before_run : Shared
before_run = record {
  statuses = (0, task_queued) ∷ [];
  sems = (guest, 1) ∷ [];
  per_guest = 1;
  next_id = 1;
}

alone_result : (run_alone quoted flaky 14 (before_run, retried_worker)).1.pc ≡ finished
unfolding run_alone kanbrick_v.Mesh.Scheduler.Thread.move_at lookup kanbrick_v.Common.text_beq
    kanbrick_v.Mesh.Scheduler.Thread.after_attempt
alone_result = refl

alone_status : retry_result quoted flaky 3 0 ≡ task_completed null
unfolding retry_result
alone_status = refl

run_alone-retry_result_example :
    ((run_alone quoted flaky 14 (before_run, retried_worker)).1.pc ≡ finished)
    × (lookup 0 (run_alone quoted flaky 14 (before_run, retried_worker)).0.statuses
        ≡ some (retry_result quoted flaky 3 0))
    × ((j : ℕ)
        → 0 ≢ j
        → lookup j (run_alone quoted flaky 14 (before_run, retried_worker)).0.statuses
          ≡ lookup j before_run.statuses)
    × (lookup guest (run_alone quoted flaky 14 (before_run, retried_worker)).0.sems ≡ some 1)
unfolding lookup kanbrick_v.Common.text_beq
run_alone-retry_result_example =
    run_alone-retry_result quoted flaky before_run retried_worker 0 14 refl refl (omega arith)

-- The first of two tasks gets the only permit.
abbrev first_worker : Worker
first_worker = new_worker 0 guest caller request 18446744073709551615 no_retries

abbrev second_worker : Worker
second_worker = new_worker 1 guest caller request 18446744073709551615 no_retries

abbrev acquired : Scheduler
acquired = record {
  shared = record {
    statuses = (0, task_queued) ∷ (1, task_queued) ∷ [];
    sems = (guest, 0) ∷ [];
    per_guest = 1;
    next_id = 2;
  };
  tick = 10000000;
  workers = at (starting 0) first_worker ∷ second_worker ∷ [];
}

acquired-Work : Work quoted queued_twice acquired
unfolding schedule_with_retry guest_semaphore with_config lookup insert text_beq move_at
    after_attempt deadline_ticks
acquired-Work = worked [] first_worker (second_worker ∷ []) answer _ _ refl refl

Step-lifecycle_example :
    (b : TaskStatus) × (status 1 acquired ≡ some b)
    × ((b ≡ task_queued) ⊎ (may_follow task_queued b ≡ true))
unfolding status lookup schedule_with_retry kanbrick_v.Mesh.Scheduler.guest_semaphore
    kanbrick_v.Common.insert with_config
Step-lifecycle_example =
    Step-lifecycle quoted {config = one_at_a_time} 1 task_queued (omega arith) twice_Reach
      (moved acquired-Work) refl

Works-bounded_example : 1 + work_left acquired.workers ≤ work_left queued_twice.workers
Works-bounded_example = Works-bounded quoted (one_more idle acquired-Work)

abbrev begun : Scheduler
begun = record acquired {
  shared = record acquired.shared { statuses = (0, task_running) ∷ (1, task_queued) ∷ [] };
  workers = at (invoking 0) first_worker ∷ second_worker ∷ [];
}

abbrev answered : Scheduler
answered = record begun {
  workers = at (settling (task_completed null)) first_worker ∷ second_worker ∷ [];
}

abbrev settled : Scheduler
settled = record answered {
  shared = record begun.shared { statuses = (0, task_completed null) ∷ (1, task_queued) ∷ [] };
  workers = at releasing first_worker ∷ second_worker ∷ [];
}

begun-Work : Work quoted acquired begun
unfolding kanbrick_v.Mesh.Scheduler.Thread.move_at kanbrick_v.Common.insert
begun-Work = worked [] (at (starting 0) first_worker) (second_worker ∷ []) answer _ _ refl refl

answered-Work : Work quoted begun answered
unfolding kanbrick_v.Mesh.Scheduler.Thread.move_at kanbrick_v.Mesh.Scheduler.Thread.after_attempt
answered-Work = worked [] (at (invoking 0) first_worker) (second_worker ∷ []) answer _ _ refl refl

settled-Work : Work quoted answered settled
unfolding kanbrick_v.Mesh.Scheduler.Thread.move_at kanbrick_v.Common.insert
settled-Work =
    worked [] (at (settling (task_completed null)) first_worker) (second_worker ∷ []) answer _ _
      refl refl

begun-Reach : Reach quoted one_at_a_time begun
begun-Reach = later (later twice_Reach (moved acquired-Work)) (moved begun-Work)

begun-Steps : Steps quoted begun settled
begun-Steps = andthen (andthen here (moved answered-Work)) (moved settled-Work)

settled-Reach : Reach quoted one_at_a_time settled
settled-Reach = later (later begun-Reach (moved answered-Work)) (moved settled-Work)

wait-final_example :
    (is_terminal (task_completed null) ≡ true) × (status 0 settled ≡ some (task_completed null))
unfolding wait status lookup
wait-final_example =
    wait-final quoted one_at_a_time settled 0 (task_completed null)
      ((begun, false) ∷ (settled, false) ∷ []) (omega arith)
      ((begun-Reach, begun-Steps), ((settled-Reach, here), tt)) refl
