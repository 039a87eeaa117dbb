-- ===== src/Mesh/Scheduler/Alone.antt =====
-- kanbrick-mesh/src/scheduler.rs: a worker's thread that nothing else interrupts, and the result
-- that its retries are meant to have.
use kanbrick_v.Common.{
  ℕ, ◌+◌, ◌*◌, ◌<◌, ◌≤◌, zero, suc, Text, text_eq, nat_eq, nat_beq_iff, ==_refl, ◌≡◌, ◌≢◌, refl,
  sym, subst, Option, none, some, lookup, insert, lookup-insert, lookup-modify, modify, Dict,
  Result, ok, err, true, false, arith, ltb,
}
use kanbrick_v.Mesh.Abi.{GuestResponse}
use kanbrick_v.Mesh.Error.{MeshError}
use kanbrick_v.Mesh.Task.{TaskStatus, task_running, task_completed}
use kanbrick_v.Mesh.Scheduler.{
  Shared, Worker, Pc, acquiring, starting, invoking, settling, finished, set_status, release,
}
use kanbrick_v.Mesh.Scheduler.Thread.{move, move_at, at, after_attempt, failure_status}

abbrev pub attempt_of : Pc → ℕ
attempt_of (invoking n) = n
attempt_of _ = 0

abbrev stepped : Shared × Worker → Option (Shared × Worker) → Shared × Worker
stepped here none = here
stepped here (some there) = there

no_more : (n top : ℕ) → n ≡ top → ltb n top ≡ false
no_more n top e = ground arith

one_more_retry : (n top : ℕ) → n < top → ltb n top ≡ true
one_more_retry n top e = ground arith

module _ (debug : Text → Text) (answer : ℕ → Result MeshError GuestResponse) where
  abbrev last_answer : Result MeshError GuestResponse → TaskStatus
  last_answer (ok response) = task_completed response.payload
  last_answer (err e) = failure_status debug e

  abbrev first_success : Result MeshError GuestResponse → TaskStatus → TaskStatus
  first_success (ok response) rest = task_completed response.payload
  first_success (err e) rest = rest

  -- The status that a task is to end with when `answer n` is what the runtime answers to attempt
  -- `n`: that of the first attempt that succeeds, or of the last one.
  unfoldable pub retry_result : ℕ → ℕ → TaskStatus
  retry_result zero n = last_answer (answer n)
  retry_result (suc k) n = first_success (answer n) (retry_result k (n + 1))

  -- The thread's moves with no other thread's between them, as many as the fuel allows.
  unfoldable pub run_alone : ℕ → Shared × Worker → Shared × Worker
  run_alone zero s = s
  run_alone (suc fuel) (sh, w) =
      run_alone fuel (stepped (sh, w) (move debug sh w (answer (attempt_of w.pc))))

  -- The worker has ended with this status and its permit is back.
  pub record Settled (sh : Shared) (w : Worker) (st : TaskStatus) (r : Shared × Worker)
      : Type 0 where
    pub ended : r.1 ≡ at finished w
    pub own : lookup w.id r.0.statuses ≡ some st
    pub others : (j : ℕ) → w.id ≢ j → lookup j r.0.statuses ≡ lookup j sh.statuses
    pub sems : r.0.sems ≡ modify w.guest suc sh.sems

  run_alone-finished :
      (fuel : ℕ) (sh : Shared) (w : Worker)
      → run_alone fuel (sh, at finished w) ≡ (sh, at finished w)
  unfolding run_alone move_at
  run_alone-finished zero sh w = refl
  run_alone-finished (suc fuel) sh w = run_alone-finished fuel sh w

  from_settling :
      (fuel : ℕ) (sh : Shared) (w : Worker) (st : TaskStatus)
      → 2 ≤ fuel
      → Settled sh w st (run_alone fuel (sh, at (settling st) w))
  unfolding run_alone move_at
  from_settling zero sh w st h = absurd (omega arith)
  from_settling (suc zero) sh w st h = absurd (omega arith)
  from_settling (suc (suc fuel)) sh w st h =
      rw (run_alone-finished fuel (release w.guest (set_status w.id st sh)) w) (record {
        ended = refl;
        own = rw (lookup-insert w.id w.id st sh.statuses, ==_refl w.id) refl;
        others = λ j ne. ground (arith, lookup-insert w.id j st sh.statuses, nat_beq_iff w.id j);
        sems = refl;
      })

  -- What follows the last attempt
  after_last :
      (n fuel : ℕ) (sh : Shared) (w : Worker) (a : Result MeshError GuestResponse)
      → n ≡ w.retry.max_retries
      → 2 ≤ fuel
      → Settled sh w
          (last_answer a)
          (run_alone fuel (sh, at (after_attempt debug w.retry.max_retries n a) w))
  unfolding after_attempt
  after_last n fuel sh w (ok response) e h = from_settling fuel sh w _ h
  after_last n fuel sh w (err x) e h =
      rw (no_more n w.retry.max_retries e) (from_settling fuel sh w _ h)

  -- A worker that has set its status to running again, and then settled
  rerun :
      (sh : Shared) (w : Worker) (st : TaskStatus) (r : Shared × Worker)
      → Settled (set_status w.id task_running sh) w st r
      → Settled sh w st r
  rerun sh w st r s = record {
    ended = s.ended;
    own = s.own;
    others = λ j ne.
        ground
          (arith, s.others j, lookup-insert w.id j task_running sh.statuses, nat_beq_iff w.id j);
    sems = s.sems;
  }

  -- What follows an attempt that is not the last, if the next ones settle the task
  after_other :
      (n fuel : ℕ) (sh : Shared) (w : Worker) (a : Result MeshError GuestResponse)
      (rest : TaskStatus)
      → n < w.retry.max_retries
      → 2 ≤ fuel
      → ((left : ℕ) (t : Shared)
          → fuel ≤ left + 2
          → Settled t w rest (run_alone left (t, at (invoking (n + 1)) w)))
      → Settled sh w
          (first_success a rest)
          (run_alone fuel (sh, at (after_attempt debug w.retry.max_retries n a) w))
  unfolding after_attempt run_alone move_at
  after_other n fuel sh w (ok response) rest e h next = from_settling fuel sh w _ h
  after_other n zero sh w (err x) rest e h next = absurd (omega arith)
  after_other n (suc zero) sh w (err x) rest e h next = absurd (omega arith)
  after_other n (suc (suc fuel)) sh w (err x) rest e h next =
      rw (one_more_retry n w.retry.max_retries e)
        (rerun sh w rest _ (next fuel (set_status w.id task_running sh) (omega arith)))

  from_invoking :
      (k n fuel : ℕ) (sh : Shared) (w : Worker)
      → n + k ≡ w.retry.max_retries
      → 3 + 3 * k ≤ fuel
      → Settled sh w (retry_result k n) (run_alone fuel (sh, at (invoking n) w))
  unfolding run_alone move_at retry_result
  from_invoking k n zero sh w e h = absurd (omega arith)
  from_invoking zero n (suc fuel) sh w e h =
      after_last n fuel sh w (answer n) (omega (arith, e)) (omega arith)
  from_invoking (suc k) n (suc fuel) sh w e h =
      after_other n fuel sh w (answer n) (retry_result k (n + 1)) (omega (arith, e)) (omega arith)
        (λ left t enough. from_invoking k (n + 1) left t w (omega (arith, e)) (omega arith))

  module _ (sh : Shared) (w : Worker) (permits : ℕ) (waits : w.pc ≡ acquiring)
      (free : lookup w.guest sh.sems ≡ some (suc permits)) where
    taken : Shared
    taken = record sh { sems = insert w.guest permits sh.sems }

    first_move :
        stepped (sh, w) (move debug sh w (answer (attempt_of w.pc))) ≡ (taken, at (starting 0) w)
    unfolding move_at taken
    first_move = rw (waits, free) refl

    from_starting :
        (fuel : ℕ)
        → 3 + 3 * w.retry.max_retries ≤ fuel
        → Settled taken w
            (retry_result w.retry.max_retries 0)
            (run_alone (suc fuel) (taken, at (starting 0) w))
    unfolding run_alone move_at
    from_starting fuel h = rerun taken w _ _ (
        from_invoking w.retry.max_retries 0 fuel (set_status w.id task_running taken) w
          (omega arith) h)

    from_acquiring :
        (fuel : ℕ)
        → 5 + 3 * w.retry.max_retries ≤ fuel
        → Settled taken w (retry_result w.retry.max_retries 0) (run_alone fuel (sh, w))
    unfolding run_alone
    from_acquiring zero h = absurd (omega arith)
    from_acquiring (suc zero) h = absurd (omega arith)
    from_acquiring (suc (suc fuel)) h =
        subst (λ s. Settled taken w (retry_result w.retry.max_retries 0) (run_alone (suc fuel) s))
          (sym first_move) (from_starting fuel (omega arith))

    restored :
        (m : Dict Text ℕ)
        → m ≡ modify w.guest suc taken.sems
        → lookup w.guest m ≡ some (suc permits)
    unfolding taken
    restored m e =
        rw
          (
            e,
            lookup-modify w.guest w.guest suc (insert w.guest permits sh.sems),
            ==_refl w.guest,
            lookup-insert w.guest w.guest permits sh.sems,
            ==_refl w.guest,
          )
          refl

  -- A worker whose guest has a permit, and whose thread is not interrupted, ends within five moves
  -- and three more for each retry. Its task has then the status of the first attempt that
  -- succeeds, or of the last one, no other status has changed, and the permit is back.
  pub run_alone-retry_result :
      (sh : Shared) (w : Worker) (permits fuel : ℕ)
      → w.pc ≡ acquiring
      → lookup w.guest sh.sems ≡ some (suc permits)
      → 5 + 3 * w.retry.max_retries ≤ fuel
      → ((run_alone fuel (sh, w)).1.pc ≡ finished)
        × (lookup w.id (run_alone fuel (sh, w)).0.statuses
            ≡ some (retry_result w.retry.max_retries 0))
        × ((j : ℕ) → w.id ≢ j → lookup j (run_alone fuel (sh, w)).0.statuses ≡ lookup j sh.statuses)
        × (lookup w.guest (run_alone fuel (sh, w)).0.sems ≡ some (suc permits))
  unfolding taken
  run_alone-retry_result sh w permits fuel p e h =
      (rw (done.ended) refl, done.own, done.others, restored sh w permits p e _ done.sems)
    where
      done :
          Settled
            (taken sh w permits p e)
            w
            (retry_result w.retry.max_retries 0)
            (run_alone fuel (sh, w))
      done = from_acquiring sh w permits p e fuel h
