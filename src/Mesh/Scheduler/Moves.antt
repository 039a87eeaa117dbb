-- ===== src/Mesh/Scheduler/Moves.antt =====
-- kanbrick-mesh/src/scheduler.rs: what one move of a thread keeps, and what it does to the statuses.
use kanbrick_v.Common.{
  ℕ, zero, suc, Text, text_eq, nat_eq, nat_beq_iff, ==_refl, ◌≡◌, ◌≢◌, refl, subst, ◌⊎◌, inl, inr,
  Option, none, some, lookup, lookup-insert, lookup-modify, Result, ok, err, Bool, true, false,
  arith, text_beq_iff,
}
use kanbrick_v.Mesh.Abi.{GuestResponse}
use kanbrick_v.Mesh.Error.{MeshError}
use kanbrick_v.Mesh.Task.{TaskStatus, task_queued, task_running, is_terminal, may_follow}
use kanbrick_v.Mesh.Scheduler.{
  Shared, Worker, Pc, acquiring, starting, invoking, backing_off, settling, releasing, finished,
  set_status,
}
use kanbrick_v.Mesh.Scheduler.Permits.{present}
use kanbrick_v.Mesh.Scheduler.Thread.{move, move_at, acquire, after_attempt, failure_status}

-- Whether the status of a task is the one that its thread has set by the time it is at this point.
abbrev pub fits : Pc → Option TaskStatus → Bool
fits acquiring (some task_queued) = true
fits (starting zero) (some task_queued) = true
fits (starting (suc n)) (some task_running) = true
fits (invoking n) (some task_running) = true
fits (backing_off n) (some task_running) = true
fits (settling st) (some task_running) = is_terminal st
fits releasing (some st) = is_terminal st
fits finished (some st) = is_terminal st
fits _ _ = false

-- The task, the limit and the counter are what they were, and no semaphore is gone.
pub record Kept (sh t : Shared) (w v : Worker) : Type 0 where
  pub id : v.id ≡ w.id
  pub guest : v.guest ≡ w.guest
  pub retry : v.retry ≡ w.retry
  pub limit : t.per_guest ≡ sh.per_guest
  pub counter : t.next_id ≡ sh.next_id
  pub sems :
      (name : Text) → present (lookup name sh.sems) ≡ true → present (lookup name t.sems) ≡ true

abbrev pub Yields : (Shared → Worker → Type 0) → Option (Shared × Worker) → Type 0
Yields P none = Unit
Yields P (some (t, v)) = P t v

kept :
    {sh t : Shared} {w v : Worker}
    → v.id ≡ w.id
    → v.guest ≡ w.guest
    → v.retry ≡ w.retry
    → t.per_guest ≡ sh.per_guest
    → t.next_id ≡ sh.next_id
    → t.sems ≡ sh.sems
    → Kept sh t w v
kept a b c d e f = record {
  id = a;
  guest = b;
  retry = c;
  limit = d;
  counter = e;
  sems = λ name g. rw (f) g;
}

-- No other task's status changes, and the task's own changes as the lifecycle says, if at all.
pub record Statuses (sh t : Shared) (w v : Worker) : Type 0 where
  pub own : fits v.pc (lookup w.id t.statuses) ≡ true
  pub others : (j : ℕ) → w.id ≢ j → lookup j t.statuses ≡ lookup j sh.statuses
  pub lifecycle :
      (a : TaskStatus)
      → lookup w.id sh.statuses ≡ some a
      → (b : TaskStatus) × (lookup w.id t.statuses ≡ some b) × ((b ≡ a) ⊎ (may_follow a b ≡ true))

same-Statuses :
    (sh t : Shared) (w v : Worker)
    → t.statuses ≡ sh.statuses
    → fits v.pc (lookup w.id sh.statuses) ≡ true
    → Statuses sh t w v
same-Statuses sh t w v e f = record {
  own = rw (e) f;
  others = λ j ne. rw (e) refl;
  lifecycle = λ a h. (a, rw (e) h, inl refl);
}

set_status-Statuses :
    (sh : Shared) (w v : Worker) (st : TaskStatus)
    → fits v.pc (some st) ≡ true
    → ((a : TaskStatus) → lookup w.id sh.statuses ≡ some a → (st ≡ a) ⊎ (may_follow a st ≡ true))
    → Statuses sh (set_status w.id st sh) w v
set_status-Statuses sh w v st f next = record {
  own = rw (lookup-insert w.id w.id st sh.statuses, ==_refl w.id) f;
  others = λ j ne. ground (arith, lookup-insert w.id j st sh.statuses, nat_beq_iff w.id j);
  lifecycle =
      λ a h. (st, ground (arith, lookup-insert w.id w.id st sh.statuses, ==_refl w.id), next a h);
}

fits-acquired : (o : Option TaskStatus) → fits acquiring o ≡ true → fits (starting 0) o ≡ true
fits-acquired o f = ground arith

fits-begun :
    (n : ℕ) (a : TaskStatus)
    → fits (starting n) (some a) ≡ true
    → (task_running ≡ a) ⊎ (may_follow a task_running ≡ true)
fits-begun zero a f = ground arith
fits-begun (suc n) a f = ground arith

settling-terminal :
    (st : TaskStatus) (o : Option TaskStatus) → fits (settling st) o ≡ true → is_terminal st ≡ true
settling-terminal st o f = ground arith

fits-settled : (st a : TaskStatus) → fits (settling st) (some a) ≡ true → may_follow a st ≡ true
fits-settled st a f = ground arith

module _ (debug : Text → Text) where
  acquire-Kept :
      (sh : Shared) (w : Worker) (o : Option ℕ) → Yields (λ t v. Kept sh t w v) (acquire sh w o)
  acquire-Kept sh w none = tt
  acquire-Kept sh w (some zero) = tt
  acquire-Kept sh w (some (suc p)) = record {
    id = refl;
    guest = refl;
    retry = refl;
    limit = refl;
    counter = refl;
    sems = λ name e. ground (arith, lookup-insert w.guest name p sh.sems);
  }

  move_at-Kept :
      (sh : Shared) (w : Worker) (outcome : Result MeshError GuestResponse) (p : Pc)
      → Yields (λ t v. Kept sh t w v) (move_at debug sh w outcome p)
  unfolding move_at
  move_at-Kept sh w outcome acquiring = acquire-Kept sh w (lookup w.guest sh.sems)
  move_at-Kept sh w outcome (starting n) = kept refl refl refl refl refl refl
  move_at-Kept sh w outcome (invoking n) = kept refl refl refl refl refl refl
  move_at-Kept sh w outcome (backing_off n) = kept refl refl refl refl refl refl
  move_at-Kept sh w outcome (settling st) = kept refl refl refl refl refl refl
  move_at-Kept sh w outcome releasing = record {
    id = refl;
    guest = refl;
    retry = refl;
    limit = refl;
    counter = refl;
    sems =
        λ name e. ground (arith, lookup-modify w.guest name suc sh.sems, text_beq_iff w.guest name);
  }
  move_at-Kept sh w outcome finished = tt

  pub move-Kept :
      (sh : Shared) (w : Worker) (outcome : Result MeshError GuestResponse) (t : Shared)
      (v : Worker)
      → move debug sh w outcome ≡ some (t, v)
      → Kept sh t w v
  move-Kept sh w outcome t v h =
      subst (Yields (λ t v. Kept sh t w v)) h (move_at-Kept sh w outcome w.pc)

  fits-answered :
      (top n : ℕ) (outcome : Result MeshError GuestResponse) (o : Option TaskStatus)
      → fits (invoking n) o ≡ true
      → fits (after_attempt debug top n outcome) o ≡ true
  unfolding after_attempt failure_status
  fits-answered top n (ok response) o f = ground arith
  fits-answered top n (err e) o f = ground arith

  acquire-Statuses :
      (sh : Shared) (w : Worker) (o : Option ℕ)
      → fits acquiring (lookup w.id sh.statuses) ≡ true
      → Yields (λ t v. Statuses sh t w v) (acquire sh w o)
  acquire-Statuses sh w none f = tt
  acquire-Statuses sh w (some zero) f = tt
  acquire-Statuses sh w (some (suc p)) f = same-Statuses sh _ w _ refl (fits-acquired _ f)

  move_at-Statuses :
      (sh : Shared) (w : Worker) (outcome : Result MeshError GuestResponse) (p : Pc)
      → fits p (lookup w.id sh.statuses) ≡ true
      → Yields (λ t v. Statuses sh t w v) (move_at debug sh w outcome p)
  unfolding move_at
  move_at-Statuses sh w outcome acquiring f = acquire-Statuses sh w (lookup w.guest sh.sems) f
  move_at-Statuses sh w outcome (starting n) f =
      set_status-Statuses sh w _ task_running refl (λ a h. fits-begun n a (rw (h) at f))
  move_at-Statuses sh w outcome (invoking n) f =
      same-Statuses sh _ w _ refl (fits-answered w.retry.max_retries n outcome _ f)
  move_at-Statuses sh w outcome (backing_off n) f = same-Statuses sh _ w _ refl (ground (arith, f))
  move_at-Statuses sh w outcome (settling st) f =
      set_status-Statuses sh w _ st (settling-terminal st _ f)
        (λ a h. inr (fits-settled st a (rw (h) at f)))
  move_at-Statuses sh w outcome releasing f = same-Statuses sh _ w _ refl f
  move_at-Statuses sh w outcome finished f = tt

  pub move-Statuses :
      (sh : Shared) (w : Worker) (outcome : Result MeshError GuestResponse) (t : Shared)
      (v : Worker)
      → fits w.pc (lookup w.id sh.statuses) ≡ true
      → move debug sh w outcome ≡ some (t, v)
      → Statuses sh t w v
  move-Statuses sh w outcome t v f h =
      subst (Yields (λ t v. Statuses sh t w v)) h (move_at-Statuses sh w outcome w.pc f)
