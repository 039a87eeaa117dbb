-- ===== src/Mesh/Scheduler/Submitting.antt =====
-- kanbrick-mesh/src/scheduler.rs: `schedule_with_retry` keeps the invariant.
use kanbrick_v.Common.{
  ℕ, ◌+◌, ◌%◌, ◌^◌, ◌≤◌, Text, text_eq, nat_eq, nat_beq, nat_beq_iff, ==_refl, [], ◌∷◌, length,
  length-append, All-append, ◌≡◌, refl, Option, none, some, Dict, lookup, lookup-insert,
  if◌then◌else◌, arith, text_beq, text_beq_iff, ◌||◌,
}
use kanbrick_v.Core.Context.{FirmContext}
use kanbrick_v.Mesh.Abi.{GuestRequest}
use kanbrick_v.Mesh.Task.{task_queued, RetryPolicy, deadline_ticks}
use kanbrick_v.Mesh.Scheduler.{
  Scheduler, Worker, schedule_with_retry, new_worker, guest_semaphore, or_insert,
}
use kanbrick_v.Mesh.Scheduler.Permits.{present, permits, permits_of, running, running-append, held}
use kanbrick_v.Mesh.Scheduler.Invariant.{Numbered-append, Served, Inv, All-others}

held-new_worker :
    (other name : Text) (i : ℕ) (ctx : FirmContext) (request : GuestRequest) (deadline : ℕ)
    (retry : RetryPolicy)
    → held other (new_worker i name ctx request deadline retry) ≡ 0
held-new_worker other name i ctx request deadline retry = ground arith

or_insert-permits :
    (name other : Text) (n : ℕ) (o : Option ℕ) (m : Dict Text ℕ)
    → lookup name m ≡ o
    → permits_of n (lookup other (or_insert name n o m)) ≡ permits_of n (lookup other m)
or_insert-permits name other n none m e =
    ground (arith, lookup-insert name other n m, text_beq_iff name other)
or_insert-permits name other n (some p) m e = refl

or_insert-present :
    (name other : Text) (n : ℕ) (o : Option ℕ) (m : Dict Text ℕ)
    → lookup name m ≡ o
    → present (lookup other (or_insert name n o m))
      ≡ (text_beq name other || present (lookup other m))
or_insert-present name other n none m e =
    ground (arith, lookup-insert name other n m, text_beq_iff name other)
or_insert-present name other n (some p) m e = ground (arith, text_beq_iff name other)

-- A scheduled task adds a waiting worker, which takes no permit.
module _ (name : Text) (ctx : FirmContext) (request : GuestRequest) (time : Option ℕ)
    (retry : RetryPolicy) (s : Scheduler) where
  abbrev pub more : Scheduler
  more = (schedule_with_retry name ctx request time retry s).1

  abbrev pub new : Worker
  new = new_worker s.shared.next_id name ctx request (deadline_ticks s.tick time) retry

  more-permits : (other : Text) → permits more.shared other ≡ permits s.shared other
  unfolding schedule_with_retry guest_semaphore permits
  more-permits other = or_insert-permits name other s.shared.per_guest _ s.shared.sems refl

  more-running : (other : Text) → running other more.workers ≡ running other s.workers
  unfolding schedule_with_retry
  more-running other = omega (
    arith,
    running-append other s.workers (new ∷ []),
    held-new_worker other name s.shared.next_id ctx request (deadline_ticks s.tick time) retry,
  )

  more-sems :
      (other : Text)
      → present (lookup other more.shared.sems)
        ≡ (text_beq name other || present (lookup other s.shared.sems))
  unfolding schedule_with_retry guest_semaphore
  more-sems other = or_insert-present name other s.shared.per_guest _ s.shared.sems refl

  pub more-statuses :
      (j : ℕ)
      → lookup j more.shared.statuses
        ≡ (if nat_beq s.shared.next_id j then some task_queued else lookup j s.shared.statuses)
  unfolding schedule_with_retry guest_semaphore
  more-statuses j = lookup-insert s.shared.next_id j task_queued s.shared.statuses

  pub more-length : length more.workers ≡ length s.workers + 1
  unfolding schedule_with_retry
  more-length = length-append s.workers _

  pub counter-eq :
      length s.workers + 1 ≤ 2 ^ 64
      → s.shared.next_id ≡ length s.workers % 2 ^ 64
      → s.shared.next_id ≡ length s.workers
  counter-eq fits_in h = omega arith

  more-Served : Served more.shared new
  unfolding schedule_with_retry guest_semaphore
  more-Served = (
    rw (more-sems name, ==_refl name) refl,
    rw (more-statuses s.shared.next_id, ==_refl s.shared.next_id) refl,
  )

  pub more-Inv : length more.workers ≤ 2 ^ 64 → Inv s → Inv more
  unfolding schedule_with_retry guest_semaphore
  more-Inv fits_in inv = record {
    limit = inv.limit;
    conserved = λ other. rw (more-permits other, more-running other) (inv.conserved other);
    numbered = Numbered-append 0 s.workers (new ∷ []) inv.numbered (omega (arith, here), tt);
    counter = rw (more-length) (omega (arith, inv.counter));
    served =
        All-append _ s.workers (new ∷ [])
          (All-others s.shared more.shared s.shared.next_id 0 s.workers
            (λ j ne. ground (arith, more-statuses j, nat_beq_iff s.shared.next_id j))
            (λ other h. ground (arith, more-sems other)) inv.numbered
            (λ j a b. ground (arith, here)) inv.served)
          (more-Served, tt);
    known = λ i h.
        ground
          (arith, more-statuses i, nat_beq_iff s.shared.next_id i, inv.known i, here, more-length);
  }
    where
      here : s.shared.next_id ≡ length s.workers
      here = counter-eq (omega (arith, fits_in, more-length)) inv.counter
