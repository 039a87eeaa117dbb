-- ===== src/Mesh/Scheduler/Safety.antt =====
-- kanbrick-mesh/src/scheduler.rs: the limit per guest, the ids of tasks, and the life of a status.
use kanbrick_v.Common.{
  ℕ, ◌+◌, ◌^◌, ◌<◌, ◌≤◌, Text, nat_eq, nat_beq, nat_beq_iff, List, [], ◌∷◌, ◌++◌, length, All, ◌≡◌,
  refl, subst, Option, none, some, Bool, Bool-cases, true, arith, ◌⊎◌, inl, inr, if◌then◌else◌,
}
use kanbrick_v.Core.Context.{FirmContext}
use kanbrick_v.Mesh.Abi.{GuestRequest}
use kanbrick_v.Mesh.Task.{
  TaskStatus, task_queued, is_terminal, may_follow, RetryPolicy, SchedulerConfig, at_least,
}
use kanbrick_v.Mesh.Scheduler.{
  Scheduler, with_config, schedule_with_retry, guest_semaphore, status, wait, seen,
}
use kanbrick_v.Mesh.Scheduler.Permits.{present, permits, running}
use kanbrick_v.Mesh.Scheduler.Moves.{move-Kept}
use kanbrick_v.Mesh.Scheduler.Invariant.{Inv}
use kanbrick_v.Mesh.Scheduler.Submitting.{more-statuses, more-length}
use kanbrick_v.Mesh.Scheduler.Working.{is_Statuses, Step-length, Reach-Inv}
use kanbrick_v.Mesh.Scheduler.System.{
  Step, scheduled, moved, worked, Reach, initial, later, Steps, here, andthen,
}

absent {ℓ} : {A : Type ℓ} (o : Option A) → (present o ≡ true → ⊥) → o ≡ none
absent none f = refl
absent (some a) f = absurd (f refl)

seen-cases :
    (late : Bool) (next o : Option TaskStatus) (a : TaskStatus)
    → seen late next o ≡ some a
    → ((o ≡ some a) × (is_terminal a ≡ true)) ⊎ (next ≡ some a)
seen-cases late next none a h = absurd (ground arith)
seen-cases late next (some b) a h = ground arith

-- What a status may be after a step.
abbrev Lives : Scheduler → Scheduler → TaskStatus → ℕ → Type 0
Lives s t a i =
    status i s ≡ some a
    → (b : TaskStatus) × (status i t ≡ some b) × ((b ≡ a) ⊎ (may_follow a b ≡ true))

module _ (debug : Text → Text) where
  Reach-limit :
      {config : SchedulerConfig} {s : Scheduler}
      → Reach debug config s
      → s.shared.per_guest ≡ at_least 1 config.per_guest_concurrency
  unfolding with_config schedule_with_retry guest_semaphore
  Reach-limit initial = refl
  Reach-limit (later r (scheduled name ctx request time retry)) = Reach-limit r
  Reach-limit (later {s} r (moved (worked before w after outcome sh v e h))) =
      omega (arith, (move-Kept debug s.shared w outcome sh v h).limit, Reach-limit r)

  -- In every reachable state with at most 2^64 tasks, and for every guest, the free permits and the
  -- running workers make up the configured concurrency, which is taken to be at least one.
  pub permits_conserved :
      {config : SchedulerConfig} {s : Scheduler}
      → length s.workers ≤ 2 ^ 64
      → Reach debug config s
      → (guest : Text)
      → permits s.shared guest + running guest s.workers ≡ at_least 1 config.per_guest_concurrency
  permits_conserved few r guest =
      omega (arith, (Reach-Inv debug few r).conserved guest, Reach-limit r)

  unknown_id :
      {s : Scheduler} → length s.workers < 2 ^ 64 → Inv s → status s.shared.next_id s ≡ none
  unfolding status
  unknown_id {s} few inv =
      absent _ (λ p. omega (arith, inv.known s.shared.next_id p, inv.counter, few))

  -- A task that is scheduled in a reachable state with fewer than 2^64 tasks gets an id that has no
  -- status yet. It is then queued under that id, and no other status has changed.
  pub schedule_with_retry-fresh :
      {config : SchedulerConfig} {s : Scheduler} (name : Text) (ctx : FirmContext)
      (request : GuestRequest) (time : Option ℕ) (retry : RetryPolicy)
      → length s.workers < 2 ^ 64
      → Reach debug config s
      → (status s.shared.next_id s ≡ none)
        × ((j : ℕ)
            → status j (schedule_with_retry name ctx request time retry s).1 ≡ (
                if nat_beq (schedule_with_retry name ctx request time retry s).0 j
                then some task_queued
                else status j s))
  unfolding status schedule_with_retry
  schedule_with_retry-fresh {s} name ctx request time retry few r = (
    unknown_id few (Reach-Inv debug (omega (arith, few)) r),
    λ j. more-statuses name ctx request time retry s j,
  )

  Inv-Lives :
      {s t : Scheduler} (i : ℕ) (a : TaskStatus)
      → length t.workers ≤ 2 ^ 64
      → Inv s
      → Step debug s t
      → Lives s t a i
  unfolding status
  Inv-Lives {s} i a few inv (scheduled name ctx request time retry) h =
      elim (Bool-cases (nat_beq s.shared.next_id i)) [
        | inl same ↦ absurd (
            ground (
              arith,
              unknown_id {s = s} (omega (arith, few, more-length name ctx request time retry s))
                  inv,
              nat_beq_iff s.shared.next_id i,
            ))
        | inr other ↦ (a, rw (more-statuses name ctx request time retry s i, other) h, inl refl)
      ]
  Inv-Lives {s} i a few inv (moved (worked before w after outcome sh v e g)) h =
      elim (Bool-cases (nat_beq w.id i)) [
        | inl same ↦
            subst (Lives s (record s { shared = sh; workers = before ++ v ∷ after }) a)
              (ground (arith, nat_beq_iff w.id i))
              ((is_Statuses debug s before w after outcome sh v e g inv).lifecycle a) h
        | inr other ↦ (
          a,
          ground (
            arith,
            (is_Statuses debug s before w after outcome sh v e g inv).others i,
            nat_beq_iff w.id i,
          ),
          inl refl,
        )
      ]

  -- In a reachable state with at most 2^64 tasks after the step, a step keeps the status of a task,
  -- or changes it the way the lifecycle says.
  pub Step-lifecycle :
      {config : SchedulerConfig} {s t : Scheduler} (i : ℕ) (a : TaskStatus)
      → length t.workers ≤ 2 ^ 64
      → Reach debug config s
      → Step debug s t
      → status i s ≡ some a
      → (b : TaskStatus) × (status i t ≡ some b) × ((b ≡ a) ⊎ (may_follow a b ≡ true))
  Step-lifecycle i a few r st h =
      Inv-Lives i a few (Reach-Inv debug (omega (arith, few, Step-length debug st)) r) st h

  Steps-length : {s t : Scheduler} → Steps debug s t → length s.workers ≤ length t.workers
  Steps-length here = omega arith
  Steps-length (andthen q st) = omega (arith, Steps-length q, Step-length debug st)

  Steps-Reach :
      {config : SchedulerConfig} {s t : Scheduler}
      → Reach debug config s
      → Steps debug s t
      → Reach debug config t
  Steps-Reach r here = r
  Steps-Reach r (andthen q st) = later (Steps-Reach r q) st

  stays :
      (a : TaskStatus) (o : Option TaskStatus)
      → is_terminal a ≡ true
      → (b : TaskStatus) × (o ≡ some b) × ((b ≡ a) ⊎ (may_follow a b ≡ true))
      → o ≡ some a
  stays a o e (b, f, inl g) = ground arith
  stays a o e (b, f, inr g) = absurd (ground arith)

  -- From a reachable state, a terminal status is the task's status after any number of further
  -- steps, as long as there are at most 2^64 tasks.
  pub terminal-final :
      {config : SchedulerConfig} {s t : Scheduler} (i : ℕ) (a : TaskStatus)
      → length t.workers ≤ 2 ^ 64
      → Reach debug config s
      → Steps debug s t
      → status i s ≡ some a
      → is_terminal a ≡ true
      → status i t ≡ some a
  terminal-final i a few r here h e = h
  terminal-final {t} i a few r (andthen q st) h e = stays a (status i t) e (
      Step-lifecycle i a few (Steps-Reach r q) st
        (terminal-final i a (omega (arith, few, Step-length debug st)) r q h e))

  -- The scheduler as `wait` finds it is one that comes to be the scheduler `t`.
  abbrev pub Before : SchedulerConfig → Scheduler → Scheduler × Bool → Type 0
  Before config t (s, late) = Reach debug config s × Steps debug s t

  -- What `wait` returns is a terminal status, and it is still the task's status in any state with
  -- at most 2^64 tasks that comes after what `wait` saw.
  pub wait-final :
      (config : SchedulerConfig) (t : Scheduler) (i : ℕ) (a : TaskStatus)
      (glances : List (Scheduler × Bool))
      → length t.workers ≤ 2 ^ 64
      → All (Before config t) glances
      → wait i glances ≡ some a
      → (is_terminal a ≡ true) × (status i t ≡ some a)
  unfolding wait
  wait-final config t i a [] few all h = absurd (ground arith)
  wait-final config t i a ((s, late) ∷ glances) few ((r, q), rest) h =
      elim (seen-cases late (wait i glances) (status i s) a h) [
        | inl (e, f) ↦ (f, terminal-final i a few r q e f)
        | inr e ↦ wait-final config t i a glances few rest e
      ]
