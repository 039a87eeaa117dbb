-- ===== src/Mesh/Scheduler/Working.antt =====
-- kanbrick-mesh/src/scheduler.rs: a move of a worker's thread keeps the invariant.
use kanbrick_v.Common.{
  ℕ, ◌+◌, ◌^◌, ◌<◌, ◌≤◌, suc, Text, text_eq, nat_eq, nat_beq, nat_beq_iff, List, [], ◌∷◌, ◌++◌,
  length, length-append, All, All-append, All-split, ◌≡◌, ◌≢◌, subst, some, lookup, Result,
  Bool-cases, true, arith, inl, inr,
}
use kanbrick_v.Mesh.Abi.{GuestResponse}
use kanbrick_v.Mesh.Error.{MeshError}
use kanbrick_v.Mesh.Task.{SchedulerConfig}
use kanbrick_v.Mesh.Scheduler.{Scheduler, Shared, Worker, schedule_with_retry}
use kanbrick_v.Mesh.Scheduler.Permits.{
  present, permits, running, running-append, held, move-permits,
}
use kanbrick_v.Mesh.Scheduler.Moves.{Kept, Statuses, move-Kept, move-Statuses}
use kanbrick_v.Mesh.Scheduler.Invariant.{
  Numbered, Numbered-place, Numbered-put, Served, Inv, Inv-init, All-others,
}
use kanbrick_v.Mesh.Scheduler.Submitting.{more-Inv}
use kanbrick_v.Mesh.Scheduler.Thread.{move}
use kanbrick_v.Mesh.Scheduler.System.{Step, scheduled, moved, worked, Reach, initial, later}

length-put :
    (before : List Worker) (w v : Worker) (after : List Worker)
    → length (before ++ v ∷ after) ≡ length (before ++ w ∷ after)
length-put before w v after =
    omega (arith, length-append before (v ∷ after), length-append before (w ∷ after))

running-put :
    (name : Text) (before : List Worker) (w v : Worker) (after : List Worker)
    → running name (before ++ v ∷ after) + held name w
      ≡ running name (before ++ w ∷ after) + held name v
running-put name before w v after =
    omega (arith, running-append name before (v ∷ after), running-append name before (w ∷ after))

module _ (debug : Text → Text) (s : Scheduler) (before : List Worker) (w : Worker)
    (after : List Worker) (outcome : Result MeshError GuestResponse) (sh : Shared) (v : Worker)
    (e : s.workers ≡ before ++ w ∷ after) (h : move debug s.shared w outcome ≡ some (sh, v))
    (inv : Inv s) where
  abbrev next : Scheduler
  next = record s { shared = sh; workers = before ++ v ∷ after }

  is_kept : Kept s.shared sh w v
  is_kept = move-Kept debug s.shared w outcome sh v h

  in_order : Numbered 0 (before ++ w ∷ after)
  in_order = subst (Numbered 0) e inv.numbered

  before-Served : All (Served s.shared) (before ++ w ∷ after)
  before-Served = subst (All (Served s.shared)) e inv.served

  own-Served : Served s.shared w
  own-Served = (All-split (Served s.shared) before (w ∷ after) before-Served).1.0

  pub is_Statuses : Statuses s.shared sh w v
  is_Statuses = move-Statuses debug s.shared w outcome sh v own-Served.1 h

  pub place : w.id ≡ length before
  place = omega (arith, (Numbered-place 0 before w after in_order).0)

  next-length : length next.workers ≡ length s.workers
  next-length = rw (e) (length-put before w v after)

  was_conserved :
      (name : Text)
      → permits s.shared name + running name (before ++ w ∷ after) ≡ s.shared.per_guest
  was_conserved name =
      subst (λ ws. permits s.shared name + running name ws ≡ s.shared.per_guest) e
        (inv.conserved name)

  next-conserved :
      (name : Text) → permits sh name + running name (before ++ v ∷ after) ≡ sh.per_guest
  next-conserved name = omega (
    arith,
    is_kept.limit,
    running-put name before w v after,
    was_conserved name,
    move-permits debug s.shared w outcome sh v name own-Served.0 h,
  )

  next-known : (i : ℕ) → present (lookup i sh.statuses) ≡ true → i < length next.workers
  next-known i p = elim (Bool-cases (nat_beq w.id i)) [
    | inl same ↦ ground (arith, place, nat_beq_iff w.id i, length-append before (v ∷ after))
    | inr other ↦ ground (arith, is_Statuses.others i, nat_beq_iff w.id i, inv.known i, next-length)
  ]

  others-Served :
      (n : ℕ) (ws : List Worker)
      → Numbered n ws
      → ((j : ℕ) → n ≤ j → j < n + length ws → w.id ≢ j)
      → All (Served s.shared) ws
      → All (Served sh) ws
  others-Served n ws num far all =
      All-others s.shared sh w.id n ws is_Statuses.others is_kept.sems num far all

  next-Served : All (Served sh) (before ++ v ∷ after)
  next-Served =
      All-append (Served sh) before (v ∷ after)
        (others-Served 0 before (Numbered-place 0 before w after in_order).1
          (λ j a b. ground (arith, place))
          (All-split (Served s.shared) before (w ∷ after) before-Served).0)
        (
          rw (is_kept.guest, is_kept.id) (is_kept.sems w.guest own-Served.0, is_Statuses.own),
          others-Served (suc (0 + length before)) after (Numbered-place 0 before w after in_order).2
              (λ j a b. ground (arith, place))
              (All-split (Served s.shared) before (w ∷ after) before-Served).1.1,
        )

  pub next-Inv : Inv next
  next-Inv = record {
    limit = omega (arith, is_kept.limit, inv.limit);
    conserved = next-conserved;
    numbered = Numbered-put 0 before w v after is_kept.id in_order;
    counter = rw (is_kept.counter, next-length) inv.counter;
    served = next-Served;
    known = next-known;
  }

-- The number of tasks never falls.
pub Step-length :
    (debug : Text → Text) {s t : Scheduler} → Step debug s t → length s.workers ≤ length t.workers
unfolding schedule_with_retry
Step-length debug {s} (scheduled name ctx request time retry) =
    omega (arith, length-append s.workers (_ ∷ []))
Step-length debug {s} (moved (worked before w after outcome sh v e h)) =
    rw (e) (omega (arith, length-put before w v after))

pub Step-Inv :
    (debug : Text → Text) {s t : Scheduler}
    → length t.workers ≤ 2 ^ 64
    → Step debug s t
    → Inv s
    → Inv t
Step-Inv debug {s} few (scheduled name ctx request time retry) inv =
    more-Inv name ctx request time retry s few inv
Step-Inv debug {s} few (moved (worked before w after outcome sh v e h)) inv =
    next-Inv debug s before w after outcome sh v e h inv

-- Every state that is reached with at most 2^64 tasks satisfies the invariant.
pub Reach-Inv :
    (debug : Text → Text) {config : SchedulerConfig} {s : Scheduler}
    → length s.workers ≤ 2 ^ 64
    → Reach debug config s
    → Inv s
Reach-Inv debug {config} few initial = Inv-init config
Reach-Inv debug few (later r st) =
    Step-Inv debug few st (Reach-Inv debug (omega (arith, few, Step-length debug st)) r)
