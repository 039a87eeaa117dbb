-- ===== src/Mesh/Scheduler/Progress.antt =====
-- kanbrick-mesh/src/scheduler.rs: the workers are never stuck, and they come to an end.
use kanbrick_v.Common.{
  ℕ, ◌^◌, ◌≤◌, zero, suc, Text, text_eq, nat_eq, List, [], ◌∷◌, ◌++◌, length, All, All-split, ◌≡◌,
  refl, subst, Option, none, some, lookup, Result, true, arith, ◌⊎◌, inl, inr,
}
use kanbrick_v.Mesh.Abi.{GuestResponse}
use kanbrick_v.Mesh.Error.{MeshError}
use kanbrick_v.Mesh.Task.{TaskStatus, is_terminal, SchedulerConfig}
use kanbrick_v.Mesh.Scheduler.{Scheduler, Shared, Worker, Pc, acquiring, finished, status}
use kanbrick_v.Mesh.Scheduler.Permits.{present, present-some, permits, permits_of, running, holds}
use kanbrick_v.Mesh.Scheduler.Moves.{fits}
use kanbrick_v.Mesh.Scheduler.Invariant.{Inv, Served}
use kanbrick_v.Mesh.Scheduler.Working.{Reach-Inv}
use kanbrick_v.Mesh.Scheduler.Thread.{move, move_at}
use kanbrick_v.Mesh.Scheduler.System.{Work, worked, Reach}

-- A worker of the list, with those before and after it.
abbrev Among : (Worker → Type 0) → List Worker → Type 0
Among P ws =
    (before : List Worker) × (w : Worker) × (after : List Worker) × (ws ≡ before ++ w ∷ after) × P w

pub further : {P : Worker → Type 0} (v : Worker) (ws : List Worker) → Among P ws → Among P (v ∷ ws)
further v ws (before, w, after, e, p) = (v ∷ before, w, after, rw (e) refl, p)

holds-cases : (p : Pc) → (holds p ≡ 1) ⊎ (holds p ≡ 0)
holds-cases p = ground arith

find_holder : (ws : List Worker) → Among (λ w. holds w.pc ≡ 1) ws ⊎ All (λ w. holds w.pc ≡ 0) ws
find_holder [] = inr tt
find_holder (w ∷ ws) = elim (holds-cases w.pc) [
  | inl e ↦ inl ([], w, ws, refl, e)
  | inr e ↦ elim (find_holder ws) [ inl rest ↦ inl (further w ws rest) | inr rest ↦ inr (e, rest) ]
]

running-none : (name : Text) (ws : List Worker) → All (λ w. holds w.pc ≡ 0) ws → running name ws ≡ 0
running-none name [] all = refl
running-none name (w ∷ ws) (e, all) = ground (arith, running-none name ws all)

-- Where a thread stands that has no permit
idle-cases : (p : Pc) → holds p ≡ 0 → (p ≡ acquiring) ⊎ (p ≡ finished)
idle-cases p e = ground arith

find_waiting :
    (ws : List Worker)
    → All (λ w. holds w.pc ≡ 0) ws
    → Among (λ w. w.pc ≡ acquiring) ws ⊎ All (λ w. w.pc ≡ finished) ws
find_waiting [] all = inr tt
find_waiting (w ∷ ws) (e, all) = elim (idle-cases w.pc e) [
  | inl waits ↦ inl ([], w, ws, refl, waits)
  | inr ended ↦ elim (find_waiting ws all) [
    | inl rest ↦ inl (further w ws rest)
    | inr rest ↦ inr (ended, rest)
  ]
]

-- The task of the worker has a terminal status.
abbrev pub Ended : Scheduler → Worker → Type 0
Ended s w = (a : TaskStatus) × (status w.id s ≡ some a) × (is_terminal a ≡ true)

fits-finished :
    (o : Option TaskStatus)
    → fits finished o ≡ true
    → (a : TaskStatus) × (o ≡ some a) × (is_terminal a ≡ true)
fits-finished none h = absurd (ground arith)
fits-finished (some a) h = (a, refl, h)

Ended-All :
    (s : Scheduler) (ws : List Worker)
    → All (λ w. w.pc ≡ finished) ws
    → All (Served s.shared) ws
    → All (Ended s) ws
unfolding status
Ended-All s [] all served = tt
Ended-All s (w ∷ ws) (e, all) ((sem, fit), served) = (
  fits-finished _ (subst (λ p. fits p (lookup w.id s.shared.statuses) ≡ true) e fit),
  Ended-All s ws all served,
)

-- A semaphore that exists and has a permit
free :
    (unused n : ℕ) (o : Option ℕ)
    → present o ≡ true
    → permits_of unused o ≡ n
    → 1 ≤ n
    → (q : ℕ) × (o ≡ some (suc q))
free unused n none e f h = absurd (ground arith)
free unused n (some zero) e f h = absurd (omega arith)
free unused n (some (suc q)) e f h = (q, refl)

module _ (debug : Text → Text) (outcome : Result MeshError GuestResponse) where
  holder-moves :
      (sh : Shared) (w : Worker) (p : Pc)
      → holds p ≡ 1
      → present (move_at debug sh w outcome p) ≡ true
  unfolding move_at
  holder-moves sh w p h = ground arith

  waiting-moves :
      (sh : Shared) (w : Worker) (q : ℕ)
      → w.pc ≡ acquiring
      → lookup w.guest sh.sems ≡ some (suc q)
      → present (move debug sh w outcome) ≡ true
  unfolding move_at
  waiting-moves sh w q e f = rw (e, f) refl

  works :
      (s : Scheduler)
      → Among (λ w. present (move debug s.shared w outcome) ≡ true) s.workers
      → (t : Scheduler) × Work debug s t
  works s (before, w, after, e, p) =
      let ((sh, v), h) = present-some (move debug s.shared w outcome) p in
      (
        record s { shared = sh; workers = before ++ v ∷ after },
        worked before w after outcome sh v e h,
      )

  waiting_free :
      (s : Scheduler)
      → Inv s
      → All (λ w. holds w.pc ≡ 0) s.workers
      → Among (λ w. w.pc ≡ acquiring) s.workers
      → Among (λ w. present (move debug s.shared w outcome) ≡ true) s.workers
  unfolding permits
  waiting_free s inv none_run (before, w, after, e, p) =
      let served = subst (All (Served s.shared)) e inv.served in
      let sem = (All-split (Served s.shared) before (w ∷ after) served).1.0.0 in
      let (q, f) =
        free s.shared.per_guest (permits s.shared w.guest) (lookup w.guest s.shared.sems) sem refl (
          omega
            (arith, inv.conserved w.guest, inv.limit, running-none w.guest s.workers none_run)) in
      (before, w, after, e, waiting-moves s.shared w q p f)

  -- In every reachable state with at most 2^64 tasks, whatever the runtime answers, some worker can
  -- move, or every task has a terminal status.
  pub progress :
      {config : SchedulerConfig} {s : Scheduler}
      → length s.workers ≤ 2 ^ 64
      → Reach debug config s
      → ((t : Scheduler) × Work debug s t) ⊎ All (Ended s) s.workers
  progress {s} few r = elim (find_holder s.workers) [
    | inl (before, w, after, e, p) ↦
        inl (works s (before, w, after, e, holder-moves s.shared w w.pc p))
    | inr none_run ↦ elim (find_waiting s.workers none_run) [
      | inl waits ↦ inl (works s (waiting_free s (Reach-Inv debug few r) none_run waits))
      | inr all ↦ inr (Ended-All s s.workers all (Reach-Inv debug few r).served)
    ]
  ]
