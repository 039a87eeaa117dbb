-- ===== src/Mesh/Scheduler/Bounded.antt =====
-- kanbrick-mesh/src/scheduler.rs: how many moves the workers have left, and the end they come to.
use kanbrick_v.Common.{
  ℕ, ◌+◌, ◌*◌, ◌-◌, ◌<◌, ◌≤◌, zero, suc, Text, text_eq, List, [], ◌∷◌, ◌++◌, ◌≡◌, subst, Option,
  none, some, lookup, Result, ok, err, arith,
}
use kanbrick_v.Mesh.Abi.{GuestResponse}
use kanbrick_v.Mesh.Error.{MeshError}
use kanbrick_v.Mesh.Scheduler.{
  Scheduler, Shared, Worker, Pc, acquiring, starting, invoking, backing_off, settling, releasing,
  finished,
}
use kanbrick_v.Mesh.Scheduler.Moves.{Yields}
use kanbrick_v.Mesh.Scheduler.Thread.{move_at, acquire, after_attempt}
use kanbrick_v.Mesh.Scheduler.System.{Work, worked, Works, idle, one_more}

-- The most moves that a thread has left with this many retries, at this point.
abbrev pub moves_left : ℕ → Pc → ℕ
moves_left top acquiring = 5 + 3 * top
moves_left top (starting n) = 4 + 3 * (top - n)
moves_left top (invoking n) = 3 + 3 * (top - n)
moves_left top (backing_off n) = 5 + 3 * (top - (n + 1))
moves_left top (settling st) = 2
moves_left top releasing = 1
moves_left top finished = 0

abbrev pub work_left : List Worker → ℕ
work_left [] = 0
work_left (w ∷ ws) = moves_left w.retry.max_retries w.pc + work_left ws

work_left-append : (ws vs : List Worker) → work_left (ws ++ vs) ≡ work_left ws + work_left vs
work_left-append [] vs = omega arith
work_left-append (w ∷ ws) vs = omega (arith, work_left-append ws vs)

module _ (debug : Text → Text) where
  answered :
      (top n : ℕ) (outcome : Result MeshError GuestResponse)
      → moves_left top (after_attempt debug top n outcome) < 3 + 3 * (top - n)
  unfolding after_attempt
  answered top n (ok response) = omega arith
  answered top n (err e) = ground arith

  acquire-shorter :
      (sh : Shared) (w : Worker) (o : Option ℕ)
      → Yields
          (λ t v. moves_left v.retry.max_retries v.pc < 5 + 3 * w.retry.max_retries)
          (acquire sh w o)
  acquire-shorter sh w none = tt
  acquire-shorter sh w (some zero) = tt
  acquire-shorter sh w (some (suc q)) = omega arith

  shorter :
      (sh : Shared) (w : Worker) (outcome : Result MeshError GuestResponse) (p : Pc)
      → Yields
          (λ t v. moves_left v.retry.max_retries v.pc < moves_left w.retry.max_retries p)
          (move_at debug sh w outcome p)
  unfolding move_at
  shorter sh w outcome acquiring = acquire-shorter sh w (lookup w.guest sh.sems)
  shorter sh w outcome (starting n) = omega arith
  shorter sh w outcome (invoking n) = answered w.retry.max_retries n outcome
  shorter sh w outcome (backing_off n) = omega arith
  shorter sh w outcome (settling st) = omega arith
  shorter sh w outcome releasing = omega arith
  shorter sh w outcome finished = tt

  Work-shorter : {s t : Scheduler} → Work debug s t → work_left t.workers < work_left s.workers
  Work-shorter {s} (worked before w after outcome sh v e h) = rw (e) (
      omega (
        arith,
        work_left-append before (v ∷ after),
        work_left-append before (w ∷ after),
        subst
            (Yields
              (λ t v. moves_left v.retry.max_retries v.pc < moves_left w.retry.max_retries w.pc))
            h (shorter s.shared w outcome w.pc),
      ))

  -- However the workers' moves are interleaved, they are never more than the moves that the retries
  -- of their tasks leave them.
  pub Works-bounded :
      {s t : Scheduler} {n : ℕ} → Works debug s n t → n + work_left t.workers ≤ work_left s.workers
  Works-bounded idle = omega arith
  Works-bounded (one_more ws st) = omega (arith, Works-bounded ws, Work-shorter st)
