-- ===== src/Mesh/Scheduler/Invariant.antt =====
-- kanbrick-mesh/src/scheduler.rs: what every reachable state of the scheduler satisfies.
use kanbrick_v.Common.{
  ℕ, ◌+◌, ◌%◌, ◌^◌, ◌<◌, ◌≤◌, suc, Text, text_eq, nat_eq, List, [], ◌∷◌, ◌++◌, length, All, ◌≡◌,
  ◌≢◌, refl, subst, lookup, true, arith,
}
use kanbrick_v.Mesh.Task.{SchedulerConfig}
use kanbrick_v.Mesh.Scheduler.{Scheduler, Shared, Worker, with_config}
use kanbrick_v.Mesh.Scheduler.Permits.{present, permits, running}
use kanbrick_v.Mesh.Scheduler.Moves.{fits}

-- The workers have the ids from `n` on, in order.
abbrev pub Numbered : ℕ → List Worker → Type 0
Numbered n [] = Unit
Numbered n (w ∷ ws) = (w.id ≡ n) × Numbered (suc n) ws

-- The thread's semaphore is there, and the status of its task is the one it has set.
abbrev pub Served : Shared → Worker → Type 0
Served sh w =
    (present (lookup w.guest sh.sems) ≡ true) × (fits w.pc (lookup w.id sh.statuses) ≡ true)

pub record Inv (s : Scheduler) : Type 0 where
  pub limit : 1 ≤ s.shared.per_guest
  pub conserved :
      (name : Text) → permits s.shared name + running name s.workers ≡ s.shared.per_guest
  pub numbered : Numbered 0 s.workers
  pub counter : s.shared.next_id ≡ length s.workers % 2 ^ 64
  pub served : All (Served s.shared) s.workers
  pub known : (i : ℕ) → present (lookup i s.shared.statuses) ≡ true → i < length s.workers

pub Numbered-append :
    (n : ℕ) (ws vs : List Worker)
    → Numbered n ws
    → Numbered (n + length ws) vs
    → Numbered n (ws ++ vs)
Numbered-append n [] vs a b = subst (λ k. Numbered k vs) (omega arith) b
Numbered-append n (w ∷ ws) vs (e, a) b =
    (e, Numbered-append (suc n) ws vs a (subst (λ k. Numbered k vs) (omega arith) b))

-- A worker of the list has its place as its id, and the workers around it have other ids.
pub Numbered-place :
    (n : ℕ) (before : List Worker) (w : Worker) (after : List Worker)
    → Numbered n (before ++ w ∷ after)
    → (w.id ≡ n + length before) × Numbered n before × Numbered (suc (n + length before)) after
Numbered-place n [] w after (e, a) =
    (omega (arith, e), tt, subst (λ k. Numbered (suc k) after) (omega arith) a)
Numbered-place n (v ∷ before) w after (e, a) =
    let (x, y, z) = Numbered-place (suc n) before w after a in
    (omega (arith, x), (e, y), subst (λ k. Numbered k after) (omega arith) z)

pub Numbered-put :
    (n : ℕ) (before : List Worker) (w v : Worker) (after : List Worker)
    → v.id ≡ w.id
    → Numbered n (before ++ w ∷ after)
    → Numbered n (before ++ v ∷ after)
Numbered-put n [] w v after e (f, a) = (ground arith, a)
Numbered-put n (u ∷ before) w v after e (f, a) = (f, Numbered-put (suc n) before w v after e a)

-- What holds of workers with other ids still holds after a change of one task's status.
pub All-others :
    (sh t : Shared) (i n : ℕ) (ws : List Worker)
    → ((j : ℕ) → i ≢ j → lookup j t.statuses ≡ lookup j sh.statuses)
    → ((name : Text) → present (lookup name sh.sems) ≡ true → present (lookup name t.sems) ≡ true)
    → Numbered n ws
    → ((j : ℕ) → n ≤ j → j < n + length ws → i ≢ j)
    → All (Served sh) ws
    → All (Served t) ws
All-others sh t i n [] others sems num far all = tt
All-others sh t i n (w ∷ ws) others sems (e, num) far ((sem, fit), all) = (
  (sems w.guest sem, rw (others w.id (far w.id (omega (arith, e)) (omega (arith, e)))) fit),
  All-others sh t i (suc n) ws others sems num (λ j a b. far j (omega arith) (omega arith)) all,
)

pub Inv-init : (config : SchedulerConfig) → Inv (with_config config)
unfolding with_config permits lookup
Inv-init config = record {
  limit = ground arith;
  conserved = λ name. omega arith;
  numbered = tt;
  counter = refl;
  served = tt;
  known = λ i h. absurd (ground arith);
}
