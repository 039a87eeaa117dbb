-- ===== src/Mesh/Scheduler/Permits.antt =====
-- kanbrick-mesh/src/scheduler.rs: the permits of a guest's semaphore and the workers that hold them.
use kanbrick_v.Common.{
  ℕ, ◌+◌, zero, suc, Text, text_eq, List, [], ◌∷◌, ◌++◌, ◌≡◌, refl, Bool, true, false, Option, none,
  some, lookup, lookup-insert, lookup-modify, Result, ok, err, if◌then◌else◌, arith, text_beq,
  text_beq_iff,
}
use kanbrick_v.Mesh.Abi.{GuestResponse}
use kanbrick_v.Mesh.Error.{MeshError}
use kanbrick_v.Mesh.Scheduler.{
  Shared, Worker, Pc, acquiring, starting, invoking, backing_off, settling, releasing, finished,
}
use kanbrick_v.Mesh.Scheduler.Thread.{move, move_at, at, acquire, after_attempt}

-- Whether a thread at this point has its guest's permit.
abbrev pub holds : Pc → ℕ
holds acquiring = 0
holds finished = 0
holds _ = 1

abbrev pub held : Text → Worker → ℕ
held name w = if text_beq w.guest name then holds w.pc else 0

-- How many workers run for the guest, an attempt or the delay between two.
abbrev pub running : Text → List Worker → ℕ
running name [] = 0
running name (w ∷ ws) = held name w + running name ws

pub running-append :
    (name : Text) (ws vs : List Worker)
    → running name (ws ++ vs) ≡ running name ws + running name vs
running-append name [] vs = omega arith
running-append name (w ∷ ws) vs = omega (arith, running-append name ws vs)

abbrev pub present {ℓ} : {A : Type ℓ} → Option A → Bool
present none = false
present (some a) = true

pub present-some {ℓ} : {A : Type ℓ} (o : Option A) → present o ≡ true → (a : A) × (o ≡ some a)
present-some none e = absurd (ground arith)
present-some (some a) e = (a, refl)

abbrev pub permits_of : ℕ → Option ℕ → ℕ
permits_of unused none = unused
permits_of unused (some p) = p

-- The permits that the guest's semaphore has, or would be made with.
unfoldable pub permits : Shared → Text → ℕ
permits sh name = permits_of sh.per_guest (lookup name sh.sems)

module _ (debug : Text → Text) where
  after_attempt-holds :
      (top n : ℕ) (outcome : Result MeshError GuestResponse)
      → holds (after_attempt debug top n outcome) ≡ 1
  unfolding after_attempt
  after_attempt-holds top n (ok response) = refl
  after_attempt-holds top n (err e) = ground arith

  acquire-permits :
      (sh : Shared) (w : Worker) (o : Option ℕ) (t : Shared) (v : Worker) (name : Text)
      → lookup w.guest sh.sems ≡ o
      → acquire sh w o ≡ some (t, v)
      → permits t name + held name v ≡ permits sh name + held name (at acquiring w)
  unfolding permits
  acquire-permits sh w none t v name e h = ground arith
  acquire-permits sh w (some zero) t v name e h = ground arith
  acquire-permits sh w (some (suc p)) t v name e h =
      ground (arith, lookup-insert w.guest name p sh.sems, text_beq_iff w.guest name)

  move_at-permits :
      (sh : Shared) (w : Worker) (outcome : Result MeshError GuestResponse) (q : ℕ) (p : Pc)
      (t : Shared) (v : Worker) (name : Text)
      → lookup w.guest sh.sems ≡ some q
      → move_at debug sh w outcome p ≡ some (t, v)
      → permits t name + held name v ≡ permits sh name + held name (at p w)
  unfolding move_at permits
  move_at-permits sh w outcome q acquiring t v name e h =
      acquire-permits sh w (lookup w.guest sh.sems) t v name refl h
  move_at-permits sh w outcome q (starting n) t v name e h = ground arith
  move_at-permits sh w outcome q (invoking n) t v name e h =
      ground (arith, after_attempt-holds w.retry.max_retries n outcome)
  move_at-permits sh w outcome q (backing_off n) t v name e h = ground arith
  move_at-permits sh w outcome q (settling st) t v name e h = ground arith
  move_at-permits sh w outcome q releasing t v name e h =
      ground (arith, lookup-modify w.guest name suc sh.sems, text_beq_iff w.guest name)
  move_at-permits sh w outcome q finished t v name e h = ground arith

  pub move-permits :
      (sh : Shared) (w : Worker) (outcome : Result MeshError GuestResponse) (t : Shared)
      (v : Worker) (name : Text)
      → present (lookup w.guest sh.sems) ≡ true
      → move debug sh w outcome ≡ some (t, v)
      → permits t name + held name v ≡ permits sh name + held name w
  move-permits sh w outcome t v name e h =
      let (q, f) = present-some _ e in move_at-permits sh w outcome q w.pc t v name f h
