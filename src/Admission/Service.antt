-- ===== src/Admission/Service.antt =====
-- kanbrick-api/src/admission.rs: what admission control promises of a guest's calls.
use kanbrick_v.Common.{ℕ, ◌≤◌, Text, List, ◌≡◌, refl, true, pos, arith}
use kanbrick_v.Admission.{AdmissionConfig, GuestSlot, slot_of, metric, larger}
use kanbrick_v.Admission.Calls.{
  Stage, turned_away, reserved, waiting, holding, running, cancelled, leaving, finishing, Desk,
  Reach, initial, later,
}
use kanbrick_v.Admission.Counts.{has_queue, has_permit, is_queued, runs, count, count_le}
use kanbrick_v.Admission.Limits.{Balanced, Inv, Inv-init, Step-Inv}

Reach-Inv :
    {guests : List Text} {config : AdmissionConfig} {d : Desk}
    → Reach guests config d
    → Inv config d
Reach-Inv {guests} {config} initial = Inv-init config guests
Reach-Inv {config} (later r st) = Step-Inv config st (Reach-Inv r)

-- A call that runs holds a permit of the concurrency, and one of the queue.
runs-has_permit : (stage : Stage) → runs stage ≡ true → has_permit stage ≡ true
runs-has_permit running h = refl
runs-has_permit turned_away h = cc
runs-has_permit reserved h = cc
runs-has_permit waiting h = cc
runs-has_permit holding h = refl
runs-has_permit cancelled h = cc
runs-has_permit leaving h = cc
runs-has_permit finishing h = refl

-- In every state that is reached, between any two accesses to the semaphores and counters, the
-- metrics of a guest tell how many of its calls are counted as queued and how many hold a permit of
-- the concurrency: those that run, those that have just been handed it and are still counted as
-- queued, and those that have given back the permit of the queue and are to give this one back. No
-- more of them hold it than the configured concurrency, taken to be at least one, so that no more
-- run; and no more hold a permit of the queue than its limit, taken to be at least the concurrency.
pub metric-exact :
    {guests : List Text} {config : AdmissionConfig} {d : Desk}
    → Reach guests config d
    → (name : Text)
    → ((metric (slot_of name d.control)).queued ≡ pos (count is_queued name d.calls))
      × ((metric (slot_of name d.control)).in_use ≡ count has_permit name d.calls)
      × (count has_permit name d.calls ≤ larger config.guest_concurrency 1)
      × (count runs name d.calls ≤ larger config.guest_concurrency 1)
      × (count has_queue name d.calls
          ≤ larger config.queue_limit (larger config.guest_concurrency 1))
metric-exact {config} {d} r name =
    balance config (slot_of name d.control) _ _ _ _
      (count_le runs has_permit name d.calls runs-has_permit) (Reach-Inv r name)
  where
    balance :
        (config : AdmissionConfig) (slot : GuestSlot) (q p w n : ℕ)
        → n ≤ p
        → Balanced config slot q p w
        → ((metric slot).queued ≡ pos w)
          × ((metric slot).in_use ≡ p)
          × (p ≤ larger config.guest_concurrency 1)
          × (n ≤ larger config.guest_concurrency 1)
          × (q ≤ larger config.queue_limit (larger config.guest_concurrency 1))
    balance config slot q p w n few (a, b, c, e) =
        (e, omega (arith, b), omega (arith, a, b), omega (arith, a, b, few), ground arith)
