-- ===== src/Admission/Calls.antt =====
-- kanbrick-api/src/admission.rs: the calls of `admit`, interleaved in any order. A step is one access
-- to a semaphore or a counter.
use kanbrick_v.Common.{Text, List, [], ◌∷◌, ◌++◌, ◌≡◌, Option, none, some}
use kanbrick_v.Admission.{
  AdmissionConfig, GuestSlot, GuestAdmission, admission, slot_of, put_slot, try_queue, refuse,
  enter, leave_queued, acquire_permit, release_queue, release_permit,
}

-- How far a call is: the queue was full, and the refusal is to be counted; it has its permit of the
-- queue; it is counted as queued and waits; it has its permit of the concurrency too and is still
-- counted; it runs, with its `Permit`; its future was dropped before, and the guard is to be dropped,
-- or the permit of the queue is; its `Permit` is dropped, the permit of the queue first.
pub data Stage : Type 0 where
  turned_away reserved waiting holding running cancelled leaving finishing : Stage

pub record Call : Type 0 where
  pub guest : Text
  pub stage : Stage

-- The steps of one call, from none before it to none after it, and of its guest's slot. A future that
-- is dropped at the `await` gives back the permit that it may have been handed.
pub data Move : Option Stage → Option Stage → GuestSlot → GuestSlot → Type 0 where
  reserves : {s t : GuestSlot} → try_queue s ≡ some t → Move none (some reserved) s t
  finds_full : {s : GuestSlot} → try_queue s ≡ none → Move none (some turned_away) s s
  is_refused : {s : GuestSlot} → Move (some turned_away) none s (refuse s)
  queues : {s : GuestSlot} → Move (some reserved) (some waiting) s (enter s)
  acquires : {s t : GuestSlot} → acquire_permit s ≡ some t → Move (some waiting) (some holding) s t
  begins : {s : GuestSlot} → Move (some holding) (some running) s (leave_queued s)
  cancels : {s : GuestSlot} → Move (some waiting) (some cancelled) s s
  hands_back : {s : GuestSlot} → Move (some holding) (some cancelled) s (release_permit s)
  unqueues : {s : GuestSlot} → Move (some cancelled) (some leaving) s (leave_queued s)
  leaves : {s : GuestSlot} → Move (some leaving) none s (release_queue s)
  finishes : {s : GuestSlot} → Move (some running) (some finishing) s (release_queue s)
  ends : {s : GuestSlot} → Move (some finishing) none s (release_permit s)

pub record Desk : Type 0 where
  pub control : GuestAdmission
  pub calls : List Call

abbrev pub calls_of : Text → Option Stage → List Call
calls_of name none = []
calls_of name (some stage) = record { guest = name; stage = stage } ∷ []

-- A call moves, wherever it stands among the others.
pub data Step (d : Desk) : Desk → Type 0 where
  moves :
      (before : List Call) (name : Text) (from to : Option Stage) (after : List Call)
      {slot : GuestSlot}
      → d.calls ≡ before ++ (calls_of name from ++ after)
      → Move from to (slot_of name d.control) slot
      → Step d (record {
        control = put_slot name slot d.control;
        calls = before ++ (calls_of name to ++ after);
      })

pub data Reach (guests : List Text) (config : AdmissionConfig) : Desk → Type 0 where
  initial : Reach guests config (record { control = admission guests config; calls = [] })
  later : {d e : Desk} → Reach guests config d → Step d e → Reach guests config e
