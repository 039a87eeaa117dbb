-- ===== src/Admission/Tests.antt =====
-- kanbrick-api/src/admission.rs: two calls of a guest that runs one at a time, and a third.
use kanbrick_v.Common.{
  ℕ, ◌≤◌, Text, text_beq, codes, List, [], ◌∷◌, ◌++◌, ◌≡◌, refl, none, some, pos, lookup, insert,
  text_eq,
}
use kanbrick_v.Admission.{
  AdmissionConfig, GuestSlot, admission, slot_of, put_slot, seeded, try_queue, metric,
}
use kanbrick_v.Admission.Calls.{
  Call, Stage, Desk, Reach, initial, later, moves, reserved, waiting, holding, running, finishing,
  reserves, queues, acquires, begins, finishes, calls_of,
}
use kanbrick_v.Admission.Service.{metric-exact}

abbrev one_and_two : AdmissionConfig
one_and_two = record { guest_concurrency = 1; queue_limit = 2 }

abbrev guest : Text
guest = codes "g"

abbrev slot : ℕ → ℕ → ℕ → GuestSlot
slot c q n = record { concurrency = c; queue = q; capacity = 1; queued = pos n; rejected = 0 }

abbrev empty_desk : Desk
empty_desk = record { control = admission (guest ∷ []) one_and_two; calls = [] }

-- A desk after a step that leaves this slot and these calls.
abbrev next : Desk → GuestSlot → List Call → Desk
next d s calls = record { control = put_slot guest s d.control; calls = calls }

abbrev at : Stage → List Call
at stage = calls_of guest (some stage)

-- The first call runs, and a second one waits.
abbrev both : Desk
both =
    next
      (next
        (next
          (next (next (next empty_desk (slot 1 1 0) (at reserved)) (slot 1 1 1) (at waiting))
            (slot 0 1 1) (at holding))
          (slot 0 1 0) (at running))
        (slot 0 0 0) (at reserved ++ at running))
      (slot 0 0 1) (at waiting ++ at running)

both-Reach : Reach (guest ∷ []) one_and_two both
unfolding slot_of put_slot seeded insert lookup text_beq
both-Reach =
    later
      (later
        (later
          (later
            (later
              (later initial
                (moves [] guest none (some reserved) [] {slot = slot 1 1 0} refl (reserves refl)))
              (moves [] guest (some reserved) (some waiting) [] {slot = slot 1 1 1} refl queues))
            (moves [] guest (some waiting) (some holding) [] {slot = slot 0 1 1} refl
              (acquires refl)))
          (moves [] guest (some holding) (some running) [] {slot = slot 0 1 0} refl begins))
        (moves [] guest none (some reserved) (at running) {slot = slot 0 0 0} refl (reserves refl)))
      (moves [] guest (some reserved) (some waiting) (at running) {slot = slot 0 0 1} refl queues)

third_refused : try_queue (slot_of guest both.control) ≡ none
unfolding slot_of put_slot seeded insert lookup text_beq
third_refused = refl

metric-exact_example :
    ((metric (slot_of guest both.control)).queued ≡ pos 1)
    × ((metric (slot_of guest both.control)).in_use ≡ 1)
    × (1 ≤ 1)
    × (1 ≤ 1)
    × (2 ≤ 2)
unfolding text_beq
metric-exact_example = metric-exact both-Reach guest

-- The first call gives back its permit of the queue before that of the concurrency: a new call gets
-- in while the permit is still held, and there are more calls than the limit of the queue.
abbrev crowded : Desk
crowded =
    next (next both (slot 0 1 1) (at waiting ++ at finishing)) (slot 0 0 1)
      (at reserved ++ at waiting ++ at finishing)

crowded-Reach : Reach (guest ∷ []) one_and_two crowded
unfolding slot_of put_slot seeded insert lookup text_beq
crowded-Reach =
    later
      (later both-Reach (
        moves (at waiting) guest (some running) (some finishing) [] {slot = slot 0 1 1} refl
          finishes))
      (moves [] guest none (some reserved) (at waiting ++ at finishing) {slot = slot 0 0 1} refl
        (reserves refl))
