-- ===== src/Mesh/EventBus/Tests.antt =====
-- kanbrick-mesh/src/event.rs: a bus that keeps two events, with two subscribers.
use kanbrick_v.Common.{
  ℕ, ◌≤◌, ◌≡◌, refl, arith, Text, codes, List, [], ◌∷◌, ◌++◌, length, none, some,
}
use kanbrick_v.Json.{null}
use kanbrick_v.Mesh.Abi.{Event}
use kanbrick_v.Mesh.EventBus.{
  EventBus, emit, emit_all, subscribe, unsubscribe, replay, history, with_capacity,
}

abbrev event : Text → Event
event k = record { kind = k; payload = null }

abbrev valued : Event
valued = event (codes "valuation.completed")

abbrev reported : Event
reported = event (codes "report.completed")

abbrev busy : EventBus ℕ
busy =
    (subscribe (codes "report.completed") 8
      (subscribe (codes "valuation.completed") 7 (with_capacity 2)).1).1

notified : (emit reported busy).0 ≡ 8 ∷ []
unfolding emit subscribe kanbrick_v.Common.text_beq
notified = refl

unsubscribed : (emit reported (unsubscribe 1 busy)).0 ≡ []
unfolding emit subscribe unsubscribe kanbrick_v.Common.text_beq
unsubscribed = refl

evicted :
    replay (some (codes "valuation.completed")) (emit_all (valued ∷ reported ∷ reported ∷ []) busy)
    ≡ []
unfolding emit subscribe replay kanbrick_v.Common.text_beq
evicted = refl

at_least_one : history (emit_all (valued ∷ []) (with_capacity {H = ℕ} 0)) ≡ valued ∷ []
unfolding emit
at_least_one = refl
