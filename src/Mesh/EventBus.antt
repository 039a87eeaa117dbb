-- ===== src/Mesh/EventBus.antt =====
-- kanbrick-mesh/src/event.rs: the bus, its subscriptions and its replayable log. A handler is named
-- by a value of the type `H`, and what `emit` and `replay` hand to handlers is returned in order.
pub mod Log
mod Tests
use kanbrick_v.Common.{
  ℕ, ◌+◌, ◌-◌, ◌%◌, ◌^◌, zero, suc, Text, text_beq, List, [], ◌∷◌, ◌++◌, map, retain, length,
  Option, none, some, Bool, true, not, nat_beq, if◌then◌else◌, ltb,
}
use kanbrick_v.Mesh.Abi.{Event}

pub record Subscription (H : Type 0) : Type 0 where
  pub id : ℕ
  pub kind : Text
  pub handler : H

-- `Inner`, the state behind the lock
pub record EventBus (H : Type 0) : Type 0 where
  pub log : List Event
  pub subscriptions : List (Subscription H)
  pub next_id : ℕ
  pub capacity : Option ℕ

-- `Vec::drain` of a front, and `skip`
abbrev pub drop : ℕ → List Event → List Event
drop zero xs = xs
drop (suc n) [] = []
drop (suc n) (x ∷ xs) = drop n xs

-- The log after the eviction of its oldest events
abbrev pub bounded : Option ℕ → List Event → List Event
bounded none log = log
bounded (some capacity) log =
    if ltb capacity (length log) then drop (length log - capacity) log else log

abbrev pub kind_matches : Option Text → Event → Bool
kind_matches none e = true
kind_matches (some k) e = text_beq e.kind k

module _ {H : Type 0} where
  -- `EventBus::new`
  abbrev pub new_bus : EventBus H
  new_bus = record { log = []; subscriptions = []; next_id = 0; capacity = none }

  -- `EventBus::with_capacity`
  abbrev pub with_capacity : ℕ → EventBus H
  with_capacity capacity = record new_bus {
    capacity = some (if ltb capacity 1 then 1 else capacity);
  }

  -- `EventBus::subscribe`: the id, and the bus
  unfoldable pub subscribe : Text → H → EventBus H → ℕ × EventBus H
  subscribe kind handler bus = (
    bus.next_id,
    record bus {
      next_id = (bus.next_id + 1) % 2 ^ 64;
      subscriptions =
          bus.subscriptions ++ record { id = bus.next_id; kind = kind; handler = handler } ∷ [];
    },
  )

  -- `EventBus::unsubscribe`
  unfoldable pub unsubscribe : ℕ → EventBus H → EventBus H
  unsubscribe i bus = record bus {
    subscriptions = retain (λ s. not (nat_beq s.id i)) bus.subscriptions;
  }

  -- `EventBus::emit`: the handlers that are notified, in order, and the bus
  unfoldable pub emit : Event → EventBus H → List H × EventBus H
  emit event bus = (
    map (λ s. s.handler) (retain (λ s. text_beq s.kind event.kind) bus.subscriptions),
    record bus { log = bounded bus.capacity (bus.log ++ event ∷ []) },
  )

  -- `EventBus::history`
  abbrev pub history : EventBus H → List Event
  history bus = bus.log

  -- `EventBus::replay`: the events that the handler is given, in order
  unfoldable pub replay : Option Text → EventBus H → List Event
  replay kind bus = retain (kind_matches kind) bus.log

  -- `emit`, for each event of a list
  abbrev pub emit_all : List Event → EventBus H → EventBus H
  emit_all [] bus = bus
  emit_all (e ∷ es) bus = emit_all es (emit e bus).1
