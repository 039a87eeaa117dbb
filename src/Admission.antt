-- ===== src/Admission.antt =====
-- kanbrick-api/src/admission.rs: the slots of guests and the calls that hold their permits.
pub mod Calls
pub mod Counts
pub mod Limits
pub mod Service
mod Tests
use kanbrick_v.Common.{
  ℕ, ◌+◌, ◌-◌, zero, suc, Text, text_eq, List, [], ◌∷◌, map, Option, none, some, Dict, lookup,
  insert, ℤ, pos, negsuc, if◌then◌else◌, ltb, Bool, u64_max, ◌%◌, ◌^◌,
}

pub record AdmissionConfig : Type 0 where
  pub guest_concurrency : ℕ
  pub queue_limit : ℕ

-- `AdmissionConfig::default`
abbrev pub default_admission_config : AdmissionConfig
default_admission_config = record { guest_concurrency = 4; queue_limit = 32 }

abbrev pub larger : ℕ → ℕ → ℕ
larger a b = if ltb a b then b else a

-- `GuestSlot`; a semaphore is its number of permits
pub record GuestSlot : Type 0 where
  pub concurrency : ℕ
  pub queue : ℕ
  pub capacity : ℕ
  pub queued : ℤ
  pub rejected : ℕ

-- `GuestSlot::new`
abbrev pub new_slot : AdmissionConfig → GuestSlot
new_slot config =
    let capacity = larger config.guest_concurrency 1 in
    record {
      concurrency = capacity;
      queue = larger config.queue_limit capacity;
      capacity = capacity;
      queued = pos 0;
      rejected = 0;
    }

-- `fetch_add(1)` and `fetch_sub(1)` on the gauge
abbrev pub increment : ℤ → ℤ
increment (pos n) = pos (suc n)
increment (negsuc zero) = pos 0
increment (negsuc (suc n)) = negsuc n

abbrev pub decrement : ℤ → ℤ
decrement (pos zero) = negsuc 0
decrement (pos (suc n)) = pos n
decrement (negsuc n) = negsuc (suc n)

-- `try_acquire_owned` on the queue: one permit less, or none when there is no permit
abbrev pub try_queue : GuestSlot → Option GuestSlot
try_queue slot = elim slot.queue [ zero ↦ none | suc q ↦ some (record slot { queue = q }) ]

-- `fetch_add(1)` on the counter of refusals
abbrev pub refuse : GuestSlot → GuestSlot
refuse slot = record slot { rejected = (slot.rejected + 1) % 2 ^ 64 }

-- `QueuedGuard::enter`
abbrev pub enter : GuestSlot → GuestSlot
enter slot = record slot { queued = increment slot.queued }

-- A `QueuedGuard` is dropped.
abbrev pub leave_queued : GuestSlot → GuestSlot
leave_queued slot = record slot { queued = decrement slot.queued }

-- `acquire_owned` on the concurrency: one permit less, or none as long as there is no permit
abbrev pub acquire_permit : GuestSlot → Option GuestSlot
acquire_permit slot = elim slot.concurrency [
  | zero ↦ none
  | suc c ↦ some (record slot { concurrency = c })
]

-- A permit of the queue is dropped.
abbrev pub release_queue : GuestSlot → GuestSlot
release_queue slot = record slot { queue = slot.queue + 1 }

-- A permit of the concurrency is dropped.
abbrev pub release_permit : GuestSlot → GuestSlot
release_permit slot = record slot { concurrency = slot.concurrency + 1 }

-- `GuestAdmission`
pub record GuestAdmission : Type 0 where
  pub config : AdmissionConfig
  pub slots : Dict Text GuestSlot

unfoldable pub seeded : AdmissionConfig → List Text → Dict Text GuestSlot
seeded config [] = []
seeded config (name ∷ rest) = insert name (new_slot config) (seeded config rest)

-- `GuestAdmission::new`
abbrev pub admission : List Text → AdmissionConfig → GuestAdmission
admission guests config = record { config = config; slots = seeded config guests }

abbrev pub or_new : AdmissionConfig → Option GuestSlot → GuestSlot
or_new config none = new_slot config
or_new config (some slot) = slot

-- `GuestAdmission::slot`: a guest that is met for the first time has a new one.
unfoldable pub slot_of : Text → GuestAdmission → GuestSlot
slot_of name a = or_new a.config (lookup name a.slots)

unfoldable pub put_slot : Text → GuestSlot → GuestAdmission → GuestAdmission
put_slot name slot a = record a { slots = insert name slot a.slots }

pub record AdmissionMetric : Type 0 where
  pub queued : ℤ
  pub rejected : ℕ
  pub in_use : ℕ
  pub capacity : ℕ

-- What `snapshot` tells of a slot
abbrev pub metric : GuestSlot → AdmissionMetric
metric slot = record {
  queued = slot.queued;
  rejected = slot.rejected;
  in_use = slot.capacity - slot.concurrency;
  capacity = slot.capacity;
}
