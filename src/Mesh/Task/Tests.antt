-- ===== src/Mesh/Task/Tests.antt =====
-- kanbrick-mesh/src/scheduler.rs: delays and deadlines at concrete values.
use kanbrick_v.Common.{◌*◌, ◌-◌, ◌<◌, ◌≤◌, ◌≡◌, ◌⊎◌, refl, some, none, arith, u64_max}
use kanbrick_v.Mesh.Task.Policy.{backoff, exponential, deadline_ticks, u32_max}
use kanbrick_v.Mesh.Task.Delays.{deadline_ticks-cover}

third_delay : backoff (exponential 5 1000 2) 3 ≡ 8000
unfolding backoff
third_delay = refl

-- The multiplier stays at `u32::MAX` when the power overflows.
overflowed : backoff (exponential 50 1000 2) 40 ≡ 1000 * u32_max
unfolding backoff
overflowed = refl

rounded_up : deadline_ticks 10 (some 25) ≡ 3
unfolding deadline_ticks
rounded_up = refl

unbounded : deadline_ticks 10 none ≡ u64_max
unfolding deadline_ticks
unbounded = refl

deadline_ticks-cover_example :
    (1 ≤ deadline_ticks 10 (some 25))
    × (deadline_ticks 10 (some 25) ≤ u64_max)
    × ((25 ≤ deadline_ticks 10 (some 25) * 10) ⊎ (deadline_ticks 10 (some 25) ≡ u64_max))
    × (0 < 25 → (deadline_ticks 10 (some 25) - 1) * 10 < 25)
deadline_ticks-cover_example = deadline_ticks-cover 10 25 (omega arith)
