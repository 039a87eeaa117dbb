-- ===== src/Mesh/Task/Policy.antt =====
-- kanbrick-mesh/src/scheduler.rs: `RetryPolicy`, `SchedulerConfig` and `Scheduler::deadline_ticks`.
-- A `Duration` is its number of nanoseconds.
use kanbrick_v.Common.{ℕ, ◌+◌, ◌*◌, ◌-◌, ◌/◌, ◌^◌, Option, none, some, if◌then◌else◌, ltb, u64_max}

abbrev pub u32_max : ℕ
u32_max = 4294967295

-- `Duration::MAX`: `u64::MAX` seconds and 999,999,999 nanoseconds
abbrev pub duration_max : ℕ
duration_max = 18446744073709551615999999999

pub record SchedulerConfig : Type 0 where
  pub per_guest_concurrency : ℕ
  pub tick : ℕ

-- `SchedulerConfig::default`
abbrev pub default_scheduler_config : SchedulerConfig
default_scheduler_config = record { per_guest_concurrency = 4; tick = 10 * 1000000 }

pub record RetryPolicy : Type 0 where
  pub max_retries : ℕ
  pub base_delay : ℕ
  pub factor : ℕ

-- `RetryPolicy::none`
abbrev pub no_retries : RetryPolicy
no_retries = record { max_retries = 0; base_delay = 0; factor = 1 }

-- `RetryPolicy::exponential`
abbrev pub exponential : ℕ → ℕ → ℕ → RetryPolicy
exponential max_retries base_delay factor = record {
  max_retries = max_retries;
  base_delay = base_delay;
  factor = factor;
}

-- A value of a checked operation, or what `unwrap_or` puts in its place when it is above the bound.
abbrev pub saturated : ℕ → ℕ → ℕ
saturated top n = if ltb top n then top else n

-- `RetryPolicy::backoff`, with `checked_pow` on `u32` and `Duration::checked_mul`
unfoldable pub backoff : RetryPolicy → ℕ → ℕ
backoff retry retry_index =
    let multiplier = saturated u32_max (retry.factor ^ retry_index) in
    saturated duration_max (retry.base_delay * multiplier)

abbrev pub at_least : ℕ → ℕ → ℕ
at_least low n = if ltb n low then low else n

-- `u128::div_ceil`, for a divisor that is not zero
abbrev pub div_ceil : ℕ → ℕ → ℕ
div_ceil n d = (n + (d - 1)) / d

-- `Scheduler::deadline_ticks`
unfoldable pub deadline_ticks : ℕ → Option ℕ → ℕ
deadline_ticks tick none = u64_max
deadline_ticks tick (some d) = at_least 1 (saturated u64_max (div_ceil d (at_least 1 tick)))
