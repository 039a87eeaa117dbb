-- ===== src/Mesh/Task/Delays.antt =====
-- kanbrick-mesh/src/scheduler.rs: the delays of `RetryPolicy` and the ticks of a deadline.
use kanbrick_v.Common.{
  ℕ, zero, suc, ◌+◌, ◌*◌, ◌-◌, ◌≤◌, ◌<◌, ◌≡◌, ◌⊎◌, inl, inr, some, u64_max, arith,
}
use native.Mathlib.Nat.{
  mul-le-mul_left, mul-le-mul_right, pow-le-pow_right, lt-div-mul-add, mul-div-le,
}
use kanbrick_v.Mesh.Task.Policy.{
  RetryPolicy, backoff, deadline_ticks, div_ceil, at_least, saturated, duration_max, u32_max,
}

saturated_mono : (top a b : ℕ) → a ≤ b → saturated top a ≤ saturated top b
saturated_mono top a b h = ground arith

-- With a factor of at least one the delay before a retry is never shorter than the one before the
-- previous retry, and it is never longer than `Duration::MAX`.
pub backoff_mono :
    (retry : RetryPolicy) (i j : ℕ)
    → 1 ≤ retry.factor
    → i ≤ j
    → (backoff retry i ≤ backoff retry j) × (backoff retry j ≤ duration_max)
unfolding backoff
backoff_mono retry i j grows le = (
  saturated_mono duration_max _ _
      (mul-le-mul_left retry.base_delay (saturated_mono u32_max _ _ (pow-le-pow_right grows le))),
  ground arith,
)

div_ceil-covers : (d t : ℕ) → 0 < t → (d ≤ div_ceil d t * t) × (div_ceil d t * t < d + t)
div_ceil-covers d t pos =
    (omega (arith, lt-div-mul-add {a = d + (t - 1)} pos), omega (arith, mul-div-le (d + (t - 1)) t))

one_fewer : (d t q : ℕ) → q * t < d + t → 0 < d → (q - 1) * t < d
one_fewer d t zero above pos = omega arith
one_fewer d t (suc p) above pos = grind arith

bounded_le : (q : ℕ) → at_least 1 (saturated u64_max q) - 1 ≤ q - 1
bounded_le q = ground arith

-- One tick less, of a number of ticks that is put in bounds
one_less : (d t q : ℕ) → q * t < d + t → 0 < d → (at_least 1 (saturated u64_max q) - 1) * t < d
one_less d t q above pos =
    omega (arith, one_fewer d t q above pos, mul-le-mul_right t (bounded_le q))

at_least-eq : (t : ℕ) → 0 < t → at_least 1 t ≡ t
at_least-eq t pos = ground arith

bounded-cases :
    (q : ℕ) → (q ≤ at_least 1 (saturated u64_max q)) ⊎ (at_least 1 (saturated u64_max q) ≡ u64_max)
bounded-cases q = ground arith

covered :
    (d t q : ℕ)
    → d ≤ q * t
    → (d ≤ at_least 1 (saturated u64_max q) * t) ⊎ (at_least 1 (saturated u64_max q) ≡ u64_max)
covered d t q h = elim (bounded-cases q) [
  | inl e ↦ inl (omega (arith, h, mul-le-mul_right t e))
  | inr e ↦ inr e
]

-- A deadline in ticks is at least one and fits in 64 bits. The ticks cover the whole timeout unless
-- they are the most that 64 bits hold, and one tick less would not cover a timeout that is positive.
pub deadline_ticks-cover :
    (tick d : ℕ)
    → 0 < tick
    → (1 ≤ deadline_ticks tick (some d))
      × (deadline_ticks tick (some d) ≤ u64_max)
      × ((d ≤ deadline_ticks tick (some d) * tick) ⊎ (deadline_ticks tick (some d) ≡ u64_max))
      × (0 < d → (deadline_ticks tick (some d) - 1) * tick < d)
unfolding deadline_ticks
deadline_ticks-cover tick d pos = rw (at_least-eq tick pos) (
  ground arith,
  ground arith,
  covered d tick _ (div_ceil-covers d tick pos).0,
  one_less d tick _ (div_ceil-covers d tick pos).1,
)
