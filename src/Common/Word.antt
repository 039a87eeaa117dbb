-- ===== src/Common/Word.antt =====
-- Saturating arithmetic on `u64`.
use Prim.Native.Nat.{ℕ, ◌+◌, ◌-◌, ◌*◌, min}

-- `u64::MAX`
abbrev pub u64_max : ℕ
u64_max = 18446744073709551615

-- `u64::saturating_add`, `saturating_mul` and `saturating_sub`
abbrev pub sat_add : ℕ → ℕ → ℕ
sat_add a b = min (a + b) u64_max

abbrev pub sat_mul : ℕ → ℕ → ℕ
sat_mul a b = min (a * b) u64_max

abbrev pub sat_sub : ℕ → ℕ → ℕ
sat_sub a b = a - b
