-- ===== src/Tokens/Budget.antt =====
-- kanbrick-tokens/src/budget.rs: spend ceilings in nano-USD.
use kanbrick_v.Common.{
  ℕ, ◌+◌, ◌-◌, ◌≤◌, ◌<◌, ◌≡◌, ◌↔◌, Bool, true, false, sat_add, sat_mul, sat_sub, u64_max, leb, ltb,
  if◌then◌else◌, arith,
}

pub record Budget : Type 0 where
  pub limit_nano_usd : ℕ

pub data BudgetStatus : Type 0 where
  within_budget over_budget : ℕ → BudgetStatus

unfoldable pub from_usd : ℕ → Budget
from_usd usd = record { limit_nano_usd = sat_mul usd 1000000000 }

unfoldable pub from_nano : ℕ → Budget
from_nano limit = record { limit_nano_usd = limit }

unfoldable pub remaining : Budget → ℕ → ℕ
remaining b spent = sat_sub b.limit_nano_usd spent

unfoldable pub would_exceed : Budget → ℕ → ℕ → Bool
would_exceed b spent additional = ltb b.limit_nano_usd (sat_add spent additional)

unfoldable pub status : Budget → ℕ → BudgetStatus
status b spent =
    if leb spent b.limit_nano_usd
    then within_budget (b.limit_nano_usd - spent)
    else over_budget (spent - b.limit_nano_usd)

-- Below the greatest `u64`, a debit would exceed the budget exactly when the exact sum is past the
-- ceiling; this is also exactly when it is more than what remains or the budget is overspent.
pub would_exceed_iff :
    (b : Budget) (spent additional : ℕ)
    → b.limit_nano_usd < u64_max
    → ((would_exceed b spent additional ≡ true) ↔ (b.limit_nano_usd < spent + additional))
      × ((would_exceed b spent additional ≡ false)
          ↔ ((additional ≤ remaining b spent) × (spent ≤ b.limit_nano_usd)))
unfolding would_exceed remaining
would_exceed_iff b spent additional h = ground arith

-- A budget at the greatest `u64` is never exceeded, whatever is spent: the saturated sum stays at
-- the ceiling.
pub would_exceed_unlimited :
    (b : Budget) (spent additional : ℕ)
    → b.limit_nano_usd ≡ u64_max
    → would_exceed b spent additional ≡ false
unfolding would_exceed
would_exceed_unlimited b spent additional h = ground arith

-- The status agrees with the headroom and with the test that comes before a debit: it is within the
-- budget, with what remains, exactly when a debit of nothing still fits, the ceiling itself
-- included; and it is over the budget exactly by what was spent past the ceiling.
pub status_iff :
    (b : Budget) (spent n : ℕ)
    → b.limit_nano_usd < u64_max
    → ((status b spent ≡ within_budget n)
        ↔ ((n ≡ remaining b spent) × (would_exceed b spent 0 ≡ false)))
      × ((status b spent ≡ over_budget n)
          ↔ ((spent ≡ b.limit_nano_usd + n) × (would_exceed b spent 0 ≡ true)))
unfolding status remaining would_exceed
status_iff b spent n h = ground arith
