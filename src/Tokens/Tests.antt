-- ===== src/Tokens/Tests.antt =====
-- Prices, budgets and the ledger on concrete calls.
use kanbrick_v.Common.{
  ℕ, ◌+◌, ◌↔◌, ◌≡◌, ◌≤◌, ◌<◌, refl, Text, codes, List, [], ◌∷◌, ◌++◌, true, false, some, none, ok,
  err, u64_max, arith,
}
use kanbrick_v.Providers.{anthropic, open_ai}
use kanbrick_v.Providers.Usage.{Usage, no_usage}
use kanbrick_v.Tokens.Pricing.{price, opus, illustrative, cost_nano, table_cost_nano}
use kanbrick_v.Tokens.Budget.{Budget}
use kanbrick_v.Tokens.Ledger.{InMemoryLedger, backend, priced_entry, record_usage}
use kanbrick_v.Tokens.Spend.{record_usage_fails}

abbrev call : Usage
call = record no_usage { input = 10; output = 4 }

-- One call of user 7, priced.
abbrev used : InMemoryLedger
used = record {
  inner = (7, priced_entry 1 0 7 anthropic (codes "m") call (cost_nano opus call) ∷ []) ∷ [];
  poisoned = false;
}

abbrev poisoned_ledger : InMemoryLedger
poisoned_ledger = record { inner = []; poisoned = true }

abbrev hundred : Budget
hundred = record { limit_nano_usd = 100 }

record_usage_fails_example :
    record_usage 2 5 illustrative 7 open_ai (codes "gpt-4o") call poisoned_ledger
    ≡ (err backend, poisoned_ledger)
unfolding table_cost_nano illustrative price kanbrick_v.Common.text_beq
record_usage_fails_example =
    record_usage_fails 2 5 illustrative 7 open_ai (codes "gpt-4o") call poisoned_ledger refl
