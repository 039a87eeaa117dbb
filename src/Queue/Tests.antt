-- ===== src/Queue/Tests.antt =====
-- A run of the writer: two requests on one account, the first of them delivered twice.
use kanbrick_v.Common.{ℕ, ◌+◌, ◌≡◌, ◌↔◌, ◌≤◌, refl, List, [], ◌∷◌, Text, codes, map}
use kanbrick_v.Queue.{
  process, ApprovalRequest, approved, rejected_over_budget, duplicate_ignored, start, run_writer,
  shutdown, balance_of, outcome_for,
}
use kanbrick_v.Queue.Ledger.{spent, shutdown_conserves}

abbrev budgets : List (Text × ℕ)
budgets = (codes "travel", 100) ∷ []

abbrev ask : Text → ℕ → ApprovalRequest
ask id amount = record {
  request_id = id;
  account = codes "travel";
  amount = amount;
  grantor = codes "tk";
}

abbrev run : List ApprovalRequest
run = ask (codes "a") 70 ∷ ask (codes "b") 70 ∷ ask (codes "a") 70 ∷ []

outcomes_of_run :
    map (λ r. r.outcome) (shutdown budgets run)
    ≡ approved ∷ rejected_over_budget ∷ duplicate_ignored ∷ []
unfolding shutdown run_writer start process outcome_for kanbrick_v.Common.contains balance_of
    kanbrick_v.Common.set_insert kanbrick_v.Common.lookup kanbrick_v.Common.text_beq
    kanbrick_v.Queue.collect kanbrick_v.Common.insert
outcomes_of_run = refl

shutdown_conserves_example :
    (balance_of (run_writer (start budgets) run) (codes "travel")
        + spent (codes "travel") (shutdown budgets run)
      ≡ balance_of (start budgets) (codes "travel"))
    × (spent (codes "travel") (shutdown budgets run) ≤ balance_of (start budgets) (codes "travel"))
shutdown_conserves_example = shutdown_conserves budgets run (codes "travel")
