-- ===== src/Queue/Ledger.antt =====
-- What the writer spends: no budget is overdrawn and no debit is lost.
use kanbrick_v.Common.{
  ℕ, ◌+◌, ◌≤◌, ◌≡◌, ◌↔◌, ◌∙◌, refl, Text, List, [], ◌∷◌, ◌++◌, false, lookup-insert, contains,
  text_eq, text_beq, text_beq_iff, arith, if◌then◌else◌,
}
use kanbrick_v.Queue.{
  ApprovalRequest, ApprovalRecord, approved, Writer, start, balance_of, outcome_for, process,
  run_writer, shutdown,
}
use kanbrick_v.Queue.Serial.{appended, times_applied, start-SeenOnce}

abbrev pub debit : Text → ApprovalRecord → ℕ
debit account r = elim r.outcome [
  | approved ↦ if text_beq r.account account then r.amount else 0
  | _ ↦ 0
]

-- The sum of the approved amounts of an account.
abbrev pub spent : Text → List ApprovalRecord → ℕ
spent account [] = 0
spent account (r ∷ rs) = debit account r + spent account rs

spent-snoc :
    (account : Text) (xs : List ApprovalRecord) (y : ApprovalRecord)
    → spent account (xs ++ (y ∷ [])) ≡ spent account xs + debit account y
spent-snoc account [] y = omega arith
spent-snoc account (x ∷ xs) y = omega (arith, spent-snoc account xs y)

approved-le :
    (w : Writer) (r : ApprovalRequest)
    → outcome_for w r ≡ approved
    → r.amount ≤ balance_of w r.account
unfolding outcome_for
approved-le w r h = ground arith

balance_of-process :
    (w : Writer) (r : ApprovalRequest) (a : Text)
    → balance_of (process w r) a
      ≡ (if text_beq r.account a then (appended w r).balance_after else balance_of w a)
unfolding process balance_of
balance_of-process w r a =
    rw (lookup-insert r.account a (appended w r).balance_after w.balances) (ground arith)

log-process : (w : Writer) (r : ApprovalRequest) → (process w r).log ≡ w.log ++ (appended w r ∷ [])
unfolding process
log-process w r = refl

-- The balance and the approved sum move against one another.
abbrev budget_of : Writer → Text → ℕ
budget_of w a = balance_of w a + spent a w.log

process_conserves :
    (w : Writer) (r : ApprovalRequest) (a : Text) → budget_of (process w r) a ≡ budget_of w a
process_conserves w r a =
    rw (balance_of-process w r a, log-process w r, spent-snoc a w.log (appended w r))
      (ground (arith, approved-le w r, text_beq_iff r.account a))

run_writer_conserves :
    (w : Writer) (reqs : List ApprovalRequest) (a : Text)
    → budget_of (run_writer w reqs) a ≡ budget_of w a
unfolding run_writer
run_writer_conserves w [] a = refl
run_writer_conserves w (r ∷ rs) a =
    run_writer_conserves (process w r) rs a ∙ process_conserves w r a

-- However the requests of concurrent approvers interleave, what is left of an account and what was
-- approved against it add up to its starting budget: no budget is overdrawn and no debit is lost.
pub shutdown_conserves :
    (budgets : List (Text × ℕ)) (reqs : List ApprovalRequest) (a : Text)
    → (balance_of (run_writer (start budgets) reqs) a + spent a (shutdown budgets reqs)
        ≡ balance_of (start budgets) a)
      × (spent a (shutdown budgets reqs) ≤ balance_of (start budgets) a)
unfolding shutdown
shutdown_conserves budgets reqs a =
    let h = run_writer_conserves (start budgets) reqs a in
    let z : spent a (start budgets).log ≡ 0 = unfold start in refl in (omega arith, omega arith)

outcome_for-approved_iff :
    (w : Writer) (r : ApprovalRequest)
    → (outcome_for w r ≡ approved)
      ↔ ((contains w.seen r.request_id ≡ false) × (r.amount ≤ balance_of w r.account))
unfolding outcome_for
outcome_for-approved_iff w r = ground arith

-- After any run, the next request is approved exactly when its id was never decided before and its
-- amount fits in the starting budget together with all that was approved on its account.
pub approved_iff_fits :
    (budgets : List (Text × ℕ)) (reqs : List ApprovalRequest) (r : ApprovalRequest)
    → (outcome_for (run_writer (start budgets) reqs) r ≡ approved) ↔ (
        (times_applied r.request_id (shutdown budgets reqs) ≡ 0)
        × (spent r.account (shutdown budgets reqs) + r.amount
            ≤ balance_of (start budgets) r.account))
unfolding shutdown
approved_iff_fits budgets reqs r =
    let w = run_writer (start budgets) reqs in
    let h = run_writer_conserves (start budgets) reqs r.account in
    let z : spent r.account (start budgets).log ≡ 0 = unfold start in refl in
    ground (arith, outcome_for-approved_iff w r, start-SeenOnce budgets reqs r.request_id)
