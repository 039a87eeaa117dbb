-- ===== src/Queue.antt =====
-- probes/approval-queue/src/lib.rs: approvals serialized through one writer. The channel hands the
-- writer the requests of all producers in one order; a run of the writer is a list of requests.
mod Tests
pub mod Serial
pub mod Ledger
use kanbrick_v.Common.{
  ℕ, ◌+◌, ◌-◌, Text, List, [], ◌∷◌, ◌++◌, Bool, true, false, not, Dict, lookup, insert, contains,
  set_insert, text_eq, leb, if◌then◌else◌,
}
use mathlib.Core.Option.{get_or}

pub record ApprovalRequest : Type 0 where
  pub request_id : Text
  pub account : Text
  pub amount : ℕ
  pub grantor : Text

pub data Outcome : Type 0 where
  approved rejected_over_budget duplicate_ignored : Outcome

pub record ApprovalRecord : Type 0 where
  pub seq : ℕ
  pub request_id : Text
  pub account : Text
  pub amount : ℕ
  pub grantor : Text
  pub outcome : Outcome
  pub balance_after : ℕ

-- What the thread of the writer owns. The sequence number is a u64 in the code and has no bound here.
pub record Writer : Type 0 where
  pub balances : Dict Text ℕ
  pub seen : List Text
  pub log : List ApprovalRecord
  pub seq : ℕ

-- `initial_budgets.into_iter().collect()`: a later pair replaces an earlier one.
unfoldable pub collect : List (Text × ℕ) → Dict Text ℕ → Dict Text ℕ
collect [] m = m
collect ((a, n) ∷ rest) m = collect rest (insert a n m)

unfoldable pub start : List (Text × ℕ) → Writer
start initial_budgets = record {
  balances = collect initial_budgets [];
  seen = [];
  log = [];
  seq = 0;
}

-- `balances.entry(account).or_insert(0)`
unfoldable pub balance_of : Writer → Text → ℕ
balance_of w account = get_or (lookup account w.balances) 0

unfoldable pub outcome_for : Writer → ApprovalRequest → Outcome
outcome_for w req =
    if contains w.seen req.request_id
    then duplicate_ignored
    else if leb req.amount (balance_of w req.account)
    then approved
    else rejected_over_budget

abbrev pub debited : Outcome → ℕ → ℕ → ℕ
debited approved balance amount = balance - amount
debited _ balance amount = balance

-- One round of the writer's loop.
unfoldable pub process : Writer → ApprovalRequest → Writer
process w req =
    let outcome = outcome_for w req in
    let balance = debited outcome (balance_of w req.account) req.amount in
    record {
      balances = insert req.account balance w.balances;
      seen = set_insert req.request_id w.seen;
      log =
          w.log
          ++ (record {
            seq = w.seq;
            request_id = req.request_id;
            account = req.account;
            amount = req.amount;
            grantor = req.grantor;
            outcome = outcome;
            balance_after = balance;
          }
              ∷ []);
      seq = w.seq + 1;
    }

-- `while let Ok(req) = rx.recv()`, until the channel is closed
unfoldable pub run_writer : Writer → List ApprovalRequest → Writer
run_writer w [] = w
run_writer w (req ∷ reqs) = run_writer (process w req) reqs

-- `shutdown`: the log of the whole run
unfoldable pub shutdown : List (Text × ℕ) → List ApprovalRequest → List ApprovalRecord
unfolding start run_writer
shutdown initial_budgets reqs = (run_writer (start initial_budgets) reqs).log
