-- ===== src/Queue/Serial.antt =====
-- The log is total and ordered, and no request is applied twice.
use kanbrick_v.Common.{
  ℕ, ◌+◌, ◌≤◌, ◌≡◌, ◌∙◌, sym, refl, Text, List, [], ◌∷◌, ◌++◌, Bool, true, false, not, ◌&&◌,
  contains, contains-set_insert, text_eq, text_beq, text_beq_iff, arith, if◌then◌else◌, map,
  append_assoc, append-nil,
}
use mathlib.Core.List.{map-append}
use kanbrick_v.Queue.{
  ApprovalRequest, ApprovalRecord, Outcome, duplicate_ignored, Writer, start, balance_of,
  outcome_for, debited, process, run_writer, shutdown,
}

abbrev pub seqs_from : ℕ → List ApprovalRequest → List (ℕ × Text)
seqs_from n [] = []
seqs_from n (r ∷ rs) = (n, r.request_id) ∷ seqs_from (n + 1) rs

abbrev pub stamp : ApprovalRecord → ℕ × Text
stamp r = (r.seq, r.request_id)

run_writer-stamps :
    (w : Writer) (reqs : List ApprovalRequest)
    → map stamp (run_writer w reqs).log ≡ map stamp w.log ++ seqs_from w.seq reqs
unfolding run_writer process
run_writer-stamps w [] = sym (append-nil (map stamp w.log))
run_writer-stamps w (r ∷ rs) =
    run_writer-stamps (process w r) rs
    ∙ rw (map-append)
        (append_assoc (map stamp w.log) ((w.seq, r.request_id) ∷ []) (seqs_from (w.seq + 1) rs))

-- Every request that reaches the writer is in its log once, whatever its outcome, in the order of
-- arrival and stamped with the positions 0, 1, 2 and so on: nothing is lost.
pub shutdown-stamps :
    (budgets : List (Text × ℕ)) (reqs : List ApprovalRequest)
    → map stamp (shutdown budgets reqs) ≡ seqs_from 0 reqs
unfolding shutdown
shutdown-stamps budgets reqs = run_writer-stamps (start budgets) reqs

abbrev pub is_applied : Outcome → Bool
is_applied duplicate_ignored = false
is_applied _ = true

-- How often a request was decided by its budget.
abbrev pub times_applied : Text → List ApprovalRecord → ℕ
times_applied id [] = 0
times_applied id (r ∷ rs) =
    (if text_beq r.request_id id && is_applied r.outcome then 1 else 0) + times_applied id rs

times_applied-snoc :
    (id : Text) (xs : List ApprovalRecord) (y : ApprovalRecord)
    → times_applied id (xs ++ (y ∷ []))
      ≡ times_applied id xs + (if text_beq y.request_id id && is_applied y.outcome then 1 else 0)
times_applied-snoc id [] y = omega arith
times_applied-snoc id (x ∷ xs) y = omega (arith, times_applied-snoc id xs y)

is_applied-outcome_for :
    (w : Writer) (r : ApprovalRequest)
    → is_applied (outcome_for w r) ≡ not (contains w.seen r.request_id)
unfolding outcome_for
is_applied-outcome_for w r = ground arith

-- The log agrees with the set of the ids that were seen.
abbrev SeenOnce : Writer → Text → Type 0
SeenOnce w id = times_applied id w.log ≡ (if contains w.seen id then 1 else 0)

-- The record that a round appends.
abbrev pub appended : Writer → ApprovalRequest → ApprovalRecord
appended w r = record {
  seq = w.seq;
  request_id = r.request_id;
  account = r.account;
  amount = r.amount;
  grantor = r.grantor;
  outcome = outcome_for w r;
  balance_after = debited (outcome_for w r) (balance_of w r.account) r.amount;
}

process-SeenOnce :
    (w : Writer) (r : ApprovalRequest) (id : Text) → SeenOnce w id → SeenOnce (process w r) id
unfolding process
process-SeenOnce w r id h =
    rw
      (
        times_applied-snoc id w.log (appended w r),
        contains-set_insert r.request_id id w.seen,
        is_applied-outcome_for w r,
        h,
      )
      (ground (arith, text_beq_iff r.request_id id))

run_writer-SeenOnce :
    (w : Writer) (reqs : List ApprovalRequest) (id : Text)
    → SeenOnce w id
    → SeenOnce (run_writer w reqs) id
unfolding run_writer
run_writer-SeenOnce w [] id h = h
run_writer-SeenOnce w (r ∷ rs) id h =
    run_writer-SeenOnce (process w r) rs id (process-SeenOnce w r id h)

pub start-SeenOnce :
    (budgets : List (Text × ℕ)) (reqs : List ApprovalRequest) (id : Text)
    → times_applied id (run_writer (start budgets) reqs).log
      ≡ (if contains (run_writer (start budgets) reqs).seen id then 1 else 0)
unfolding contains start
start-SeenOnce budgets reqs id = run_writer-SeenOnce (start budgets) reqs id refl

-- A request id is decided at most once, however often it is delivered and with whatever other
-- requests in between; the rest of its deliveries are ignored.
pub applied_at_most_once :
    (budgets : List (Text × ℕ)) (reqs : List ApprovalRequest) (id : Text)
    → times_applied id (shutdown budgets reqs) ≤ 1
unfolding shutdown
applied_at_most_once budgets reqs id = ground (arith, start-SeenOnce budgets reqs id)
