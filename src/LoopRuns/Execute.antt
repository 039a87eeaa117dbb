-- ===== src/LoopRuns/Execute.antt =====
-- kanbrick-api/src/loops.rs, `execute_loop`: the steps of a run in order, each piped into the next.
use kanbrick_v.Common.{
  ℕ, ◌+◌, Text, codes, List, [], ◌∷◌, Bool, true, false, ok, err, leb, if◌then◌else◌,
}
use kanbrick_v.Core.Context.{FirmContext}
use kanbrick_v.Json.{JsonValue}
use kanbrick_v.Scope.Clearance.{ClearanceScope}
use kanbrick_v.LoopRuns.{
  LoopStepRecord, StepOutcome, running, completed, failed, run_completed, run_failed,
  LoopRunRegistry, set_step, set_run_status,
}
use kanbrick_v.LoopRuns.Step.{Services, Host, run_step}

pub record World (O : Type 0) : Type 0 where
  pub host : Host O
  pub registry : LoopRunRegistry

-- TOTAL_RUN_TIMEOUT, in the clock's milliseconds
abbrev pub total_run_timeout : ℕ
total_run_timeout = 300000

module _ {O : Type 0} (env : Services O) (run_id : Text) (caller : FirmContext)
    (base : ClearanceScope) where
  abbrev pub mark : ℕ → StepOutcome → World O → World O
  mark position outcome w = record w { registry = set_step run_id position outcome w.registry }

  -- What a step does once it is marked as running: the new payload, or how it failed.
  abbrev pub stepped : LoopStepRecord → JsonValue → World O → World O
  stepped step payload w = record (mark step.position running w) {
    host = (run_step env caller base step payload w.host).1;
  }

  -- The loop over the steps; the Boolean is the variable `failed` when the loop is left.
  unfoldable pub execute_steps : ℕ → List LoopStepRecord → JsonValue → World O → Bool × World O
  execute_steps deadline [] payload w = (false, w)
  execute_steps deadline (step ∷ steps) payload w =
      if leb deadline (env.now w.host.outside)
      then (true, mark step.position (failed (codes "run exceeded the total-run timeout")) w)
      else elim (run_step env caller base step payload w.host).0 [
        | ok next ↦
            execute_steps deadline steps next
              (mark step.position completed (stepped step payload w))
        | err outcome ↦ (true, mark step.position outcome (stepped step payload w))
      ]

  unfoldable pub execute_loop : List LoopStepRecord → JsonValue → World O → World O
  execute_loop steps input w =
      let (is_failed, w') =
        execute_steps (env.now w.host.outside + total_run_timeout) steps input w in
      record w' {
        registry =
            set_run_status run_id (if is_failed then run_failed else run_completed) w'.registry;
      }
