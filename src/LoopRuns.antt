-- ===== src/LoopRuns.antt =====
-- kanbrick-api/src/loops.rs: the registry of loop runs and the executor of their steps. A step's
-- record is that of kanbrick-store/src/loop_registry.rs; its position counts from zero.
pub mod Bounded
pub mod Step
pub mod Execute
pub mod Report
pub mod Revocation
mod Tests
use kanbrick_v.Common.{
  ℕ, Text, List, [], ◌∷◌, ◌++◌, Bool, true, false, Option, none, some, Dict, lookup, insert, remove,
  modify, text_eq, nat_beq, ltb, length, map, if◌then◌else◌,
}

pub record LoopStepRecord : Type 0 where
  pub loop_id : Text
  pub position : ℕ
  pub skill_name : Text
  pub scope_id : Text
  pub provider : Text
  pub model : Text
  pub tool : Text
  pub tool_args : Text

pub data RunStatus : Type 0 where
  run_running run_completed run_failed : RunStatus

pub data StepOutcome : Type 0 where
  pending running completed timed_out : StepOutcome
  failed denied : Text → StepOutcome

pub record StepState : Type 0 where
  pub position : ℕ
  pub skill_name : Text
  pub scope_id : Text
  pub status : StepOutcome
  pub provider : Text
  pub model : Text
  pub tool : Text

pub record RunState : Type 0 where
  pub run_id : Text
  pub loop_id : Text
  pub caller : Text
  pub started_at : Text
  pub status : RunStatus
  pub steps : List StepState

-- What the lock guards: the runs by id, and their ids from the oldest to the newest.
pub record LoopRunRegistry : Type 0 where
  pub runs : Dict Text RunState
  pub order : List Text

abbrev pub empty_registry : LoopRunRegistry
empty_registry = record { runs = []; order = [] }

abbrev pub max_retained_runs : ℕ
max_retained_runs = 512

-- The loop that pops the oldest run while there are too many.
unfoldable pub evict : List Text → Dict Text RunState → LoopRunRegistry
evict [] runs = record { runs = runs; order = [] }
evict (oldest ∷ order) runs =
    let fewer = evict order (remove oldest runs) in
    if ltb max_retained_runs (length (oldest ∷ order))
    then fewer
    else record { runs = runs; order = oldest ∷ order }

-- The id is queued if the map had no run under it.
abbrev pub queued : Option RunState → Text → List Text → List Text
queued none id order = order ++ (id ∷ [])
queued (some _) id order = order

unfoldable pub insert_run : RunState → LoopRunRegistry → LoopRunRegistry
insert_run run reg =
    evict (queued (lookup run.run_id reg.runs) run.run_id reg.order)
      (insert run.run_id run reg.runs)

unfoldable pub snapshot : Text → LoopRunRegistry → Option RunState
snapshot id reg = lookup id reg.runs

-- `steps.iter_mut().find(…)`, and the assignment to what it finds
unfoldable pub set_position : ℕ → StepOutcome → List StepState → List StepState
set_position position outcome [] = []
set_position position outcome (s ∷ steps) =
    if nat_beq s.position position
    then record s { status = outcome } ∷ steps
    else s ∷ set_position position outcome steps

unfoldable pub set_step : Text → ℕ → StepOutcome → LoopRunRegistry → LoopRunRegistry
set_step id position outcome reg = record reg {
  runs = modify id (λ run. record run { steps = set_position position outcome run.steps }) reg.runs;
}

unfoldable pub set_run_status : Text → RunStatus → LoopRunRegistry → LoopRunRegistry
set_run_status id status reg = record reg {
  runs = modify id (λ run. record run { status = status }) reg.runs;
}

abbrev pub pending_step : LoopStepRecord → StepState
pending_step s = record {
  position = s.position;
  skill_name = s.skill_name;
  scope_id = s.scope_id;
  status = pending;
  provider = s.provider;
  model = s.model;
  tool = s.tool;
}

-- `RunState::new`, with the clock's text as an argument
unfoldable pub new_run : Text → Text → Text → Text → List LoopStepRecord → RunState
new_run now run_id loop_id caller steps = record {
  run_id = run_id;
  loop_id = loop_id;
  caller = caller;
  started_at = now;
  status = run_running;
  steps = map pending_step steps;
}
