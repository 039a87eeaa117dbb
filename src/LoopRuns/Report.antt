-- ===== src/LoopRuns/Report.antt =====
-- What a finished run reports of its steps.
use kanbrick_v.Common.{
  ℕ, ◌+◌, ◌≡◌, refl, codes, ◌∙◌, ap, arith, Text, List, [], ◌∷◌, Bool, true, false, ◌&&◌, some, err,
  all, map, nat_beq, lookup-modify, text_eq, ==_refl, if◌then◌else◌, All, leb, Bool-cases,
  Result-cases, inl, inr, nat_beq_iff,
}
use kanbrick_v.Core.Context.{FirmContext}
use kanbrick_v.Json.{JsonValue}
use kanbrick_v.Scope.Clearance.{ClearanceScope}
use kanbrick_v.LoopRuns.{
  LoopStepRecord, RunStatus, run_running, run_completed, run_failed, StepOutcome, pending, running,
  completed, failed, denied, timed_out, StepState, RunState, LoopRunRegistry, snapshot,
  set_position, set_step, set_run_status, pending_step, new_run,
}
use kanbrick_v.LoopRuns.Step.{Services, Host, run_step, tool_step, guest_step, provider_step}
use kanbrick_v.LoopRuns.Execute.{
  World, mark, stepped, total_run_timeout, execute_steps, execute_loop,
}

abbrev pub is_failure : StepOutcome → Bool
is_failure (failed _) = true
is_failure (denied _) = true
is_failure timed_out = true
is_failure _ = false

abbrev pub is_pending : StepOutcome → Bool
is_pending pending = true
is_pending _ = false

-- Steps that completed, then, in a run that failed, one that failed and others that were not
-- reached.
abbrev pub is_report : List StepOutcome → RunStatus → Bool
is_report [] run_completed = true
is_report [] _ = false
is_report (completed ∷ outcomes) status = is_report outcomes status
is_report (outcome ∷ outcomes) run_failed = is_failure outcome && all is_pending outcomes
is_report (outcome ∷ outcomes) _ = false

abbrev pub outcomes_of : List StepState → List StepOutcome
outcomes_of = map (λ s. s.status)

-- The steps as they were before any was begun: all that they are but their outcomes.
abbrev pub unmarked : List StepState → List StepState
unmarked = map {A = StepState} (λ s. record s { status = pending })

-- No two steps have one position.
abbrev pub Apart : List LoopStepRecord → Type 0
Apart [] = Unit
Apart (s ∷ ss) = All (λ t. nat_beq s.position t.position ≡ false) ss × Apart ss

-- A change of a step that is to come leaves what was done before it alone.
abbrev Commutes : (List StepState → List StepState) → List LoopStepRecord → Type 0
Commutes F = All (λ s.
    (o : StepOutcome) (xs : List StepState)
    → set_position s.position o (F xs) ≡ F (set_position s.position o xs))

Commutes-cons :
    (F : List StepState → List StepState) (s : StepState) (ss : List LoopStepRecord)
    → Commutes F ss
    → All (λ t. nat_beq s.position t.position ≡ false) ss
    → Commutes (λ xs. F (s ∷ xs)) ss
unfolding set_position
Commutes-cons F s [] c d = tt
Commutes-cons F s (t ∷ ss) c d = ((λ o xs. c.0 o (s ∷ xs) ∙ rw d.0), Commutes-cons F s ss c.1 d.1)

snapshot-set_step :
    (id : Text) (p : ℕ) (o : StepOutcome) (reg : LoopRunRegistry) (run : RunState)
    → snapshot id reg ≡ some run
    → snapshot id (set_step id p o reg) ≡ some (record run { steps = set_position p o run.steps })
unfolding snapshot set_step
snapshot-set_step id p o reg run h =
    lookup-modify id id (λ r. record r { steps = set_position p o r.steps }) reg.runs
    ∙ rw (==_refl id, h)

set_position_head :
    (s : StepState) (o : StepOutcome) (xs : List StepState)
    → set_position s.position o (s ∷ xs) ≡ record s { status = o } ∷ xs
unfolding set_position
set_position_head s o xs = ground (arith, nat_beq_iff s.position s.position)

run_step_fails :
    {O : Type 0} (env : Services O) (caller : FirmContext) (base : ClearanceScope)
    (step : LoopStepRecord) (payload : JsonValue) (h : Host O) (o : StepOutcome)
    → (run_step env caller base step payload h).0 ≡ err o
    → is_failure o ≡ true
unfolding run_step tool_step guest_step provider_step
run_step_fails env caller base step payload h o e = ground arith

all_pending :
    (steps : List LoopStepRecord) → all is_pending (outcomes_of (map pending_step steps)) ≡ true
all_pending [] = refl
all_pending (s ∷ steps) = all_pending steps

unmarked-pending :
    (steps : List LoopStepRecord) → unmarked (map pending_step steps) ≡ map pending_step steps
unmarked-pending [] = refl
unmarked-pending (s ∷ steps) = ap (pending_step s ∷◌) (unmarked-pending steps)

failed_report :
    (o : StepOutcome) (rest : List StepState)
    → is_failure o ≡ true
    → all is_pending (outcomes_of rest) ≡ true
    → is_report (o ∷ outcomes_of rest) run_failed ≡ true
failed_report pending rest f p = cc
failed_report running rest f p = cc
failed_report completed rest f p = cc
failed_report timed_out rest f p = p
failed_report (failed t) rest f p = p
failed_report (denied t) rest f p = p

Commutes-start : (steps : List LoopStepRecord) → Commutes (λ xs. xs) steps
Commutes-start [] = tt
Commutes-start (s ∷ steps) = ((λ o xs. refl), Commutes-start steps)

snapshot-set_run_status :
    (id : Text) (status : RunStatus) (reg : LoopRunRegistry) (run : RunState)
    → snapshot id reg ≡ some run
    → snapshot id (set_run_status id status reg) ≡ some (record run { status = status })
unfolding snapshot set_run_status
snapshot-set_run_status id status reg run h =
    lookup-modify id id (λ r. record r { status = status }) reg.runs ∙ rw (==_refl id, h)

abbrev status_of : Bool → RunStatus
status_of is_failed = if is_failed then run_failed else run_completed

module _ {O : Type 0} (env : Services O) (id : Text) (caller : FirmContext)
    (base : ClearanceScope) where
  -- The registry's view of the steps that were to come, when the loop is left.
  abbrev Reported :
      RunState → (List StepState → List StepState) → List LoopStepRecord → Bool × World O → Type 0
  Reported run F todo r =
      (ss : List StepState) × (snapshot id r.1.registry ≡ some (record run { steps = F ss }))
      × (is_report (outcomes_of ss) (status_of r.0) ≡ true)
      × (unmarked ss ≡ map pending_step todo)

  mark_lem :
      (F : List StepState → List StepState) (run : RunState) (step : LoopStepRecord)
      (steps : List LoopStepRecord) (old o : StepOutcome) (reg : LoopRunRegistry)
      → Commutes F (step ∷ steps)
      → snapshot id reg
        ≡ some (record run {
          steps = F (record (pending_step step) { status = old } ∷ map pending_step steps);
        })
      → snapshot id (set_step id step.position o reg)
        ≡ some (record run {
          steps = F (record (pending_step step) { status = o } ∷ map pending_step steps);
        })
  mark_lem F run step steps old o reg c h =
      let s : StepState = record (pending_step step) { status = old } in
      snapshot-set_step id step.position o reg
        (record run { steps = F (s ∷ map pending_step steps) }) h
      ∙ ap (λ xs. some (record run { steps = xs }))
          (c.0 o (s ∷ map pending_step steps)
            ∙ ap F (set_position_head s o (map pending_step steps)))

  execute_steps-Reported :
      (deadline : ℕ) (todo : List LoopStepRecord) (payload : JsonValue) (w : World O)
      (F : List StepState → List StepState) (run : RunState)
      → Commutes F todo
      → Apart todo
      → snapshot id w.registry ≡ some (record run { steps = F (map pending_step todo) })
      → Reported run F todo (execute_steps env id caller base deadline todo payload w)
  unfolding execute_steps
  execute_steps-Reported deadline [] payload w F run c a h = ([], h, refl, refl)
  execute_steps-Reported deadline (step ∷ steps) payload w F run c a h =
      let began = mark_lem F run step steps pending running w.registry c h in
      let reg = set_step id step.position running w.registry in
      elim (Bool-cases (leb deadline (env.now w.host.outside))) [
        | inl late ↦ rw late (
          record (pending_step step) {
            status = failed (codes "run exceeded the total-run timeout");
          }
              ∷ map pending_step steps,
          mark_lem F run step steps pending (failed (codes "run exceeded the total-run timeout"))
              w.registry c h,
          all_pending steps,
          ap (pending_step step ∷◌) (unmarked-pending steps),
        )
        | inr on_time ↦ elim (Result-cases (run_step env caller base step payload w.host).0) [
          | inl (next, e) ↦
              let s : StepState = record (pending_step step) { status = completed } in
              let (ss, k, r, n) =
                execute_steps-Reported deadline steps next
                  (mark env id caller base step.position completed
                    (stepped env id caller base step payload w))
                  (λ xs. F (s ∷ xs)) run (Commutes-cons F s steps c.1 a.0) a.1
                  (mark_lem F run step steps running completed reg c began) in
              rw (on_time, e) (s ∷ ss, k, r, ap (pending_step step ∷◌) n)
          | inr (o, e) ↦
              rw (on_time, e)
                (
                  record (pending_step step) { status = o } ∷ map pending_step steps,
                  mark_lem F run step steps running o reg c began,
                  failed_report o (map pending_step steps)
                      (run_step_fails env caller base step payload w.host o e) (all_pending steps),
                  ap (pending_step step ∷◌) (unmarked-pending steps),
                )
        ]
      ]

-- After a run whose steps have different positions, the registry has the run as it was recorded, all
-- of it and of its steps, but for the status of the run and the outcomes of the steps. These are a
-- report: some steps that completed; then, if the run failed, the one step that failed, was denied
-- or timed out, and others that were never begun.
pub execute_loop-is_report :
    {O : Type 0} (env : Services O) (id : Text) (caller : FirmContext) (base : ClearanceScope)
    (steps : List LoopStepRecord) (input : JsonValue) (w : World O) (now loop_id who : Text)
    → Apart steps
    → snapshot id w.registry ≡ some (new_run now id loop_id who steps)
    → (run : RunState) × (snapshot id (execute_loop env id caller base steps input w).registry
        ≡ some run)
      × (is_report (outcomes_of run.steps) run.status ≡ true)
      × (unmarked run.steps ≡ map pending_step steps)
      × (record run { status = run_running; steps = map pending_step steps }
          ≡ new_run now id loop_id who steps)
unfolding execute_loop new_run
execute_loop-is_report env id caller base steps input w now loop_id who a h =
    let (ss, k, r, n) =
      execute_steps-Reported env id caller base (env.now w.host.outside + total_run_timeout) steps
        input w (λ xs. xs) (new_run now id loop_id who steps) (Commutes-start steps) a h in
    (_, snapshot-set_run_status id _ _ _ k, r, n, refl)
