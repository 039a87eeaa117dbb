-- ===== src/LoopRuns/Revocation.antt =====
-- A run leaves no capability behind.
use kanbrick_v.Common.{
  ℕ, ◌+◌, ◌≡◌, arith, Text, List, [], ◌∷◌, some, lookup, text_eq, leb, Bool-cases, Result-cases,
  inl, inr,
}
use kanbrick_v.Core.Context.{FirmContext}
use kanbrick_v.Json.{JsonValue}
use kanbrick_v.Scope.Clearance.{ClearanceScope}
use kanbrick_v.Caps.{CapEntry, revoke-mint_keeps}
use kanbrick_v.LoopRuns.{LoopStepRecord, completed}
use kanbrick_v.LoopRuns.Step.{
  Services, Host, tool_cap_ttl, tool_step, guest_step, provider_step, run_step,
}
use kanbrick_v.LoopRuns.Execute.{
  World, mark, stepped, total_run_timeout, execute_steps, execute_loop,
}

module _ {O : Type 0} (env : Services O) (id : Text) (caller : FirmContext) (base : ClearanceScope)
    (k : Text) (e : CapEntry) where
  tool_step_keeps :
      (step : LoopStepRecord) (payload : JsonValue) (h : Host O)
      → lookup k (tool_step env caller step payload h).1.caps ≡ some e
      → lookup k h.caps ≡ some e
  unfolding tool_step
  tool_step_keeps step payload h q =
      let (cap, o) = env.fresh_cap h.outside in
      revoke-mint_keeps h.caps cap k (env.now o) (env.now o) tool_cap_ttl caller e q

  run_step_keeps :
      (step : LoopStepRecord) (payload : JsonValue) (h : Host O)
      → lookup k (run_step env caller base step payload h).1.caps ≡ some e
      → lookup k h.caps ≡ some e
  unfolding run_step guest_step provider_step
  run_step_keeps step payload h q =
      let o = (env.authorize_skill caller base step.scope_id step.skill_name h.outside).1 in
      ground (arith, tool_step_keeps step payload (record h { outside = o }))

  execute_steps_keeps :
      (deadline : ℕ) (steps : List LoopStepRecord) (payload : JsonValue) (w : World O)
      → lookup k (execute_steps env id caller base deadline steps payload w).1.host.caps ≡ some e
      → lookup k w.host.caps ≡ some e
  unfolding execute_steps
  execute_steps_keeps deadline [] payload w q = q
  execute_steps_keeps deadline (step ∷ steps) payload w q =
      elim (Bool-cases (leb deadline (env.now w.host.outside))) [
        | inl late ↦ rw late at q
        | inr on_time ↦ elim (Result-cases (run_step env caller base step payload w.host).0) [
          | inl (next, r) ↦ run_step_keeps step payload w.host (
              execute_steps_keeps deadline steps next
                (mark env id caller base step.position completed
                  (stepped env id caller base step payload w))
                (rw (on_time, r) at q))
          | inr (o, r) ↦ run_step_keeps step payload w.host (rw (on_time, r) at q)
        ]
      ]

-- Every capability that is registered after a run, however it ended, was registered before it for
-- the same context and expiry: none that a step minted outlives the run.
pub execute_loop_revokes :
    {O : Type 0} (env : Services O) (id : Text) (caller : FirmContext) (base : ClearanceScope)
    (steps : List LoopStepRecord) (input : JsonValue) (w : World O) (k : Text) (e : CapEntry)
    → lookup k (execute_loop env id caller base steps input w).host.caps ≡ some e
    → lookup k w.host.caps ≡ some e
unfolding execute_loop
execute_loop_revokes env id caller base steps input w k e q =
    execute_steps_keeps env id caller base k e (env.now w.host.outside + total_run_timeout) steps
      input w q
