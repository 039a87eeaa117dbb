-- ===== src/LoopRuns/Step.antt =====
-- kanbrick-api/src/loops.rs, `execute_loop`: one step of a run, after its gate.
use kanbrick_v.Common.{
  ℕ, Text, codes, List, ◌++◌, Bool, false, not, Option, none, some, Result, ok, err, find, is_empty,
  if◌then◌else◌, text_beq,
}
use kanbrick_v.Core.Clearance.{ClearanceLevel, ge}
use kanbrick_v.Core.Context.{FirmContext}
use kanbrick_v.Core.Error.{Error, error_text}
use kanbrick_v.Providers.{ProviderKind, anthropic, open_ai, cerebras, provider_token, provider_beq}
use kanbrick_v.Json.{JsonValue, null, string, object, Fields, end, set_field}
use kanbrick_v.Scope.Clearance.{ClearanceScope}
use kanbrick_v.Mesh.Task.{TaskStatus, task_completed, task_timed_out, task_failed}
use kanbrick_v.Caps.{InvocationCaps, mint, revoke}
use kanbrick_v.LoopRuns.{LoopStepRecord, StepOutcome, failed, denied, timed_out}

-- `Skill`, in kanbrick-discovery/src/grants.rs
pub record Skill : Type 0 where
  pub id : Text
  pub name : Text
  pub scope_id : Text
  pub guest : Text
  pub required_clearance : ClearanceLevel

-- The services that the executor is given, over their joint state `O`: the grants, the clock, the
-- random tokens, the bridge to tools, the guest policies, the scheduler, the custody of keys, the
-- provider built for a kind and a key, and the reading and printing of JSON. A provider's error is
-- given by its text.
pub record Services (O : Type 0) : Type 0 where
  pub authorize_skill : FirmContext → ClearanceScope → Text → Text → O → Result Error Skill × O
  pub now : O → ℕ
  pub fresh_cap : O → Text × O
  pub call_tool : InvocationCaps → Text → Text → JsonValue → O → Result Text JsonValue × O
  pub read_guest_policy : O → Text → Result Error (Option ClearanceLevel)
  pub run_guest : Text → FirmContext → JsonValue → O → Option TaskStatus × O
  pub list_keys : O → ℕ → Result Text (List (ℕ × ProviderKind))
  pub get_secret : O → ℕ → ℕ → Result Text (Option Text)
  pub complete : ProviderKind → Text → Text → Text → O → Result Text Text × O
  pub parse_json : Text → Option JsonValue
  pub json_text : JsonValue → Text

-- The services' state and the registry of capabilities.
pub record Host (O : Type 0) : Type 0 where
  pub outside : O
  pub caps : InvocationCaps

-- TOOL_CAP_TTL, in the clock's milliseconds
abbrev pub tool_cap_ttl : ℕ
tool_cap_ttl = 60000

abbrev pub fields_of : Option JsonValue → Fields
fields_of (some (object m)) = m
fields_of _ = end

-- `TaskStatus` after the wait, as the step's outcome
abbrev pub task_outcome : Option TaskStatus → Result StepOutcome JsonValue
task_outcome (some (task_completed payload)) = ok payload
task_outcome (some task_timed_out) = err timed_out
task_outcome (some (task_failed msg)) = err (failed msg)
task_outcome _ = err (failed (codes "step did not reach a terminal status"))

-- `provider_runtime::parse_provider`
unfoldable pub parse_provider : Text → Option ProviderKind
parse_provider t =
    if text_beq t (codes "anthropic")
    then some anthropic
    else if text_beq t (codes "openai")
    then some open_ai
    else if text_beq t (codes "cerebras")
    then some cerebras
    else none

module _ {O : Type 0} (env : Services O) where
  unfoldable pub build_tool_args : Text → JsonValue → JsonValue
  build_tool_args tool_args payload =
      object (set_field (codes "input") payload (fields_of (env.parse_json tool_args)))

  abbrev pub payload_to_prompt : JsonValue → Text
  payload_to_prompt (string text) = text
  payload_to_prompt null = codes ""
  payload_to_prompt other = env.json_text other

  unfoldable pub resolve_provider_key : O → ℕ → ProviderKind → Result Text (Option Text)
  resolve_provider_key o user kind = elim (env.list_keys o user) [
    | err e ↦ err e
    | ok metas ↦ elim (find (λ m. provider_beq m.1 kind) metas) [
      | none ↦ ok none
      | some meta ↦ env.get_secret o user meta.0
    ]
  ]

  abbrev pub tool_outcome : Result Text JsonValue → Result StepOutcome JsonValue
  tool_outcome (ok value) = ok value
  tool_outcome (err e) = err (failed e)

  -- The clock is read once for the capability, its expiry and the sweep.
  unfoldable pub tool_step :
      FirmContext → LoopStepRecord → JsonValue → Host O → Result StepOutcome JsonValue × Host O
  tool_step caller step payload h =
      let (cap, o) = env.fresh_cap h.outside in
      let minted = mint cap (env.now o) (env.now o) caller tool_cap_ttl h.caps in
      let (result, o') =
        env.call_tool minted cap step.tool (build_tool_args step.tool_args payload) o in
      (tool_outcome result, record { outside = o'; caps = revoke cap minted })

  abbrev pub is_below : FirmContext → Option ClearanceLevel → Bool
  is_below caller none = false
  is_below caller (some min_clearance) = not (ge caller.clearance min_clearance)

  unfoldable pub guest_step :
      FirmContext → Skill → JsonValue → Host O → Result StepOutcome JsonValue × Host O
  guest_step caller skill payload h = elim (env.read_guest_policy h.outside skill.guest) [
    | err e ↦ (err (failed (error_text e)), h)
    | ok policy ↦
        if is_below caller policy
        then (
          err (
              denied
                (codes "caller clearance below the " ++ (skill.guest ++ codes " guest floor"))),
          h,
        )
        else (let (status, o) = env.run_guest skill.guest caller payload h.outside in
            (task_outcome status, record h { outside = o }))
  ]

  abbrev pub completion_outcome : Result Text Text → Result StepOutcome JsonValue
  completion_outcome (ok content) = ok (string content)
  completion_outcome (err e) = err (failed e)

  unfoldable pub provider_step :
      FirmContext → LoopStepRecord → JsonValue → Host O → Result StepOutcome JsonValue × Host O
  provider_step caller step payload h = elim (parse_provider step.provider) [
    | none ↦ (err (failed (codes "unknown provider " ++ step.provider)), h)
    | some kind ↦ elim (resolve_provider_key h.outside caller.user_id kind) [
      | err e ↦ (err (failed e), h)
      | ok none ↦ (
        err (failed (codes "no " ++ (provider_token kind ++ codes " key in the caller's custody"))),
        h,
      )
      | ok (some key) ↦
          let (result, o) =
            env.complete kind key step.model (payload_to_prompt payload) h.outside in
          (completion_outcome result, record h { outside = o })
    ]
  ]

  -- The gate of a step, then the step that its record selects.
  unfoldable pub run_step :
      FirmContext
      → ClearanceScope
      → LoopStepRecord
      → JsonValue
      → Host O
      → Result StepOutcome JsonValue × Host O
  run_step caller base step payload h =
      let (verdict, o) = env.authorize_skill caller base step.scope_id step.skill_name h.outside in
      let h' = record h { outside = o } in
      elim verdict [
        | err e ↦ (err (denied (error_text e)), h')
        | ok skill ↦
            if not (is_empty step.tool)
            then tool_step caller step payload h'
            else if is_empty step.provider
            then guest_step caller skill payload h'
            else provider_step caller step payload h'
      ]
