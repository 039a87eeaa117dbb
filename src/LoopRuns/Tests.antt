-- ===== src/LoopRuns/Tests.antt =====
-- A run of a tool step, a guest step that is denied, and a step that is not reached.
use kanbrick_v.Common.{
  contains, ℕ, suc, ◌≡◌, ◌≤◌, refl, arith, Text, codes, List, [], ◌∷◌, Bool, true, false, Option,
  none, some, Result, ok, err, map, lookup, text_eq, text_beq, if◌then◌else◌,
}
use kanbrick_v.Core.Clearance.{l1, l3, l4}
use kanbrick_v.Core.Context.{FirmContext}
use kanbrick_v.Json.{null, string}
use kanbrick_v.Scope.Clearance.{ClearanceScope}
use kanbrick_v.Caps.{CapEntry, InvocationCaps}
use kanbrick_v.LoopRuns.{
  LoopStepRecord, RunState, LoopRunRegistry, empty_registry, insert_run, snapshot, new_run,
  pending_step, run_running,
}
use kanbrick_v.Mesh.Task.{task_completed}
use kanbrick_v.LoopRuns.Step.{Services, Host, Skill, run_step}
use kanbrick_v.LoopRuns.Execute.{execute_steps, World, execute_loop}
use kanbrick_v.LoopRuns.Report.{is_report, outcomes_of, unmarked, execute_loop-is_report}
use kanbrick_v.LoopRuns.Revocation.{execute_loop_revokes}
use kanbrick_v.LoopRuns.Bounded.{IsRegistry}

abbrev caller : FirmContext
caller = record {
  user_id = 1;
  email = codes "ann";
  clearance = l3;
  firm_id = codes "kanbrick";
  roles = [];
  session_id = 2;
  issued_at = 3;
}

abbrev base : ClearanceScope
base = record {
  clearance = l3;
  self_email = codes "ann";
  sees_all = false;
  visible_company_ids = [];
  visible_person_emails = [];
}

abbrev skill : Skill
skill = record {
  id = codes "s";
  name = codes "s";
  scope_id = codes "p";
  guest = codes "g";
  required_clearance = l1;
}

-- The state counts the calls, and is the clock too.
abbrev services : Services ℕ
services = record {
  authorize_skill = λ c b scope name o. (ok skill, suc o);
  now = λ o. o;
  fresh_cap = λ o. (codes "cap", suc o);
  call_tool = λ caps cap tool args o. (ok (string (codes "done")), suc o);
  read_guest_policy = λ o guest. ok (some l4);
  run_guest = λ guest c payload o. (some (task_completed payload), suc o);
  list_keys = λ o user. ok [];
  get_secret = λ o user id. ok none;
  complete = λ kind key model prompt o. (ok prompt, suc o);
  parse_json = λ t. none;
  json_text = λ v. [];
}

abbrev step_at : ℕ → Text → LoopStepRecord
step_at n tool = record {
  loop_id = codes "l";
  position = n;
  skill_name = codes "s";
  scope_id = codes "p";
  provider = [];
  model = [];
  tool = tool;
  tool_args = [];
}

abbrev steps : List LoopStepRecord
steps = step_at 0 (codes "search") ∷ step_at 1 [] ∷ step_at 2 [] ∷ []

abbrev run : RunState
run = new_run (codes "t") (codes "r") (codes "l") (codes "ann") steps

abbrev old_entry : CapEntry
old_entry = record { ctx = caller; expires_at = 100 }

abbrev world : World ℕ
world = record {
  host = record { outside = 7; caps = (codes "old", old_entry) ∷ [] };
  registry = insert_run run empty_registry;
}

execute_loop-is_report_example :
    (r : RunState) × (snapshot
        (codes "r")
        (execute_loop services (codes "r") caller base steps null world).registry
      ≡ some r)
    × (is_report (outcomes_of r.steps) r.status ≡ true)
    × (unmarked r.steps ≡ map pending_step steps)
    × (record r { status = run_running; steps = map pending_step steps } ≡ run)
unfolding snapshot insert_run lookup kanbrick_v.LoopRuns.evict kanbrick_v.Common.insert text_beq
    new_run
execute_loop-is_report_example =
    execute_loop-is_report services (codes "r") caller base steps null world (codes "t") (codes "l")
      (codes "ann") ((refl, (refl, tt)), ((refl, tt), (tt, tt))) refl

execute_loop_revokes_example : lookup (codes "old") world.host.caps ≡ some old_entry
unfolding execute_loop execute_steps run_step lookup kanbrick_v.Common.is_empty
    kanbrick_v.LoopRuns.Step.tool_step kanbrick_v.LoopRuns.Step.guest_step
    kanbrick_v.Core.Clearance.ge kanbrick_v.Caps.revoke kanbrick_v.Common.remove
    kanbrick_v.Caps.mint kanbrick_v.Common.insert kanbrick_v.Common.retain_values text_beq
execute_loop_revokes_example =
    execute_loop_revokes services (codes "r") caller base steps null world (codes "old") old_entry
      refl

empty_IsRegistry : IsRegistry empty_registry
unfolding contains lookup
empty_IsRegistry = record { bounded = omega arith; known = λ id. refl; differ = tt }
