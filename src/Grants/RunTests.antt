-- ===== src/Grants/RunTests.antt =====
-- A tool step of a run under the sample scope.
use kanbrick_v.Common.{
  ℕ, suc, ◌≡◌, refl, arith, Text, codes, List, [], ◌∷◌, find, Bool, true, false, Option, none, some,
  Result, ok, err, text_beq,
}
use kanbrick_v.Core.Clearance.{l3, ge}
use kanbrick_v.Core.Error.{internal}
use kanbrick_v.Json.{null, string}
use kanbrick_v.Scope.Clearance.{ClearanceScope}
use kanbrick_v.LoopRuns.{LoopStepRecord}
use kanbrick_v.Mesh.Task.{task_completed}
use kanbrick_v.LoopRuns.Step.{Skill, Services, Host, run_step}
use kanbrick_v.Grants.{GrantedScope}
use kanbrick_v.Grants.Store.{GrantState}
use kanbrick_v.Grants.Scopes.{scope, skills_for_scope, is_usable}
use kanbrick_v.Grants.Runs.{with_grants, run_step_authorized}
use kanbrick_v.Grants.Samples.{Db, list_store, clock, ann, state}

-- The gate of these services is filled in below; the rest of the state is the clock.
abbrev services : Services (GrantState Db × ℕ)
services = record {
  authorize_skill = λ c b id name o. (err (internal []), o);
  now = λ o. o.1;
  fresh_cap = λ o. (codes "cap", o);
  call_tool = λ caps cap tool args o. (ok (string (codes "done")), o);
  read_guest_policy = λ o guest. ok none;
  run_guest = λ guest c payload o. (some (task_completed payload), o);
  list_keys = λ o user. ok [];
  get_secret = λ o user id. ok none;
  complete = λ kind key model prompt o. (ok prompt, o);
  parse_json = λ t. none;
  json_text = λ v. [];
}

abbrev base : ClearanceScope
base = record {
  clearance = l3;
  self_email = codes "ann";
  sees_all = false;
  visible_company_ids = [];
  visible_person_emails = [];
}

abbrev step : LoopStepRecord
step = record {
  loop_id = codes "l";
  position = 0;
  skill_name = codes "modeling";
  scope_id = codes "s";
  provider = [];
  model = [];
  tool = codes "search";
  tool_args = [];
}

abbrev host : Host (GrantState Db × ℕ)
host = record { outside = (state, 5); caps = [] }

run_step_authorized_example :
    (s : GrantedScope) × (bound : List Skill) × (skill : Skill) × ((scope list_store clock
        (codes "s")
        state).0
      ≡ ok (some s))
    × ((skills_for_scope list_store clock (codes "s") state).0 ≡ ok bound)
    × (find (λ k. text_beq k.name (codes "modeling")) bound ≡ some skill)
    × (is_usable list_store clock 5 s ≡ true)
    × (text_beq ann.email s.requester ≡ true)
    × (text_beq skill.name (codes "modeling") ≡ true)
    × (ge l3 skill.required_clearance ≡ true)
unfolding run_step with_grants kanbrick_v.Grants.Scopes.authorize_skill scope text_beq
    kanbrick_v.Grants.Store.scope_from_row kanbrick_v.Grants.parse_scope_status
    kanbrick_v.Grants.is_expired kanbrick_v.Common.is_empty
    kanbrick_v.Grants.Scopes.skills_for_scope kanbrick_v.Grants.Store.skill_from_row ge
    kanbrick_v.Grants.parse_clearance kanbrick_v.Grants.Methods.audit
    kanbrick_v.LoopRuns.Step.tool_step
run_step_authorized_example =
    run_step_authorized list_store clock (λ t. codes "e") (λ t. t) services ann base step null
      (string (codes "done")) host refl
