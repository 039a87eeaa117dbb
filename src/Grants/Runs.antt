-- ===== src/Grants/Runs.antt =====
-- The executor of loop runs over the grants: `grants.authorize_skill` in `execute_loop` of
-- kanbrick-api/src/loops.rs is the method of kanbrick-discovery/src/grants.rs.
use kanbrick_v.Common.{
  ◌≡◌, arith, Text, List, [], find, true, some, Result, ok, err, text_beq, Result-cases, inl, inr,
}
use kanbrick_v.Core.Clearance.{ge}
use kanbrick_v.Core.Context.{FirmContext}
use kanbrick_v.Core.Error.{Error}
use kanbrick_v.Json.{JsonValue}
use kanbrick_v.Scope.Clearance.{ClearanceScope}
use kanbrick_v.Scope.Project.{ProjectScope, clearance_visibility}
use kanbrick_v.LoopRuns.{LoopStepRecord}
use kanbrick_v.LoopRuns.Step.{Skill, Services, Host, run_step}
use kanbrick_v.Grants.{GrantedScope, Chrono}
use kanbrick_v.Grants.Store.{Store, GrantState}
use kanbrick_v.Grants.Scopes.{scope, skills_for_scope, authorize_skill, is_usable}
use kanbrick_v.Grants.Sound.{authorize_skill_sound}

abbrev pub skill_only : Result Error (Skill × ProjectScope) → Result Error Skill
skill_only (ok (skill, composed)) = ok skill
skill_only (err e) = err e

-- The services with the gate of a step filled in. The rest of their state yields the random id of
-- the audit entry and the reading of the clock.
unfoldable pub with_grants :
    {D I R : Type 0}
    → Store D
    → Chrono I
    → (R → Text)
    → (R → I)
    → Services (GrantState D × R)
    → Services (GrantState D × R)
with_grants store c entry_id now env = record env {
  authorize_skill = λ caller base scope_id name o.
      let (verdict, g) =
        authorize_skill store c (entry_id o.1) caller (clearance_visibility base) scope_id name
          (now o.1) o.0 in
      (skill_only verdict, (g, o.1));
}

-- A step of a run that succeeds, of whichever kind, ran under a scope that was on record when it
-- began, active and unexpired at that time, whose grantee is the caller, and for the first skill of
-- the step's name among the skills that were bound to this scope, whose clearance the caller has.
pub run_step_authorized :
    {D I R : Type 0} (store : Store D) (c : Chrono I) (entry_id : R → Text) (now : R → I)
    (env : Services (GrantState D × R)) (caller : FirmContext) (base : ClearanceScope)
    (step : LoopStepRecord) (payload out : JsonValue) (h : Host (GrantState D × R))
    → (run_step (with_grants store c entry_id now env) caller base step payload h).0 ≡ ok out
    → (s : GrantedScope) × (bound : List Skill) × (skill : Skill) × ((scope store c step.scope_id
          h.outside.0).0
        ≡ ok (some s))
      × ((skills_for_scope store c step.scope_id h.outside.0).0 ≡ ok bound)
      × (find (λ k. text_beq k.name step.skill_name) bound ≡ some skill)
      × (is_usable store c (now h.outside.1) s ≡ true)
      × (text_beq caller.email s.requester ≡ true)
      × (text_beq skill.name step.skill_name ≡ true)
      × (ge caller.clearance skill.required_clearance ≡ true)
unfolding run_step with_grants
run_step_authorized store c entry_id now env caller base step payload out h q =
    let view = clearance_visibility base in
    let o = h.outside in
    elim (Result-cases
      (authorize_skill store c (entry_id o.1) caller view step.scope_id step.skill_name (now o.1)
        o.0).0) [
          | inl ((skill, composed), e) ↦
              let (s, bound, found, listed, first, usable, mine, cleared, named, _, _) =
                authorize_skill_sound store c (entry_id o.1) caller view step.scope_id
                  step.skill_name (now o.1) o.0 skill composed [] e in
              (s, bound, skill, found, listed, first, usable, mine, named, cleared)
          | inr (x, e) ↦ absurd (ground arith)
        ]
