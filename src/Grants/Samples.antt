-- ===== src/Grants/Samples.antt =====
-- A database of lists, with one request and one scope, and an instant as the text of one character.
use kanbrick_v.Common.{
  ℕ, suc, Text, codes, List, [], ◌∷◌, ◌++◌, false, Option, none, some, ok, retain, text_beq,
  text_eq, ltb,
}
use kanbrick_v.Core.Clearance.{ClearanceLevel, l2, l3, l4}
use kanbrick_v.Core.Context.{FirmContext}
use kanbrick_v.Management.{ManagerOf}
use kanbrick_v.LoopRuns.Step.{Skill}
use kanbrick_v.Scope.Project.{
  VisibilityScope, ProjectScope, new_project, grant_persons, grant_companies,
}
use kanbrick_v.Grants.{ScopeRequest, GrantedScope, Chrono, requested, active}
use kanbrick_v.Grants.Store.{RequestNode, ScopeNode, SkillNode, AuditEntry, Store, GrantState}
use kanbrick_v.Grants.Revoked.{update}

pub record Db : Type 0 where
  pub request_nodes : List RequestNode
  pub scope_nodes : List ScopeNode
  pub skill_nodes : List SkillNode
  pub entries : List AuditEntry

abbrev pub list_store : Store Db
list_store = record {
  requests = record {
    match_rows = λ p d. ok (retain p d.request_nodes);
    set_rows = λ p f d. ok (record d { request_nodes = update p f d.request_nodes });
    merge_row = λ r d. ok (record d { request_nodes = d.request_nodes ++ (r ∷ []) });
  };
  scopes = record {
    match_rows = λ p d. ok (retain p d.scope_nodes);
    set_rows = λ p f d. ok (record d { scope_nodes = update p f d.scope_nodes });
    merge_row = λ r d. ok (record d { scope_nodes = d.scope_nodes ++ (r ∷ []) });
  };
  skills = record {
    match_rows = λ p d. ok (retain p d.skill_nodes);
    set_rows = λ p f d. ok (record d { skill_nodes = update p f d.skill_nodes });
    merge_row = λ r d. ok (record d { skill_nodes = d.skill_nodes ++ (r ∷ []) });
  };
  audits = record {
    match_rows = λ p d. ok (retain p d.entries);
    set_rows = λ p f d. ok (record d { entries = update p f d.entries });
    merge_row = λ r d. ok (record d { entries = d.entries ++ (r ∷ []) });
  };
  bind_skill = λ scope_id id d. ok d;
  skills_of = λ scope_id d. ok (retain (λ k. text_beq k.scope_id scope_id) d.skill_nodes);
  query_hash = λ t. t;
}

abbrev pub read_instant : Text → Option ℕ
read_instant (x ∷ []) = some x
read_instant _ = none

abbrev pub clock : Chrono ℕ
clock = record {
  earlier = ltb;
  plus_days = λ i d. suc i;
  to_rfc3339 = λ i. i ∷ [];
  parse_rfc3339 = read_instant;
}

abbrev pub person : Text → ClearanceLevel → FirmContext
person email clearance = record {
  user_id = 1;
  email = email;
  clearance = clearance;
  firm_id = codes "kanbrick";
  roles = [];
  session_id = 2;
  issued_at = 3;
}

abbrev pub ann : FirmContext
ann = person (codes "ann") l3

abbrev pub bob : FirmContext
bob = person (codes "bob") l4

abbrev pub graph : ManagerOf
graph = (codes "ann", codes "bob") ∷ []

abbrev pub asked : RequestNode
asked = record {
  id = codes "r";
  project = codes "p";
  requester = codes "ann";
  justification = [];
  status = codes "REQUESTED";
  requested_at = [];
  persons = codes "cy";
  companies = [];
  granted_by = none;
  scope_id = none;
  decided_at = none;
  denied_reason = none;
}

abbrev pub given : ScopeNode
given = record {
  id = codes "s";
  project = codes "p";
  requester = codes "ann";
  granted_by = codes "bob";
  status = codes "ACTIVE";
  created_at = [];
  granted_persons = codes "cy";
  granted_companies = [];
  expires_at = 9 ∷ [];
  revoked_by = none;
  revoked_reason = none;
  revoked_at = none;
  expired_at = none;
}

abbrev pub modeling : SkillNode
modeling = record {
  id = codes "k";
  name = codes "modeling";
  scope_id = codes "s";
  guest = codes "g";
  required_clearance = codes "L2";
}

abbrev pub state : GrantState Db
state = record {
  db = record {
    request_nodes = asked ∷ [];
    scope_nodes = given ∷ [];
    skill_nodes = modeling ∷ [];
    entries = [];
  };
  cache = none;
}

abbrev pub request_of : ScopeRequest
request_of = record {
  id = codes "r";
  project = codes "p";
  requester = codes "ann";
  justification = [];
  persons = codes "cy" ∷ [];
  companies = [];
  status = requested;
}

abbrev pub scope_of : Text → Option Text → GrantedScope
scope_of id expires_at = record {
  id = id;
  project = codes "p";
  requester = codes "ann";
  granted_by = codes "bob";
  granted_persons = codes "cy" ∷ [];
  granted_companies = [];
  expires_at = expires_at;
  status = active;
}

abbrev pub view : VisibilityScope
view = record {
  sees_all = false;
  can_see_person = λ e. false;
  can_see_company = λ i. false;
  scope_key = [];
}

abbrev pub modeling_skill : Skill
modeling_skill = record {
  id = codes "k";
  name = codes "modeling";
  scope_id = codes "s";
  guest = codes "g";
  required_clearance = l2;
}

abbrev pub composed : ProjectScope
composed = grant_companies [] (grant_persons (codes "cy" ∷ []) (new_project view (codes "p")))
