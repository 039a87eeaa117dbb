-- ===== src/Grants/Store.antt =====
-- The nodes that grants are kept in, and the commands of the database on them. The database is the
-- crate sparrowdb: its commands are parameters, and each may fail.
use kanbrick_v.Common.{ℕ, Text, List, Bool, Option, none, some, Result, is_empty, if◌then◌else◌}
use kanbrick_v.Core.Error.{Error}
use kanbrick_v.Json.{JsonValue}
use kanbrick_v.Cache.{DiscoveryCache, invalidate_all}
use kanbrick_v.LoopRuns.Step.{Skill}
use kanbrick_v.Grants.{
  ScopeRequest, GrantedScope, parse_request_status, parse_scope_status, parse_clearance,
}
use kanbrick_v.Grants.Ids.{split_ids}

-- `(:ScopeRequest)`, `(:ProjectScope)`, `(:Skill)` and `(:AuditEntry)`
pub record RequestNode : Type 0 where
  pub id : Text
  pub project : Text
  pub requester : Text
  pub justification : Text
  pub status : Text
  pub requested_at : Text
  pub persons : Text
  pub companies : Text
  pub granted_by : Option Text
  pub scope_id : Option Text
  pub decided_at : Option Text
  pub denied_reason : Option Text

pub record ScopeNode : Type 0 where
  pub id : Text
  pub project : Text
  pub requester : Text
  pub granted_by : Text
  pub status : Text
  pub created_at : Text
  pub granted_persons : Text
  pub granted_companies : Text
  pub expires_at : Text
  pub revoked_by : Option Text
  pub revoked_reason : Option Text
  pub revoked_at : Option Text
  pub expired_at : Option Text

pub record SkillNode : Type 0 where
  pub id : Text
  pub name : Text
  pub scope_id : Text
  pub guest : Text
  pub required_clearance : Text

pub record AuditEntry : Type 0 where
  pub entry_id : Text
  pub user_id : ℕ
  pub clearance : Text
  pub query_hash : Text
  pub timestamp : Text

-- The commands on the nodes of one label: `MATCH` with a pattern, `MATCH … SET`, and `MERGE` of a
-- node with all its properties.
pub record Nodes (D : Type 0) (Row : Type 0) : Type 0 where
  pub match_rows : (Row → Bool) → D → Result Error (List Row)
  pub set_rows : (Row → Bool) → (Row → Row) → D → Result Error D
  pub merge_row : Row → D → Result Error D

-- `HAS_SKILL` is bound by the ids of its two ends, and followed from a scope's id.
pub record Store (D : Type 0) : Type 0 where
  pub requests : Nodes D RequestNode
  pub scopes : Nodes D ScopeNode
  pub skills : Nodes D SkillNode
  pub audits : Nodes D AuditEntry
  pub bind_skill : Text → Text → D → Result Error D
  pub skills_of : Text → D → Result Error (List SkillNode)
  pub query_hash : Text → Text

-- `if let Some(cache) = cache { cache.invalidate_all() }`
unfoldable pub invalidate_given :
    Option (DiscoveryCache JsonValue) → Option (DiscoveryCache JsonValue)
unfolding invalidate_all
invalidate_given none = none
invalidate_given (some c) = some (invalidate_all c)

-- What a method works on: the database, and the cache that the caller passes, if any.
pub record GrantState (D : Type 0) : Type 0 where
  pub db : D
  pub cache : Option (DiscoveryCache JsonValue)

abbrev pub non_blank : Text → Option Text
non_blank s = if is_empty s then none else some s

unfoldable pub request_from_row : RequestNode → ScopeRequest
request_from_row r = record {
  id = r.id;
  project = r.project;
  requester = r.requester;
  justification = r.justification;
  persons = split_ids r.persons;
  companies = split_ids r.companies;
  status = parse_request_status r.status;
}

unfoldable pub scope_from_row : ScopeNode → GrantedScope
scope_from_row r = record {
  id = r.id;
  project = r.project;
  requester = r.requester;
  granted_by = r.granted_by;
  granted_persons = split_ids r.granted_persons;
  granted_companies = split_ids r.granted_companies;
  expires_at = non_blank r.expires_at;
  status = parse_scope_status r.status;
}

unfoldable pub skill_from_row : SkillNode → Skill
skill_from_row r = record {
  id = r.id;
  name = r.name;
  scope_id = r.scope_id;
  guest = r.guest;
  required_clearance = parse_clearance r.required_clearance;
}
