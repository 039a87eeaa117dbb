-- ===== src/Grants/Scopes.antt =====
-- kanbrick-discovery/src/grants.rs, the methods of `ScopeGrants` on granted scopes and their skills.
use mathlib.Core.List.{foldl}
use kanbrick_v.Common.{
  ℕ, suc, Text, codes, List, [], ◌∷◌, ◌++◌, Bool, false, not, ◌&&◌, ◌||◌, Option, none, some, ok,
  map, retain, find, head?, text_beq, ltb, if◌then◌else◌,
}
use kanbrick_v.Common.Action.{◌>>=◌, ◌>>◌, pure, fail_if, or_raise}
use kanbrick_v.Core.Clearance.{ClearanceLevel, l5, ge, display}
use kanbrick_v.Core.Context.{FirmContext}
use kanbrick_v.Core.Error.{not_found, invalid_input, access_denied}
use kanbrick_v.LoopRuns.Step.{Skill}
use kanbrick_v.Scope.Project.{
  VisibilityScope, ProjectScope, new_project, grant_persons, grant_companies,
}
use kanbrick_v.Grants.{
  request_expired, active, scope_expired, revoked, request_status_text, scope_status_text,
  is_active, GrantedScope, Chrono, is_expired,
}
use kanbrick_v.Grants.Store.{ScopeNode, Store, scope_from_row, skill_from_row}
use kanbrick_v.Grants.Methods.{GrantAction, querying, executing, invalidating, audit, scope_unknown}

module _ {D : Type 0} {I : Type 0} (store : Store D) (c : Chrono I) where
  unfoldable pub scope : Text → GrantAction store c (Option GrantedScope)
  scope id = do
    rows ← querying store c (store.scopes.match_rows (λ r. text_beq r.id id))
    pure (head? (map scope_from_row rows))

  abbrev pub is_usable : I → GrantedScope → Bool
  is_usable now s = is_active s.status && not (is_expired c s.expires_at now)

  unfoldable pub active_scopes_for : Text → Text → I → GrantAction store c (List GrantedScope)
  active_scopes_for requester_email project now = do
    rows ← querying store c (
        store.scopes.match_rows
          (λ r. text_beq r.requester requester_email && text_beq r.project project))
    pure (retain (is_usable now) (map scope_from_row rows))

  abbrev pub with_grant : ProjectScope → GrantedScope → ProjectScope
  with_grant p g = grant_companies g.granted_companies (grant_persons g.granted_persons p)

  abbrev pub composed_of : VisibilityScope → Text → List GrantedScope → Option ProjectScope
  composed_of base project [] = none
  composed_of base project grants = some (foldl with_grant (new_project base project) grants)

  unfoldable pub active_scope_for :
      VisibilityScope → Text → Text → I → GrantAction store c (Option ProjectScope)
  active_scope_for base requester_email project now = do
    grants ← active_scopes_for requester_email project now
    pure (composed_of base project grants)

  unfoldable pub revoke_scope :
      Text → I → Text → FirmContext → Text → GrantAction store c (Unit {0})
  revoke_scope entry_id now scope_id actor reason = do
    found ← scope scope_id
    s ← or_raise found (scope_unknown scope_id)
    fail_if (not (text_beq actor.email s.granted_by || ge actor.clearance l5))
        (access_denied l5 actor.clearance)
    executing store c (
        store.scopes.set_rows (λ n. text_beq n.id scope_id)
          (λ n. record n {
            status = scope_status_text revoked;
            revoked_by = some actor.email;
            revoked_reason = some reason;
            revoked_at = some (c.to_rfc3339 now);
          }))
    executing store c (
        store.requests.set_rows
          (λ n. elim n.scope_id [ none ↦ false | some i ↦ text_beq i scope_id ])
          (λ n. record n { status = request_status_text request_expired }))
    invalidating store c
    audit store c entry_id now actor (codes "scope:revoked:" ++ scope_id)

  -- The loop of `expire_due`: the count of the scopes that were swept.
  unfoldable pub sweep : I → List ScopeNode → GrantAction store c ℕ
  sweep now [] = pure 0
  sweep now (row ∷ rows) = do
    executing store c (λ d.
        if is_expired c (scope_from_row row).expires_at now
        then store.scopes.set_rows (λ n. text_beq n.id row.id)
            (λ n. record n {
              status = scope_status_text scope_expired;
              expired_at = some (c.to_rfc3339 now);
            })
            d
        else ok d)
    expired ← sweep now rows
    pure (if is_expired c (scope_from_row row).expires_at now then suc expired else expired)

  unfoldable pub expire_due : I → GrantAction store c ℕ
  expire_due now = do
    rows ←
        querying store c
          (store.scopes.match_rows (λ r. text_beq r.status (scope_status_text active)))
    expired ← sweep now rows
    (if ltb 0 expired then invalidating store c else pure tt)
    pure expired

  abbrev pub bound_skill : Text → Text → Text → Text → ClearanceLevel → Skill
  bound_skill id scope_id name guest required_clearance = record {
    id = id;
    name = name;
    scope_id = scope_id;
    guest = guest;
    required_clearance = required_clearance;
  }

  unfoldable pub define_skill :
      Text → Text → Text → Text → ClearanceLevel → GrantAction store c Skill
  define_skill id scope_id name guest required_clearance = do
    found ← scope scope_id
    _ ← or_raise found (scope_unknown scope_id)
    executing store c (
        store.skills.merge_row (record {
          id = id;
          name = name;
          scope_id = scope_id;
          guest = guest;
          required_clearance = display required_clearance;
        }))
    executing store c (store.bind_skill scope_id id)
    pure (bound_skill id scope_id name guest required_clearance)

  unfoldable pub skills_for_scope : Text → GrantAction store c (List Skill)
  skills_for_scope scope_id = do
    rows ← querying store c (store.skills_of scope_id)
    pure (map skill_from_row rows)

  unfoldable pub authorize_skill :
      Text
      → FirmContext
      → VisibilityScope
      → Text
      → Text
      → I
      → GrantAction store c (Skill × ProjectScope)
  authorize_skill entry_id caller base scope_id skill_name now = do
    found ← scope scope_id
    s ← or_raise found (scope_unknown scope_id)
    fail_if (not (is_usable now s))
        (invalid_input (codes "scope " ++ (scope_id ++ codes " is not active")))
    fail_if (not (text_beq caller.email s.requester))
        (access_denied caller.clearance caller.clearance)
    bound ← skills_for_scope scope_id
    skill ←
        or_raise (find (λ k. text_beq k.name skill_name) bound)
          (not_found (codes "skill " ++ (skill_name ++ (codes " on scope " ++ scope_id))))
    fail_if (not (ge caller.clearance skill.required_clearance))
        (access_denied skill.required_clearance caller.clearance)
    audit store c entry_id now caller
        (codes "skill:authorized:" ++ (skill_name ++ (codes ":" ++ scope_id)))
    pure (skill, with_grant (new_project base s.project) s)
