-- ===== src/Grants/Methods.antt =====
-- kanbrick-discovery/src/grants.rs, the methods of `ScopeGrants`, here those on requests. Each is given the random ids that
-- it draws and one reading of the clock; a write that succeeded stays when a later one fails.
use kanbrick_v.Common.{
  ℤ, Text, codes, List, [], ◌++◌, not, Option, none, some, Result, ok, err, map, head?, text_beq,
}
use kanbrick_v.Common.Action.{Action, ◌>>=◌, ◌>>◌, pure, fail_if, or_raise}
use kanbrick_v.Core.Clearance.{display}
use kanbrick_v.Core.Context.{FirmContext}
use kanbrick_v.Core.Error.{Error, not_found, invalid_input, access_denied}
use kanbrick_v.Management.{ManagerOf}
use kanbrick_v.Grants.{
  requested, granted, request_denied, active, request_status_text, request_status_debug,
  scope_status_text, is_requested, ScopeRequest, GrantedScope, Chrono, eligible_grantor,
  min_grantor_clearance,
}
use kanbrick_v.Grants.Ids.{join_ids}
use kanbrick_v.Grants.Store.{Store, invalidate_given, GrantState, request_from_row}

abbrev pub expiry_text : Option Text → Text
expiry_text none = []
expiry_text (some t) = t

abbrev pub scope_unknown : Text → Error
scope_unknown id = not_found (codes "project scope " ++ id)

module _ {D : Type 0} {I : Type 0} (store : Store D) (c : Chrono I) where
  abbrev pub GrantAction : Type 0 → Type 0
  GrantAction = Action (GrantState D) Error

  abbrev pub querying : {A : Type 0} → (D → Result Error A) → GrantAction A
  querying f s = (f s.db, s)

  abbrev pub executing : (D → Result Error D) → GrantAction (Unit {0})
  executing f s = elim (f s.db) [ ok d ↦ (ok tt, record s { db = d }) | err e ↦ (err e, s) ]

  abbrev pub invalidating : GrantAction (Unit {0})
  invalidating s = (ok tt, record s { cache = invalidate_given s.cache })

  -- `AuditLog::record`
  unfoldable pub audit : Text → I → FirmContext → Text → GrantAction (Unit {0})
  audit entry_id now ctx marker = executing (
      store.audits.merge_row (record {
        entry_id = entry_id;
        user_id = ctx.user_id;
        clearance = display ctx.clearance;
        query_hash = store.query_hash marker;
        timestamp = c.to_rfc3339 now;
      }))

  unfoldable pub request_scope :
      Text → Text → I → FirmContext → Text → List Text → List Text → Text → GrantAction ScopeRequest
  request_scope id entry_id now requester project persons companies justification = do
    executing (
        store.requests.merge_row (record {
          id = id;
          project = project;
          requester = requester.email;
          justification = justification;
          status = request_status_text requested;
          requested_at = c.to_rfc3339 now;
          persons = join_ids persons;
          companies = join_ids companies;
          granted_by = none;
          scope_id = none;
          decided_at = none;
          denied_reason = none;
        }))
    audit entry_id now requester (codes "scope-request:created:" ++ id)
    pure (record {
      id = id;
      project = project;
      requester = requester.email;
      justification = justification;
      persons = persons;
      companies = companies;
      status = requested;
    })

  unfoldable pub request : Text → GrantAction (Option ScopeRequest)
  request id = do
    rows ← querying (store.requests.match_rows (λ r. text_beq r.id id))
    pure (head? (map request_from_row rows))

  -- What `approve` and `deny` check before they write.
  unfoldable pub decidable_request : Text → FirmContext → ManagerOf → GrantAction ScopeRequest
  decidable_request request_id grantor graph = do
    found ← request request_id
    r ← or_raise found (not_found (codes "scope request " ++ request_id))
    fail_if (not (is_requested r.status)) (
        invalid_input (
          codes "request "
          ++ (request_id
              ++ (codes " is " ++ (request_status_debug r.status ++ codes ", not pending")))))
    fail_if (not (eligible_grantor graph r.requester grantor))
        (access_denied min_grantor_clearance grantor.clearance)
    pure r

  abbrev pub expiry_of : I → Option ℤ → Option Text
  expiry_of now none = none
  expiry_of now (some days) = some (c.to_rfc3339 (c.plus_days now days))

  unfoldable pub approve :
      Text → Text → I → Text → FirmContext → ManagerOf → Option ℤ → GrantAction GrantedScope
  approve scope_id entry_id now request_id grantor graph ttl_days = do
    r ← decidable_request request_id grantor graph
    executing (
        store.scopes.merge_row (record {
          id = scope_id;
          project = r.project;
          requester = r.requester;
          granted_by = grantor.email;
          status = scope_status_text active;
          created_at = c.to_rfc3339 now;
          granted_persons = join_ids r.persons;
          granted_companies = join_ids r.companies;
          expires_at = expiry_text (expiry_of now ttl_days);
          revoked_by = none;
          revoked_reason = none;
          revoked_at = none;
          expired_at = none;
        }))
    executing (
        store.requests.set_rows (λ n. text_beq n.id request_id)
          (λ n. record n {
            status = request_status_text granted;
            granted_by = some grantor.email;
            scope_id = some scope_id;
            decided_at = some (c.to_rfc3339 now);
          }))
    audit entry_id now grantor
        (codes "scope:granted:" ++ (scope_id ++ (codes ":to:" ++ r.requester)))
    pure (record {
      id = scope_id;
      project = r.project;
      requester = r.requester;
      granted_by = grantor.email;
      granted_persons = r.persons;
      granted_companies = r.companies;
      expires_at = expiry_of now ttl_days;
      status = active;
    })

  unfoldable pub deny : Text → I → Text → FirmContext → ManagerOf → Text → GrantAction (Unit {0})
  deny entry_id now request_id grantor graph reason = do
    _ ← decidable_request request_id grantor graph
    executing (
        store.requests.set_rows (λ n. text_beq n.id request_id)
          (λ n. record n {
            status = request_status_text request_denied;
            granted_by = some grantor.email;
            denied_reason = some reason;
            decided_at = some (c.to_rfc3339 now);
          }))
    audit entry_id now grantor (codes "scope-request:denied:" ++ request_id)
