-- ===== src/Grants/Approved.antt =====
-- kanbrick-discovery/src/grants.rs, `approve`: what it answers and what it writes.
use kanbrick_v.Common.{
  ℤ, ◌≡◌, ◌∙◌, refl, ap, arith, codes, Text, List, [], ◌∷◌, ◌++◌, map, head?, retain, retain-append,
  Bool, true, Option, some, ok, Result-cases, inl, inr, text_eq, ==_refl,
}
use kanbrick_v.Core.Clearance.{display}
use kanbrick_v.Core.Context.{FirmContext}
use kanbrick_v.Management.{ManagerOf}
use kanbrick_v.Grants.{ScopeRequest, GrantedScope, Chrono, is_requested, active, eligible_grantor}
use kanbrick_v.Grants.Store.{RequestNode, ScopeNode, AuditEntry, Store, GrantState, scope_from_row}
use kanbrick_v.Grants.Methods.{request, decidable_request, approve, audit, expiry_of}
use kanbrick_v.Grants.Sound.{decided, decidable_state}
use kanbrick_v.Grants.Revoked.{IsScopeView, update, has_id, granted_node, decided_node, is_request}

-- What the database's commands mean for the nodes of requests: a set changes those of the pattern,
-- and commands on other labels leave them alone.
pub record IsRequestView {D : Type 0} (store : Store D) (asked : D → List RequestNode)
    : Type 0 where
  pub updated :
      (p : RequestNode → Bool) (f : RequestNode → RequestNode) (d d' : D)
      → store.requests.set_rows p f d ≡ ok d'
      → asked d' ≡ update p f (asked d)
  pub scopes_apart :
      (n : ScopeNode) (d d' : D) → store.scopes.merge_row n d ≡ ok d' → asked d' ≡ asked d
  pub audits_apart :
      (e : AuditEntry) (d d' : D) → store.audits.merge_row e d ≡ ok d' → asked d' ≡ asked d

module _ {D : Type 0} {I : Type 0} (store : Store D) (c : Chrono I) where
  -- The three commands of an approval that succeeds.
  approve_commands :
      (scope_id entry_id : Text) (now : I) (request_id : Text) (grantor : FirmContext)
      (graph : ManagerOf) (ttl_days : Option ℤ) (g : GrantState D) (given : GrantedScope)
      (r : ScopeRequest)
      → (decidable_request store c request_id grantor graph g).0 ≡ ok r
      → (decidable_request store c request_id grantor graph g).1 ≡ g
      → (approve store c scope_id entry_id now request_id grantor graph ttl_days g).0 ≡ ok given
      → (d1 : D) × (d2 : D) × (entry : AuditEntry) × (store.scopes.merge_row
            (granted_node store c scope_id now grantor ttl_days r)
            g.db
          ≡ ok d1)
        × (store.requests.set_rows
              (is_request request_id)
              (decided_node grantor.email scope_id (c.to_rfc3339 now))
              d1
            ≡ ok d2)
        × (store.audits.merge_row entry d2
            ≡ ok (approve store c scope_id entry_id now request_id grantor graph ttl_days g).1.db)
  unfolding approve audit
  approve_commands scope_id entry_id now request_id grantor graph ttl_days g given r e same h =
      let merge = store.scopes.merge_row (granted_node store c scope_id now grantor ttl_days r) in
      let decide =
        store.requests.set_rows (is_request request_id)
          (decided_node grantor.email scope_id (c.to_rfc3339 now)) in
      let entry : AuditEntry = record {
        entry_id = entry_id;
        user_id = grantor.user_id;
        clearance = display grantor.clearance;
        query_hash =
            store.query_hash
              (codes "scope:granted:" ++ (scope_id ++ (codes ":to:" ++ r.requester)));
        timestamp = c.to_rfc3339 now;
      } in
      elim (Result-cases (merge g.db)) [
        | inl (d1, e1) ↦ elim (Result-cases (decide d1)) [
          | inl (d2, e2) ↦ elim (Result-cases (store.audits.merge_row entry d2)) [
            | inl (d3, e3) ↦ (d1, d2, entry, e1, e2, e3 ∙ ap ok (ground arith))
            | inr (x, e3) ↦ absurd (ground arith)
          ]
          | inr (x, e2) ↦ absurd (ground arith)
        ]
        | inr (x, e1) ↦ absurd (ground arith)
      ]

-- An approval that succeeds decided a request that was on record and pending, by a grantor who may
-- decide it; and the scope it grants is that request's, person for person and company for company,
-- no more, to its requester and on its project, active, and with the expiry that was asked for. On
-- a database whose commands mean what they document, and under an id that no scope had, this scope
-- is what was written: the nodes of granted scopes are those before and its node, which is the one
-- that is read by its id, and the nodes of the request are marked as granted by this grantor under
-- this id, with all other requests as they were.
pub approve_recorded :
    {D : Type 0} {I : Type 0} (store : Store D) (c : Chrono I) (view : D → List ScopeNode)
    (asked : D → List RequestNode) (scope_id entry_id : Text) (now : I) (request_id : Text)
    (grantor : FirmContext) (graph : ManagerOf) (ttl_days : Option ℤ) (g : GrantState D)
    (given : GrantedScope)
    → IsScopeView store view
    → IsRequestView store asked
    → retain (has_id scope_id) (view g.db) ≡ []
    → (approve store c scope_id entry_id now request_id grantor graph ttl_days g).0 ≡ ok given
    → let g' = (approve store c scope_id entry_id now request_id grantor graph ttl_days g).1 in
      (r : ScopeRequest) × ((request store c request_id g).0 ≡ ok (some r))
      × (is_requested r.status ≡ true)
      × (eligible_grantor graph r.requester grantor ≡ true)
      × (given ≡ record {
        id = scope_id;
        project = r.project;
        requester = r.requester;
        granted_by = grantor.email;
        granted_persons = r.persons;
        granted_companies = r.companies;
        expires_at = expiry_of store c now ttl_days;
        status = active;
      })
      × (view g'.db ≡ view g.db ++ granted_node store c scope_id now grantor ttl_days r ∷ [])
      × (head? (map scope_from_row (retain (has_id scope_id) (view g'.db)))
          ≡ some (scope_from_row (granted_node store c scope_id now grantor ttl_days r)))
      × (asked g'.db
          ≡ update
              (is_request request_id)
              (decided_node grantor.email scope_id (c.to_rfc3339 now))
              (asked g.db))
approve_recorded store c view asked scope_id entry_id now request_id grantor graph ttl_days g given
      scopes requests fresh h =
    let (r, e, found, pending, eligible, whole) =
      decided store c scope_id entry_id now request_id grantor graph ttl_days g given h in
    let node = granted_node store c scope_id now grantor ttl_days r in
    let (d1, d2, entry, e1, e2, e3) =
      approve_commands store c scope_id entry_id now request_id grantor graph ttl_days g given r e
        (decidable_state store c request_id grantor graph g) h in
    let g' = (approve store c scope_id entry_id now request_id grantor graph ttl_days g).1 in
    let only : retain (has_id scope_id) (view g.db ++ node ∷ []) ≡ node ∷ [] =
      retain-append (has_id scope_id) (view g.db) (node ∷ []) ∙ rw (fresh, ==_refl scope_id) refl in
    let made : view g'.db ≡ view g.db ++ node ∷ [] =
      scopes.audits_apart entry d2 g'.db e3
      ∙ scopes.requests_apart _ _ d1 d2 e2
      ∙ scopes.created node g.db d1 e1 fresh in
    (
      r,
      found,
      pending,
      eligible,
      whole,
      made,
      ap (λ nodes. head? (map scope_from_row (retain (has_id scope_id) nodes))) made
          ∙ ap (λ nodes. head? (map scope_from_row nodes)) only,
      requests.audits_apart entry d2 g'.db e3
          ∙ requests.updated _ _ d1 d2 e2
          ∙ ap
              (update (is_request request_id)
                (decided_node grantor.email scope_id (c.to_rfc3339 now)))
              (requests.scopes_apart node g.db d1 e1),
    )
