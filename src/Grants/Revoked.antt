-- ===== src/Grants/Revoked.antt =====
-- What the database documents of its commands on granted scopes, and what a revocation writes.
use kanbrick_v.Common.{
  ◌≡◌, codes, ◌++◌, ◌∙◌, ap, arith, Text, List, [], ◌∷◌, Bool, false, ℤ, Option, none, some, ok,
  retain, map, head?, text_beq, if◌then◌else◌, Result-cases, ◌⊎◌, inl, inr,
}
use kanbrick_v.Core.Clearance.{display}
use kanbrick_v.Core.Context.{FirmContext}
use kanbrick_v.Grants.{
  ScopeRequest, granted, active, GrantedScope, Chrono, revoked, request_expired, scope_status_text,
  request_status_text,
}
use kanbrick_v.Grants.Store.{
  RequestNode, ScopeNode, SkillNode, AuditEntry, Store, GrantState, scope_from_row,
}
use kanbrick_v.Grants.Ids.{join_ids}
use kanbrick_v.Grants.Methods.{audit, expiry_of, expiry_text}
use kanbrick_v.Grants.Scopes.{scope, revoke_scope}
use kanbrick_v.Grants.Sound.{scope_state}

-- `MATCH … SET` on a list of nodes.
abbrev pub update : {Row : Type 0} → (Row → Bool) → (Row → Row) → List Row → List Row
update p f = map (λ r. if p r then f r else r)

-- What the database's commands mean for the nodes of granted scopes: a match finds the nodes of the
-- pattern, a set changes just those, a merge makes a node or finds it there and makes it when its id
-- is new, and commands on other labels leave them alone.
pub record IsScopeView {D : Type 0} (store : Store D) (view : D → List ScopeNode) : Type 0 where
  pub matched :
      (p : ScopeNode → Bool) (d : D) (rows : List ScopeNode)
      → store.scopes.match_rows p d ≡ ok rows
      → rows ≡ retain p (view d)
  pub updated :
      (p : ScopeNode → Bool) (f : ScopeNode → ScopeNode) (d d' : D)
      → store.scopes.set_rows p f d ≡ ok d'
      → view d' ≡ update p f (view d)
  pub requests_apart :
      (p : RequestNode → Bool) (f : RequestNode → RequestNode) (d d' : D)
      → store.requests.set_rows p f d ≡ ok d'
      → view d' ≡ view d
  pub merged :
      (n : ScopeNode) (d d' : D)
      → store.scopes.merge_row n d ≡ ok d'
      → (view d' ≡ view d ++ n ∷ []) ⊎ (view d' ≡ view d)
  pub created :
      (n : ScopeNode) (d d' : D)
      → store.scopes.merge_row n d ≡ ok d'
      → retain (λ m. text_beq m.id n.id) (view d) ≡ []
      → view d' ≡ view d ++ n ∷ []
  pub asked_apart :
      (n : RequestNode) (d d' : D) → store.requests.merge_row n d ≡ ok d' → view d' ≡ view d
  pub skills_apart :
      (n : SkillNode) (d d' : D) → store.skills.merge_row n d ≡ ok d' → view d' ≡ view d
  pub links_apart :
      (scope_id id : Text) (d d' : D) → store.bind_skill scope_id id d ≡ ok d' → view d' ≡ view d
  pub audits_apart :
      (e : AuditEntry) (d d' : D) → store.audits.merge_row e d ≡ ok d' → view d' ≡ view d

abbrev pub has_id : Text → ScopeNode → Bool
has_id id n = text_beq n.id id

abbrev pub revoked_node : Text → Text → Text → ScopeNode → ScopeNode
revoked_node by reason at n = record n {
  status = scope_status_text revoked;
  revoked_by = some by;
  revoked_reason = some reason;
  revoked_at = some at;
}

-- What an approval writes: the node of the scope, and the decision on the node of the request.
abbrev pub granted_node :
    {D I : Type 0}
    → Store D
    → Chrono I
    → Text
    → I
    → FirmContext
    → Option ℤ
    → ScopeRequest
    → ScopeNode
granted_node store c scope_id now grantor ttl_days r = record {
  id = scope_id;
  project = r.project;
  requester = r.requester;
  granted_by = grantor.email;
  status = scope_status_text active;
  created_at = c.to_rfc3339 now;
  granted_persons = join_ids r.persons;
  granted_companies = join_ids r.companies;
  expires_at = expiry_text (expiry_of store c now ttl_days);
  revoked_by = none;
  revoked_reason = none;
  revoked_at = none;
  expired_at = none;
}

abbrev pub decided_node : Text → Text → Text → RequestNode → RequestNode
decided_node grantor scope_id at n = record n {
  status = request_status_text granted;
  granted_by = some grantor;
  scope_id = some scope_id;
  decided_at = some at;
}

abbrev pub is_request : Text → RequestNode → Bool
is_request id n = text_beq n.id id

abbrev of_scope : Text → RequestNode → Bool
of_scope id n = elim n.scope_id [ none ↦ false | some i ↦ text_beq i id ]

abbrev spent : RequestNode → RequestNode
spent n = record n { status = request_status_text request_expired }

module _ {D : Type 0} {I : Type 0} (store : Store D) (c : Chrono I) (view : D → List ScopeNode)
    (laws : IsScopeView store view) where
  pub scope_of_view :
      (id : Text) (g : GrantState D) (s : GrantedScope)
      → (scope store c id g).0 ≡ ok (some s)
      → head? (map scope_from_row (retain (has_id id) (view g.db))) ≡ some s
  unfolding scope
  scope_of_view id g s h = elim (Result-cases (store.scopes.match_rows (has_id id) g.db)) [
    | inl (rows, e) ↦ rw (← laws.matched (has_id id) g.db rows e) (ground arith)
    | inr (x, e) ↦ absurd (ground arith)
  ]

  pub revoke_view :
      (entry_id : Text) (now : I) (id : Text) (actor : FirmContext) (reason : Text)
      (g : GrantState D)
      → (revoke_scope store c entry_id now id actor reason g).0 ≡ ok tt
      → view (revoke_scope store c entry_id now id actor reason g).1.db
        ≡ update (has_id id) (revoked_node actor.email reason (c.to_rfc3339 now)) (view g.db)
  unfolding revoke_scope audit
  revoke_view entry_id now id actor reason g h =
      let same = scope_state store c id g in
      let set_scopes =
        store.scopes.set_rows (has_id id) (revoked_node actor.email reason (c.to_rfc3339 now)) in
      let set_requests = store.requests.set_rows (of_scope id) spent in
      let entry : AuditEntry = record {
        entry_id = entry_id;
        user_id = actor.user_id;
        clearance = display actor.clearance;
        query_hash = store.query_hash (codes "scope:revoked:" ++ id);
        timestamp = c.to_rfc3339 now;
      } in
      elim (Result-cases (set_scopes g.db)) [
        | inl (d1, e1) ↦ elim (Result-cases (set_requests d1)) [
          | inl (d2, e2) ↦ elim (Result-cases (store.audits.merge_row entry d2)) [
            | inl (d3, e3) ↦
                let last : (revoke_scope store c entry_id now id actor reason g).1.db ≡ d3 =
                  unfold revoke_scope audit in ground arith in
                ap view last
                ∙ laws.audits_apart entry d2 d3 e3
                ∙ laws.requests_apart (of_scope id) spent d1 d2 e2
                ∙ laws.updated (has_id id) (revoked_node actor.email reason (c.to_rfc3339 now)) g.db
                    d1 e1
            | inr (x, e3) ↦ absurd (ground arith)
          ]
          | inr (x, e2) ↦ absurd (ground arith)
        ]
        | inr (x, e1) ↦ absurd (ground arith)
      ]
