-- ===== src/Grants/Kept.antt =====
-- kanbrick-discovery/src/grants.rs: no method makes a scope that is not active active again.
use kanbrick_v.Common.{
  ℤ, ◌≡◌, refl, sym, subst, codes, ◌++◌, Text, List, [], ◌∷◌, Bool, true, false, not, Option, none,
  some, Result, ok, err, find, text_beq, if◌then◌else◌, Bool-cases, inl, inr, text_eq, ltb,
  ok_injective,
}
use kanbrick_v.Common.Action.{◌>>=◌, pure, fail_if, or_raise}
use kanbrick_v.Core.Clearance.{ClearanceLevel, ge}
use kanbrick_v.Core.Context.{FirmContext}
use kanbrick_v.Core.Error.{Error, invalid_input, access_denied, not_found}
use kanbrick_v.Management.{ManagerOf}
use kanbrick_v.Scope.Project.{VisibilityScope}
use kanbrick_v.Grants.{Chrono, is_expired}
use kanbrick_v.Grants.Store.{ScopeNode, Store, GrantState, scope_from_row}
use kanbrick_v.Grants.Methods.{
  GrantAction, querying, executing, invalidating, audit, request_scope, request, decidable_request,
  approve, deny,
}
use kanbrick_v.Grants.Scopes.{
  scope, revoke_scope, sweep, expire_due, define_skill, skills_for_scope, authorize_skill,
  is_usable,
}
use kanbrick_v.Grants.Sound.{request_state, decidable_state}
use kanbrick_v.Grants.Revoked.{
  IsScopeView, has_id, revoked_node, granted_node, decided_node, is_request,
}
use kanbrick_v.Grants.Closed.{
  is_closed, Closed, Closed-append, Closed-update, revoked_closed, expired_closed, expired_node,
}

module _ {D : Type 0} {I : Type 0} (store : Store D) (c : Chrono I) (view : D → List ScopeNode)
    (laws : IsScopeView store view) (id : Text) where
  -- An action, whatever comes of it, leaves the scope without an active node.
  pub record Keeps {A : Type 0} (m : GrantAction store c A) : Type 0 where
    pub keeps : (g : GrantState D) → Closed id (view g.db) → Closed id (view (m g).1.db)

  then-Keeps :
      {A B : Type 0} {m : GrantAction store c A} {f : A → GrantAction store c B}
      → Keeps m
      → ((a : A) → Keeps (f a))
      → Keeps (m >>= f)
  then-Keeps {A} {B} {m} {f} first next = record { keeps = λ g h. go (m g) (first.keeps g h) }
    where
      go :
          (p : Result Error A × GrantState D)
          → Closed id (view p.1.db)
          → Closed id (
              view
                (elim p.0 as (λ _. Result Error B × GrantState D) [
                  | ok a ↦ f a p.1
                  | err e ↦ (err e, p.1)
                ]).1.db)
      go (ok a, t) k = (next a).keeps t k
      go (err e, t) k = k

  pure-Keeps : {A : Type 0} (a : A) → Keeps (pure a)
  pure-Keeps a = record { keeps = λ g h. h }

  querying-Keeps : {A : Type 0} (f : D → Result Error A) → Keeps (querying store c f)
  querying-Keeps f = record { keeps = λ g h. h }

  invalidating-Keeps : Keeps (invalidating store c)
  invalidating-Keeps = record { keeps = λ g h. h }

  executing-Keeps :
      (f : D → Result Error D)
      → ((d d' : D) → f d ≡ ok d' → Closed id (view d) → Closed id (view d'))
      → Keeps (executing store c f)
  executing-Keeps f each = record { keeps = λ g h. go g (f g.db) refl h }
    where
      go :
          (g : GrantState D) (r : Result Error D)
          → f g.db ≡ r
          → Closed id (view g.db)
          → Closed id (
              view
                (elim r as (λ _. Result Error (Unit {0}) × GrantState D) [
                  | ok d ↦ (ok tt, record g { db = d })
                  | err e ↦ (err e, g)
                ]).1.db)
      go g (ok d) e h = each g.db d e h
      go g (err x) e h = h

  same-Keeps :
      (f : D → Result Error D)
      → ((d d' : D) → f d ≡ ok d' → view d' ≡ view d)
      → Keeps (executing store c f)
  same-Keeps f each = executing-Keeps f (λ d d' e h. subst (Closed id) (sym (each d d' e)) h)

  or_raise-Keeps : {A : Type 0} (o : Option A) (e : Error) → Keeps (or_raise o e)
  or_raise-Keeps none e = record { keeps = λ g h. h }
  or_raise-Keeps (some a) e = record { keeps = λ g h. h }

  fail_if-Keeps : (b : Bool) (e : Error) → Keeps (fail_if b e)
  fail_if-Keeps true e = record { keeps = λ g h. h }
  fail_if-Keeps false e = record { keeps = λ g h. h }

  audit-Keeps :
      (entry_id : Text) (now : I) (ctx : FirmContext) (marker : Text)
      → Keeps (audit store c entry_id now ctx marker)
  unfolding audit
  audit-Keeps entry_id now ctx marker = same-Keeps _ (laws.audits_apart _)

  set_scopes-Keeps :
      (p : ScopeNode → Bool) (f : ScopeNode → ScopeNode)
      → ((n : ScopeNode) → is_closed id (f n) ≡ true)
      → Keeps (executing store c (store.scopes.set_rows p f))
  set_scopes-Keeps p f k = executing-Keeps (store.scopes.set_rows p f) (λ d d' e h.
      subst (Closed id) (sym (laws.updated p f d d' e)) (Closed-update id p f (view d) k h))

  scope-Keeps : (wanted : Text) → Keeps (scope store c wanted)
  unfolding scope
  scope-Keeps wanted = then-Keeps (querying-Keeps _) (λ rows. pure-Keeps _)

  request-Keeps : (wanted : Text) → Keeps (request store c wanted)
  request-Keeps wanted = record {
    keeps = λ g h. subst (λ x. Closed id (view x.db)) (sym (request_state store c wanted g)) h;
  }

  skills-Keeps : (scope_id : Text) → Keeps (skills_for_scope store c scope_id)
  unfolding skills_for_scope
  skills-Keeps scope_id = then-Keeps (querying-Keeps _) (λ rows. pure-Keeps _)

  decidable-Keeps :
      (request_id : Text) (grantor : FirmContext) (graph : ManagerOf)
      → Keeps (decidable_request store c request_id grantor graph)
  decidable-Keeps request_id grantor graph = record {
    keeps = λ g h.
        subst (λ x. Closed id (view x.db))
          (sym (decidable_state store c request_id grantor graph g)) h;
  }

  pub request_scope-Keeps :
      (new_id entry_id : Text) (now : I) (requester : FirmContext) (project : Text)
      (persons companies : List Text) (justification : Text)
      → Keeps (
          request_scope store c new_id entry_id now requester project persons companies
            justification)
  unfolding request_scope
  request_scope-Keeps new_id entry_id now requester project persons companies justification =
      then-Keeps (same-Keeps _ (laws.asked_apart _))
        (λ _. then-Keeps (audit-Keeps entry_id now requester _) (λ _. pure-Keeps _))

  -- A grant under another id.
  pub approve-Keeps :
      (scope_id entry_id : Text) (now : I) (request_id : Text) (grantor : FirmContext)
      (graph : ManagerOf) (ttl_days : Option ℤ)
      → text_beq scope_id id ≡ false
      → Keeps (approve store c scope_id entry_id now request_id grantor graph ttl_days)
  unfolding approve
  approve-Keeps scope_id entry_id now request_id grantor graph ttl_days apart =
      then-Keeps (decidable-Keeps request_id grantor graph) (λ r.
        let node = granted_node store c scope_id now grantor ttl_days r in
        then-Keeps
          (executing-Keeps (store.scopes.merge_row node) (λ d d' e h. new_node node d d' apart e h))
          (λ _.
            then-Keeps
              (same-Keeps _ (
                laws.requests_apart (is_request request_id)
                  (decided_node grantor.email scope_id (c.to_rfc3339 now))))
              (λ _.
                then-Keeps
                  (audit-Keeps entry_id now grantor
                    (codes "scope:granted:" ++ (scope_id ++ (codes ":to:" ++ r.requester))))
                  (λ _. pure-Keeps _))))
    where
      new_node :
          (n : ScopeNode) (d d' : D)
          → text_beq n.id id ≡ false
          → store.scopes.merge_row n d ≡ ok d'
          → Closed id (view d)
          → Closed id (view d')
      new_node n d d' other e h = elim (laws.merged n d d' e) [
        | inl made ↦ subst (Closed id) (sym made) (Closed-append id (view d) n h (rw other refl))
        | inr there ↦ subst (Closed id) (sym there) h
      ]

  pub deny-Keeps :
      (entry_id : Text) (now : I) (request_id : Text) (grantor : FirmContext) (graph : ManagerOf)
      (reason : Text)
      → Keeps (deny store c entry_id now request_id grantor graph reason)
  unfolding deny
  deny-Keeps entry_id now request_id grantor graph reason =
      then-Keeps (decidable-Keeps request_id grantor graph) (λ r.
        then-Keeps (same-Keeps _ (laws.requests_apart _ _))
          (λ _. audit-Keeps entry_id now grantor _))

  pub revoke_scope-Keeps :
      (entry_id : Text) (now : I) (scope_id : Text) (actor : FirmContext) (reason : Text)
      → Keeps (revoke_scope store c entry_id now scope_id actor reason)
  unfolding revoke_scope
  revoke_scope-Keeps entry_id now scope_id actor reason =
      then-Keeps (scope-Keeps scope_id) (λ found. then-Keeps (or_raise-Keeps found _) (λ s.
        then-Keeps (fail_if-Keeps _ _) (λ _.
          then-Keeps
            (set_scopes-Keeps _ _
              (λ n. revoked_closed id (revoked_node actor.email reason (c.to_rfc3339 now) n) refl))
            (λ _. then-Keeps (same-Keeps _ (laws.requests_apart _ _)) (λ _.
              then-Keeps invalidating-Keeps
                (λ _. audit-Keeps entry_id now actor (codes "scope:revoked:" ++ scope_id)))))))

  sweep-Keeps : (now : I) (rows : List ScopeNode) → Keeps (sweep store c now rows)
  unfolding sweep
  sweep-Keeps now [] = pure-Keeps 0
  sweep-Keeps now (row ∷ rows) =
      then-Keeps (executing-Keeps _ (λ d d' e h. one d d' e h))
        (λ _. then-Keeps (sweep-Keeps now rows) (λ n. pure-Keeps _))
    where
      one :
          (d d' : D)
          → (if is_expired c (scope_from_row row).expires_at now
              then store.scopes.set_rows (has_id row.id) (expired_node (c.to_rfc3339 now)) d
              else ok d)
            ≡ ok d'
          → Closed id (view d)
          → Closed id (view d')
      one d d' e h = elim (Bool-cases (is_expired c (scope_from_row row).expires_at now)) [
        | inl due ↦
            subst (Closed id)
              (sym
                (laws.updated (has_id row.id) (expired_node (c.to_rfc3339 now)) d d' (rw due at e)))
              (Closed-update id (has_id row.id) (expired_node (c.to_rfc3339 now)) (view d)
                (λ n. expired_closed id (expired_node (c.to_rfc3339 now) n) refl) h)
        | inr fine ↦ subst (λ x. Closed id (view x)) (ok_injective (rw fine at e)) h
      ]

  pub expire_due-Keeps : (now : I) → Keeps (expire_due store c now)
  unfolding expire_due
  expire_due-Keeps now = then-Keeps (querying-Keeps _) (λ rows.
      then-Keeps (sweep-Keeps now rows)
        (λ expired. then-Keeps (or_nothing (ltb 0 expired)) (λ _. pure-Keeps expired)))
    where
      or_nothing : (b : Bool) → Keeps (if b then invalidating store c else pure tt)
      or_nothing true = invalidating-Keeps
      or_nothing false = pure-Keeps tt

  pub define_skill-Keeps :
      (skill_id scope_id name guest : Text) (level : ClearanceLevel)
      → Keeps (define_skill store c skill_id scope_id name guest level)
  unfolding define_skill
  define_skill-Keeps skill_id scope_id name guest level =
      then-Keeps (scope-Keeps scope_id) (λ found. then-Keeps (or_raise-Keeps found _) (λ s.
        then-Keeps (same-Keeps _ (laws.skills_apart _)) (λ _.
          then-Keeps (same-Keeps _ (laws.links_apart scope_id skill_id)) (λ _. pure-Keeps _))))

  pub authorize_skill-Keeps :
      (entry_id : Text) (caller : FirmContext) (base : VisibilityScope) (scope_id name : Text)
      (now : I)
      → Keeps (authorize_skill store c entry_id caller base scope_id name now)
  unfolding authorize_skill
  authorize_skill-Keeps entry_id caller base scope_id name now =
      then-Keeps (scope-Keeps scope_id) (λ found. then-Keeps (or_raise-Keeps found _) (λ s.
        then-Keeps
          (fail_if-Keeps (not (is_usable store c now s))
            (invalid_input (codes "scope " ++ (scope_id ++ codes " is not active"))))
          (λ _.
            then-Keeps
              (fail_if-Keeps (not (text_beq caller.email s.requester))
                (access_denied caller.clearance caller.clearance))
              (λ _. then-Keeps (skills-Keeps scope_id) (λ bound.
                then-Keeps
                  (or_raise-Keeps (find (λ k. text_beq k.name name) bound)
                    (not_found (codes "skill " ++ (name ++ (codes " on scope " ++ scope_id)))))
                  (λ skill.
                    then-Keeps
                      (fail_if-Keeps (not (ge caller.clearance skill.required_clearance))
                        (access_denied skill.required_clearance caller.clearance))
                      (λ _.
                        then-Keeps
                          (audit-Keeps entry_id now caller
                            (codes "skill:authorized:" ++ (name ++ (codes ":" ++ scope_id))))
                          (λ _. pure-Keeps _))))))))
