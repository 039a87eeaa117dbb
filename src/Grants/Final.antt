-- ===== src/Grants/Final.antt =====
-- kanbrick-discovery/src/grants.rs: a revocation is final.
use kanbrick_v.Common.{
  ℤ, ◌≡◌, sym, subst, arith, Text, List, [], false, Option, ok, err, text_beq, Result-cases, inl,
  inr,
}
use kanbrick_v.Core.Clearance.{ClearanceLevel}
use kanbrick_v.Core.Context.{FirmContext}
use kanbrick_v.Core.Error.{Error}
use kanbrick_v.Management.{ManagerOf}
use kanbrick_v.Scope.Project.{VisibilityScope}
use kanbrick_v.Grants.{Chrono}
use kanbrick_v.Grants.Store.{ScopeNode, Store, GrantState}
use kanbrick_v.Grants.Methods.{request_scope, approve, deny}
use kanbrick_v.Grants.Scopes.{revoke_scope, expire_due, define_skill, authorize_skill}
use kanbrick_v.Grants.Sound.{authorize_skill_sound}
use kanbrick_v.Grants.Revoked.{IsScopeView, scope_of_view, revoke_view}
use kanbrick_v.Grants.Closed.{Closed, head-Closed, Closed-revoked}
use kanbrick_v.Grants.Kept.{
  request_scope-Keeps, approve-Keeps, deny-Keeps, revoke_scope-Keeps, expire_due-Keeps,
  define_skill-Keeps, authorize_skill-Keeps,
}

-- What may happen to the grants later: any method with any arguments and any outcome, an approval
-- under another id than this one, and anything else that leaves the nodes of granted scopes alone.
pub data Change {D I : Type 0} (store : Store D) (c : Chrono I) (view : D → List ScopeNode)
    (id : Text) (g : GrantState D) : GrantState D → Type 0 where
  requesting :
      (new_id entry_id : Text) (now : I) (requester : FirmContext) (project : Text)
      (persons companies : List Text) (justification : Text)
      → Change store c view id g
          (request_scope store c new_id entry_id now requester project persons companies
            justification g).1
  approving :
      (scope_id entry_id : Text) (now : I) (request_id : Text) (grantor : FirmContext)
      (graph : ManagerOf) (ttl_days : Option ℤ)
      → text_beq scope_id id ≡ false
      → Change store c view id g
          (approve store c scope_id entry_id now request_id grantor graph ttl_days g).1
  denying :
      (entry_id : Text) (now : I) (request_id : Text) (grantor : FirmContext) (graph : ManagerOf)
      (reason : Text)
      → Change store c view id g (deny store c entry_id now request_id grantor graph reason g).1
  revoking :
      (entry_id : Text) (now : I) (scope_id : Text) (actor : FirmContext) (reason : Text)
      → Change store c view id g (revoke_scope store c entry_id now scope_id actor reason g).1
  expiring : (now : I) → Change store c view id g (expire_due store c now g).1
  defining :
      (skill_id scope_id name guest : Text) (level : ClearanceLevel)
      → Change store c view id g (define_skill store c skill_id scope_id name guest level g).1
  authorizing :
      (entry_id : Text) (caller : FirmContext) (base : VisibilityScope) (scope_id name : Text)
      (now : I)
      → Change store c view id g
          (authorize_skill store c entry_id caller base scope_id name now g).1
  elsewhere : (g' : GrantState D) → view g'.db ≡ view g.db → Change store c view id g g'

pub data Later {D I : Type 0} (store : Store D) (c : Chrono I) (view : D → List ScopeNode)
    (id : Text) (g : GrantState D) : GrantState D → Type 0 where
  at_once : Later store c view id g g
  after :
      {h k : GrantState D}
      → Later store c view id g h
      → Change store c view id h k
      → Later store c view id g k

module _ {D : Type 0} {I : Type 0} (store : Store D) (c : Chrono I) (view : D → List ScopeNode)
    (laws : IsScopeView store view) (id : Text) where
  Change-Closed :
      {g g' : GrantState D}
      → Change store c view id g g'
      → Closed id (view g.db)
      → Closed id (view g'.db)
  Change-Closed {g} (requesting a b now ctx d e f j) h =
      (request_scope-Keeps store c view laws id a b now ctx d e f j).keeps g h
  Change-Closed {g} (approving a b now d ctx graph ttl apart) h =
      (approve-Keeps store c view laws id a b now d ctx graph ttl apart).keeps g h
  Change-Closed {g} (denying a now d ctx graph reason) h =
      (deny-Keeps store c view laws id a now d ctx graph reason).keeps g h
  Change-Closed {g} (revoking a now d ctx reason) h =
      (revoke_scope-Keeps store c view laws id a now d ctx reason).keeps g h
  Change-Closed {g} (expiring now) h = (expire_due-Keeps store c view laws id now).keeps g h
  Change-Closed {g} (defining a b d e level) h =
      (define_skill-Keeps store c view laws id a b d e level).keeps g h
  Change-Closed {g} (authorizing a ctx base b name now) h =
      (authorize_skill-Keeps store c view laws id a ctx base b name now).keeps g h
  Change-Closed (elsewhere g' same) h = subst (Closed id) (sym same) h

  Later-Closed :
      {g g' : GrantState D}
      → Later store c view id g g'
      → Closed id (view g.db)
      → Closed id (view g'.db)
  Later-Closed at_once h = h
  Later-Closed (after l s) h = Change-Closed s (Later-Closed l h)

  authorize_skill-error :
      (entry_id : Text) (caller : FirmContext) (base : VisibilityScope) (name : Text) (now : I)
      (g : GrantState D)
      → Closed id (view g.db)
      → (e : Error) × ((authorize_skill store c entry_id caller base id name now g).0 ≡ err e)
  authorize_skill-error entry_id caller base name now g h =
      elim (Result-cases (authorize_skill store c entry_id caller base id name now g).0) [
        | inl ((skill, composed), e) ↦
            let (s, _, found, _, _, usable, _, _, _, _, _) =
              authorize_skill_sound store c entry_id caller base id name now g skill composed []
                e in
            let dead =
              head-Closed id (view g.db) s h (scope_of_view store c view laws id g s found) in
            absurd (ground arith)
        | inr (e, q) ↦ (e, q)
      ]

-- Once a scope is revoked, no one is authorized under it, whatever the skill, the caller and the
-- time, and whatever happened since: on a database whose commands mean what they document, after
-- any sequence of requests, approvals of other scopes, denials, revocations, expiries, definitions
-- and authorizations of skills, failed ones included, every such call is an error.
pub revoked_for_good :
    {D : Type 0} {I : Type 0} (store : Store D) (c : Chrono I) (view : D → List ScopeNode)
    (entry_id : Text) (now : I) (id : Text) (actor : FirmContext) (reason : Text)
    (g g' : GrantState D) (later_id : Text) (caller : FirmContext) (base : VisibilityScope)
    (name : Text) (later : I)
    → IsScopeView store view
    → (revoke_scope store c entry_id now id actor reason g).0 ≡ ok tt
    → Later store c view id (revoke_scope store c entry_id now id actor reason g).1 g'
    → (e : Error) × ((authorize_skill store c later_id caller base id name later g').0 ≡ err e)
revoked_for_good store c view entry_id now id actor reason g g' later_id caller base name later laws
      h since =
    authorize_skill-error store c view laws id later_id caller base name later g' (
      Later-Closed store c view laws id since (
        subst (Closed id) (sym (revoke_view store c view laws entry_id now id actor reason g h))
          (Closed-revoked id actor.email reason (c.to_rfc3339 now) (view g.db))))
