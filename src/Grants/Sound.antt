-- ===== src/Grants/Sound.antt =====
-- What a grant or an authorization that was given rests on, whatever the database answers.
use kanbrick_v.Common.{
  ℤ, ◌≡◌, ◌∙◌, ap, List, arith, Text, ◌++◌, true, false, ◌||◌, ◌&&◌, Option, none, some, ok, err,
  find, contains, text_eq, text_beq, find_sound, Bool-cases, subst, codes, Option-cases,
  Result-cases, inl, inr,
}
use kanbrick_v.Core.Clearance.{ge}
use kanbrick_v.Core.Context.{FirmContext}
use kanbrick_v.Core.Error.{Error, access_denied, invalid_input}
use kanbrick_v.Management.{ManagerOf}
use kanbrick_v.LoopRuns.Step.{Skill}
use kanbrick_v.Scope.Project.{
  VisibilityScope, ProjectScope, new_project, project_visibility, grant_persons, grant_companies,
  grants_additive,
}
use kanbrick_v.Grants.{
  request_status_debug, min_grantor_clearance, ScopeRequest, GrantedScope, Chrono, is_requested,
  active, eligible_grantor,
}
use kanbrick_v.Grants.Store.{Store, GrantState}
use kanbrick_v.Grants.Methods.{request, decidable_request, approve, audit, expiry_of}
use kanbrick_v.Grants.Scopes.{scope, skills_for_scope, authorize_skill, is_usable, with_grant}

module _ {D : Type 0} {I : Type 0} (store : Store D) (c : Chrono I) where
  pub request_state : (id : Text) (g : GrantState D) → (request store c id g).1 ≡ g
  unfolding request
  request_state id g = ground arith

  pub scope_state : (id : Text) (g : GrantState D) → (scope store c id g).1 ≡ g
  unfolding scope
  scope_state id g = ground arith

  pub decidable_state :
      (request_id : Text) (grantor : FirmContext) (graph : ManagerOf) (g : GrantState D)
      → (decidable_request store c request_id grantor graph g).1 ≡ g
  unfolding decidable_request
  decidable_state request_id grantor graph g = ground (arith, request_state request_id g)

  pub decidable_request_ok :
      (id : Text) (grantor : FirmContext) (graph : ManagerOf) (g : GrantState D) (r : ScopeRequest)
      → (decidable_request store c id grantor graph g).0 ≡ ok r
      → ((request store c id g).0 ≡ ok (some r))
        × (is_requested r.status ≡ true)
        × (eligible_grantor graph r.requester grantor ≡ true)
  unfolding decidable_request
  decidable_request_ok id grantor graph g r h = ground arith

module _ {D : Type 0} {I : Type 0} (store : Store D) (c : Chrono I) where
  decidable_request_err :
      (id : Text) (grantor : FirmContext) (graph : ManagerOf) (g : GrantState D) (r : ScopeRequest)
      → (request store c id g).0 ≡ ok (some r)
      → (is_requested r.status && eligible_grantor graph r.requester grantor) ≡ false
      → (e : Error) × (decidable_request store c id grantor graph g ≡ (err e, g))
  unfolding decidable_request
  decidable_request_err id grantor graph g r h n =
      let same = request_state store c id g in
      elim (Bool-cases (is_requested r.status)) [
        | inl p ↦ (access_denied min_grantor_clearance grantor.clearance, ground arith)
        | inr p ↦ (
          invalid_input (
              codes "request "
              ++ (id
                  ++ (codes " is " ++ (request_status_debug r.status ++ codes ", not pending")))),
          ground arith,
        )
      ]

-- An approval that succeeds decided a request that was on record and pending, by a grantor who may
-- decide it; and the scope it answers is that request's, person for person and company for company,
-- to its requester and on its project, active, and with the expiry that was asked for.
pub decided :
    {D : Type 0} {I : Type 0} (store : Store D) (c : Chrono I) (scope_id entry_id : Text) (now : I)
    (request_id : Text) (grantor : FirmContext) (graph : ManagerOf) (ttl_days : Option ℤ)
    (g : GrantState D) (given : GrantedScope)
    → (approve store c scope_id entry_id now request_id grantor graph ttl_days g).0 ≡ ok given
    → (r : ScopeRequest) × ((decidable_request store c request_id grantor graph g).0 ≡ ok r)
      × ((request store c request_id g).0 ≡ ok (some r))
      × (is_requested r.status ≡ true)
      × (eligible_grantor graph r.requester grantor ≡ true)
      × (given ≡ record {
        id = scope_id;
        project = r.project;
        requester = r.requester;
        granted_by = grantor.email;
        granted_persons = r.persons;
        granted_companies = r.companies;
        expires_at = expiry_of store c now ttl_days;
        status = active;
      })
unfolding approve audit
decided store c scope_id entry_id now request_id grantor graph ttl_days g given h =
    elim (Result-cases (decidable_request store c request_id grantor graph g).0) [
      | inl (r, e) ↦
          let (a, b, d) = decidable_request_ok store c request_id grantor graph g r e in
          (r, e, a, b, d, ground arith)
      | inr (x, e) ↦ absurd (ground arith)
    ]

sees_granted :
    (base : VisibilityScope) (s : GrantedScope) (x : Text)
    → let p =
        grant_companies s.granted_companies
          (grant_persons s.granted_persons (new_project base s.project)) in
      ((project_visibility p).can_see_person x
        ≡ (base.can_see_person x || contains s.granted_persons x))
      × ((project_visibility p).can_see_company x
          ≡ (base.can_see_company x || contains s.granted_companies x))
unfolding new_project project_visibility contains
sees_granted base s x =
    let (p, q, _) =
      grants_additive (new_project base s.project) s.granted_persons s.granted_companies x in
    (ground arith, ground arith)

-- An authorization that succeeds rests on a scope on record that is active and unexpired, whose
-- grantee is the caller, and on the first skill of that name among the skills that are bound to this
-- scope, whose clearance the caller has.
-- What the skill runs under shows just what the base shows and what the scope grants.
pub authorize_skill_sound :
    {D : Type 0} {I : Type 0} (store : Store D) (c : Chrono I) (entry_id : Text)
    (caller : FirmContext) (base : VisibilityScope) (scope_id name : Text) (now : I)
    (g : GrantState D) (skill : Skill) (composed : ProjectScope) (x : Text)
    → (authorize_skill store c entry_id caller base scope_id name now g).0 ≡ ok (skill, composed)
    → (s : GrantedScope) × (bound : List Skill) × ((scope store c scope_id g).0 ≡ ok (some s))
      × ((skills_for_scope store c scope_id g).0 ≡ ok bound)
      × (find (λ k. text_beq k.name name) bound ≡ some skill)
      × (is_usable store c now s ≡ true)
      × (text_beq caller.email s.requester ≡ true)
      × (ge caller.clearance skill.required_clearance ≡ true)
      × (text_beq skill.name name ≡ true)
      × ((project_visibility composed).can_see_person x
          ≡ (base.can_see_person x || contains s.granted_persons x))
      × ((project_visibility composed).can_see_company x
          ≡ (base.can_see_company x || contains s.granted_companies x))
unfolding authorize_skill
authorize_skill_sound store c entry_id caller base scope_id name now g skill composed x h =
    elim (Result-cases (scope store c scope_id g).0) [
      | inl (none, e) ↦ absurd (ground arith)
      | inl (some s, e) ↦
          let t = (scope store c scope_id g).1 in
          elim (Result-cases (skills_for_scope store c scope_id t).0) [
            | inl (bound, k) ↦ elim (Option-cases (find (λ b. text_beq b.name name) bound)) [
              | inl unbound ↦ absurd (ground arith)
              | inr (b, f) ↦
                  let same : b ≡ skill = ground arith in
                  let whole : with_grant store c (new_project base s.project) s ≡ composed =
                    ground arith in
                  (
                    s,
                    bound,
                    e,
                    subst (λ u. (skills_for_scope store c scope_id u).0 ≡ ok bound)
                        (scope_state store c scope_id g) k,
                    f ∙ ap some same,
                    ground arith,
                    ground arith,
                    ground arith,
                    subst (λ q. text_beq q.name name ≡ true) same
                        (find_sound (λ b. text_beq b.name name) bound b f),
                    subst
                        (λ q.
                          (project_visibility q).can_see_person x
                          ≡ (base.can_see_person x || contains s.granted_persons x))
                        whole (sees_granted base s x).0,
                    subst
                        (λ q.
                          (project_visibility q).can_see_company x
                          ≡ (base.can_see_company x || contains s.granted_companies x))
                        whole (sees_granted base s x).1,
                  )
            ]
            | inr (y, k) ↦ absurd (ground arith)
          ]
      | inr (y, e) ↦ absurd (ground arith)
    ]
