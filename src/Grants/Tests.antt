-- ===== src/Grants/Tests.antt =====
-- The grants on the sample database.
use kanbrick_v.Common.{
  ℕ, ℤ, suc, ◌+◌, ◌≡◌, ◌⊎◌, ◌↔◌, refl, arith, Text, codes, List, [], ◌∷◌, ◌++◌, find, head?, inl,
  Bool, true, false, ◌||◌, ◌&&◌, Option, none, some, Result, ok, err, retain, map, text_beq,
  contains, text_eq, ltb,
}
use kanbrick_v.Core.Clearance.{l2, l3, l4, l5, ge}
use kanbrick_v.Core.Error.{Error}
use kanbrick_v.Management.{ManagerOf}
use kanbrick_v.Management.Chain.{Above}
use kanbrick_v.Scope.Project.{project_visibility}
use kanbrick_v.Grants.{
  ScopeRequest, GrantedScope, Chrono, requested, active, is_requested, eligible_grantor,
}
use kanbrick_v.LoopRuns.Step.{Skill}
use kanbrick_v.Grants.Ids.{join_ids, split_ids}
use kanbrick_v.Grants.Store.{
  RequestNode, ScopeNode, SkillNode, AuditEntry, Nodes, Store, GrantState, scope_from_row,
}
use kanbrick_v.Grants.Methods.{request, approve, deny, expiry_of}
use kanbrick_v.Grants.Scopes.{
  scope, skills_for_scope, revoke_scope, expire_due, authorize_skill, is_usable,
}
use kanbrick_v.Grants.Eligible.{eligible_grantor_iff}
use kanbrick_v.Grants.Sound.{authorize_skill_sound}
use kanbrick_v.Grants.Approved.{IsRequestView, approve_recorded}
use kanbrick_v.Grants.Final.{at_once, after, approving, expiring, revoked_for_good}
use kanbrick_v.Grants.Revoked.{IsScopeView, update, has_id, granted_node, decided_node, is_request}
use kanbrick_v.Grants.Samples.{
  Db, list_store, clock, ann, bob, graph, state, scope_of, view, modeling_skill, composed,
}

one_empty_id_lost : split_ids (join_ids ([] ∷ [])) ≡ []
unfolding split_ids join_ids
one_empty_id_lost = refl

eligible_grantor_iff_example :
    (eligible_grantor graph (codes "ann") bob ≡ true)
    ↔ ((ge l4 l5 ≡ true) ⊎ ((ge l4 l4 ≡ true) × Above graph (codes "ann") (codes "bob")))
eligible_grantor_iff_example = eligible_grantor_iff graph (codes "ann") bob

authorize_skill_sound_example :
    (s : GrantedScope) × (bound : List Skill) × ((scope list_store clock (codes "s") state).0
      ≡ ok (some s))
    × ((skills_for_scope list_store clock (codes "s") state).0 ≡ ok bound)
    × (find (λ k. text_beq k.name (codes "modeling")) bound ≡ some modeling_skill)
    × (is_usable list_store clock 5 s ≡ true)
    × (text_beq (codes "ann") s.requester ≡ true)
    × (ge l3 l2 ≡ true)
    × (text_beq (codes "modeling") (codes "modeling") ≡ true)
    × ((project_visibility composed).can_see_person (codes "cy")
        ≡ (view.can_see_person (codes "cy") || contains s.granted_persons (codes "cy")))
    × ((project_visibility composed).can_see_company (codes "cy")
        ≡ (view.can_see_company (codes "cy") || contains s.granted_companies (codes "cy")))
unfolding authorize_skill scope text_beq kanbrick_v.Grants.Store.scope_from_row
    kanbrick_v.Grants.parse_scope_status kanbrick_v.Grants.is_expired kanbrick_v.Common.is_empty
    kanbrick_v.Grants.Scopes.skills_for_scope kanbrick_v.Grants.Store.skill_from_row ge
    kanbrick_v.Grants.parse_clearance kanbrick_v.Grants.Methods.audit split_ids
authorize_skill_sound_example =
    authorize_skill_sound list_store clock (codes "e") ann view (codes "s") (codes "modeling") 5
      state modeling_skill composed (codes "cy") refl

list_laws : IsScopeView list_store (λ d. d.scope_nodes)
list_laws = record {
  matched = λ p d rows h. ground arith;
  updated = λ p f d d' h. ground arith;
  requests_apart = λ p f d d' h. ground arith;
  merged = λ n d d' h. inl (ground arith);
  created = λ n d d' h fresh. ground arith;
  asked_apart = λ n d d' h. ground arith;
  skills_apart = λ n d d' h. ground arith;
  links_apart = λ s i d d' h. ground arith;
  audits_apart = λ e d d' h. ground arith;
}

list_request_laws : IsRequestView list_store (λ d. d.request_nodes)
list_request_laws = record {
  updated = λ p f d d' h. ground arith;
  scopes_apart = λ n d d' h. ground arith;
  audits_apart = λ e d d' h. ground arith;
}

abbrev granting : GrantState Db
granting = (approve list_store clock (codes "t") (codes "e") 5 (codes "r") bob graph none state).1

approve_recorded_example :
    (r : ScopeRequest) × ((request list_store clock (codes "r") state).0 ≡ ok (some r))
    × (is_requested r.status ≡ true)
    × (eligible_grantor graph r.requester bob ≡ true)
    × (scope_of (codes "t") none ≡ record {
      id = codes "t";
      project = r.project;
      requester = r.requester;
      granted_by = codes "bob";
      granted_persons = r.persons;
      granted_companies = r.companies;
      expires_at = expiry_of list_store clock 5 none;
      status = active;
    })
    × (granting.db.scope_nodes
        ≡ state.db.scope_nodes ++ granted_node list_store clock (codes "t") 5 bob none r ∷ [])
    × (head? (map scope_from_row (retain (has_id (codes "t")) granting.db.scope_nodes))
        ≡ some (scope_from_row (granted_node list_store clock (codes "t") 5 bob none r)))
    × (granting.db.request_nodes
        ≡ update
            (is_request (codes "r"))
            (decided_node (codes "bob") (codes "t") (clock.to_rfc3339 5))
            state.db.request_nodes)
unfolding approve kanbrick_v.Grants.Methods.decidable_request request text_beq
    kanbrick_v.Grants.Store.request_from_row kanbrick_v.Grants.parse_request_status eligible_grantor
    ge kanbrick_v.Management.ancestors kanbrick_v.Common.lookup contains
    kanbrick_v.Grants.Methods.audit split_ids
approve_recorded_example =
    approve_recorded list_store clock (λ d. d.scope_nodes) (λ d. d.request_nodes) (codes "t")
      (codes "e") 5 (codes "r") bob graph none state (scope_of (codes "t") none) list_laws
      list_request_laws refl refl

abbrev after_revoke : GrantState Db
after_revoke = (revoke_scope list_store clock (codes "e") 5 (codes "s") bob [] state).1

-- The request is granted once more, under another id, and what is due is expired.
abbrev much_later : GrantState Db
much_later =
    (expire_due list_store clock 7
      (approve list_store clock (codes "t") (codes "h") 6 (codes "r") bob graph none
        after_revoke).1).1

revoked_for_good_example :
    (e : Error) × ((authorize_skill list_store clock
        (codes "f")
        ann
        view
        (codes "s")
        (codes "modeling")
        8
        much_later).0
      ≡ err e)
unfolding revoke_scope scope text_beq kanbrick_v.Grants.Store.scope_from_row
    kanbrick_v.Grants.Methods.audit
revoked_for_good_example =
    revoked_for_good list_store clock (λ d. d.scope_nodes) (codes "e") 5 (codes "s") bob [] state
      much_later (codes "f") ann view (codes "modeling") 8 list_laws refl
      (after (after at_once (approving (codes "t") (codes "h") 6 (codes "r") bob graph none refl))
        (expiring 7))
