-- ===== src/Skills/Gate.antt =====
-- kanbrick-api/src/skills.rs: what a publication, a binding or a review that succeeds rests on.
use kanbrick_v.Common.{
  ◌≡◌, arith, ◌⊎◌, Text, text_beq, true, false, Option, none, some, Result, ok, Result-cases,
  Option-cases, inl, inr,
}
use kanbrick_v.Core.Clearance.{ClearanceLevel, l3, l4, l5, ge}
use kanbrick_v.Core.Context.{FirmContext}
use kanbrick_v.Management.{ManagerOf}
use kanbrick_v.LoopRuns.Step.{Skill}
use kanbrick_v.Grants.{GrantedScope, Chrono, eligible_grantor}
use kanbrick_v.Grants.Store.{Store, GrantState}
use kanbrick_v.Grants.Scopes.{scope, define_skill}
use kanbrick_v.Grants.Sound.{scope_state}
use kanbrick_v.Skills.{SkillVersionRecord, SkillDb, skill_owner, get_skill_version}
use kanbrick_v.SkillFile.{SkillManifest}
use kanbrick_v.Skills.Routes.{
  publish_skill, bind_skill, bind_edition, review_skill, edition_of, is_approved, decision_status,
  owned_by_other,
}

module _ {D : Type 0} {I : Type 0} (store : Store D) (db : SkillDb D) (c : Chrono I) where
  define_skill_ok :
      (id scope_id name guest : Text) (level : ClearanceLevel) (g : GrantState D) (skill : Skill)
      → (define_skill store c id scope_id name guest level g).0 ≡ ok skill
      → (skill.guest ≡ guest) × (skill.required_clearance ≡ level)
  unfolding define_skill
  define_skill_ok id scope_id name guest level g skill h = ground arith

  bind_edition_ok :
      (skill_id entry_id : Text) (now : I) (ctx : FirmContext) (scope_id : Text)
      (edition : SkillVersionRecord) (g : GrantState D) (skill : Skill)
      → (bind_edition store db c skill_id entry_id now ctx scope_id edition g).0 ≡ ok skill
      → ((is_approved edition.review_status ≡ true)
          ⊎ ((text_beq edition.source ctx.email ≡ true) ⊎ (ge ctx.clearance l5 ≡ true)))
        × (skill.guest ≡ edition.guest)
        × (skill.required_clearance ≡ edition.min_clearance)
  unfolding bind_edition
  bind_edition_ok skill_id entry_id now ctx scope_id edition g skill h =
      elim (Result-cases
        (define_skill store c skill_id scope_id edition.skill_name edition.guest
          edition.min_clearance g).0) [
            | inl (k, q) ↦
                let (x, y) =
                  define_skill_ok skill_id scope_id edition.skill_name edition.guest
                    edition.min_clearance g k q in
                (ground arith, ground arith, ground arith)
            | inr (x, q) ↦ absurd (ground arith)
          ]

  -- A binding that succeeds is of the edition that was named, onto a scope on record. The caller is
  -- the scope's grantee or cleared to L5, and the edition is approved, or the caller wrote it or is
  -- cleared to L5. The bound skill runs the edition's guest from the edition's clearance on.
  pub bind_skill_sound :
      (skill_id entry_id : Text) (now : I) (ctx : FirmContext) (scope_id name : Text)
      (version : Option Text) (g : GrantState D) (skill : Skill)
      → (bind_skill store db c skill_id entry_id now ctx scope_id name version g).0 ≡ ok skill
      → (s : GrantedScope) × (edition : SkillVersionRecord) × ((scope store c scope_id g).0
          ≡ ok (some s))
        × ((text_beq s.requester ctx.email ≡ true) ⊎ (ge ctx.clearance l5 ≡ true))
        × ((edition_of store db c name version g).0 ≡ ok (some edition))
        × ((is_approved edition.review_status ≡ true)
            ⊎ ((text_beq edition.source ctx.email ≡ true) ⊎ (ge ctx.clearance l5 ≡ true)))
        × (skill.guest ≡ edition.guest)
        × (skill.required_clearance ≡ edition.min_clearance)
  unfolding bind_skill
  bind_skill_sound skill_id entry_id now ctx scope_id name version g skill h =
      let same = scope_state store c scope_id g in
      elim (Result-cases (scope store c scope_id g).0) [
        | inl (none, e) ↦ absurd (ground arith)
        | inl (some s, e) ↦ elim (Result-cases (edition_of store db c name version g).0) [
          | inl (none, f) ↦ absurd (ground arith)
          | inl (some edition, f) ↦
              let (allowed, guest, level) =
                bind_edition_ok skill_id entry_id now ctx scope_id edition
                  (edition_of store db c name version g).1 skill (ground arith) in
              (s, edition, e, ground arith, f, allowed, guest, level)
          | inr (x, f) ↦ absurd (ground arith)
        ]
        | inr (x, e) ↦ absurd (ground arith)
      ]

  -- A review that succeeds is of an edition on record that someone else wrote, by a lead who is
  -- cleared to L4 and may decide for its author, and its decision is one of the two that there are.
  pub review_skill_sound :
      (graph : ManagerOf) (entry_id : Text) (now : I) (ctx : FirmContext)
      (name version decision reason : Text) (g : GrantState D) (updated : SkillVersionRecord)
      → (review_skill store db c graph entry_id now ctx name version decision reason g).0
        ≡ ok updated
      → (status : Text) × (edition : SkillVersionRecord) × (decision_status decision ≡ some status)
        × ((get_skill_version db name version g.db).0 ≡ ok (some edition))
        × (ge ctx.clearance l4 ≡ true)
        × (text_beq edition.source ctx.email ≡ false)
        × (eligible_grantor graph edition.source ctx ≡ true)
  unfolding review_skill
  review_skill_sound graph entry_id now ctx name version decision reason g updated h =
      elim (Option-cases (decision_status decision)) [
        | inl e ↦ absurd (ground arith)
        | inr (status, e) ↦ elim (Result-cases (get_skill_version db name version g.db).0) [
          | inl (none, f) ↦ absurd (ground arith)
          | inl (some edition, f) ↦
              (status, edition, e, f, ground arith, ground arith, ground arith)
          | inr (x, f) ↦ absurd (ground arith)
        ]
      ]

  -- A publication that succeeds is by a caller cleared to L3, of a name that has no owner yet, or
  -- that the caller owns, or the caller is cleared to L5.
  pub publish_skill_sound :
      (parse : Text → Result Text SkillManifest) (entry_id : Text) (now : I) (ctx : FirmContext)
      (skill_md : Text) (g : GrantState D) (edition : SkillVersionRecord)
      → (publish_skill store db c parse entry_id now ctx skill_md g).0 ≡ ok edition
      → (m : SkillManifest) × (owner : Option Text) × (parse skill_md ≡ ok m)
        × (ge ctx.clearance l3 ≡ true)
        × ((skill_owner db m.name g.db).0 ≡ ok owner)
        × (owned_by_other ctx owner ≡ false)
  unfolding publish_skill
  publish_skill_sound parse entry_id now ctx skill_md g edition h =
      elim (Result-cases (parse skill_md)) [
        | inl (m, e) ↦ elim (Result-cases (skill_owner db m.name g.db).0) [
          | inl (owner, f) ↦ (m, owner, e, ground arith, f, ground arith)
          | inr (x, f) ↦ absurd (ground arith)
        ]
        | inr (x, e) ↦ absurd (ground arith)
      ]
