-- ===== src/Scope/Clearance.antt =====
-- kanbrick-auth/src/scope.rs, `ClearanceScope`: resolved from the graph, then asked about persons
-- and companies.
use kanbrick_v.Common.{
  Text, List, [], ◌∷◌, Bool, true, false, ◌||◌, ◌&&◌, ◌≡◌, arith, contains, text_eq, text_beq,
  Result, ok, err, ◌>>=◌, if◌then◌else◌, retain,
}
use kanbrick_v.Core.Clearance.{ClearanceLevel, l3, l4, ge}
use kanbrick_v.Core.Context.{FirmContext}
use kanbrick_v.Core.Error.{Error}

pub record ClearanceScope : Type 0 where
  pub clearance : ClearanceLevel
  pub self_email : Text
  pub sees_all : Bool
  pub visible_company_ids : List Text
  pub visible_person_emails : List Text

-- The two queries that `resolve` makes: the codes of the companies that a person manages, and the
-- emails of those who report to a person, directly or through up to ten steps.
pub record GraphReads : Type 0 where
  pub managed_companies : Text → Result Error (List Text)
  pub reports_of : Text → Result Error (List Text)

-- The second query, which only L3 and above make.
unfoldable pub read_reports : GraphReads → FirmContext → Result Error (List Text)
unfolding ge
read_reports g ctx = if ge ctx.clearance l3 then g.reports_of ctx.email else ok []

-- The scope of an L4 or L5, who sees all.
abbrev pub admin_scope : FirmContext → ClearanceScope
admin_scope ctx = record {
  clearance = ctx.clearance;
  self_email = ctx.email;
  sees_all = true;
  visible_company_ids = [];
  visible_person_emails = ctx.email ∷ [];
}

unfoldable pub resolve : GraphReads → FirmContext → Result Error ClearanceScope
unfolding read_reports ge
resolve g ctx =
    let narrow : Result Error ClearanceScope = do
      companies ← g.managed_companies ctx.email
      reports ← read_reports g ctx
      ok (record {
        clearance = ctx.clearance;
        self_email = ctx.email;
        sees_all = false;
        visible_company_ids = companies;
        visible_person_emails = ctx.email ∷ reports;
      })
    in if ge ctx.clearance l4 then ok (admin_scope ctx) else narrow

unfoldable pub can_see_person : ClearanceScope → Text → Bool
can_see_person s email = s.sees_all || contains s.visible_person_emails email

unfoldable pub can_see_company : ClearanceScope → Text → Bool
can_see_company s company_id = s.sees_all || contains s.visible_company_ids company_id

unfoldable pub can_view_sensitive_of : ClearanceScope → ClearanceLevel → Bool
can_view_sensitive_of s target = s.sees_all || ge s.clearance target

-- `retain_persons` and `retain_companies`, over any node type with its key.
unfoldable pub retain_persons {ℓ} : {P : Type ℓ} → (P → Text) → ClearanceScope → List P → List P
retain_persons email s persons =
    if s.sees_all then persons else retain (λ p. can_see_person s (email p)) persons

unfoldable pub retain_companies {ℓ} : {C : Type ℓ} → (C → Text) → ClearanceScope → List C → List C
retain_companies company_id s companies =
    if s.sees_all then companies else retain (λ c. can_see_company s (company_id c)) companies

-- A resolved scope shows a person exactly to those with L4 or L5, to the person, and to an L3 to
-- whom the person reports; an L1 or L2 sees no other person.
pub resolve-can_see_person :
    (g : GraphReads) (ctx : FirmContext) (s : ClearanceScope) (reports : List Text) (email : Text)
    → resolve g ctx ≡ ok s
    → g.reports_of ctx.email ≡ ok reports
    → can_see_person s email ≡ (
        ge ctx.clearance l4
        || text_beq ctx.email email
        || (ge ctx.clearance l3 && contains reports email))
unfolding resolve can_see_person contains
resolve-can_see_person g ctx s reports email h r = ground arith

-- A resolved scope shows a company exactly to those with L4 or L5 and to whom the graph says that
-- they manage it.
pub resolve-can_see_company :
    (g : GraphReads) (ctx : FirmContext) (s : ClearanceScope) (managed : List Text) (company : Text)
    → resolve g ctx ≡ ok s
    → g.managed_companies ctx.email ≡ ok managed
    → can_see_company s company ≡ (ge ctx.clearance l4 || contains managed company)
unfolding resolve can_see_company contains
resolve-can_see_company g ctx s managed company h r = ground arith

-- An L4 or L5 caller's scope sees all and needs no query: it resolves whatever the graph answers.
pub resolve_at_l4 :
    (g : GraphReads) (ctx : FirmContext)
    → ge ctx.clearance l4 ≡ true
    → resolve g ctx ≡ ok (admin_scope ctx)
unfolding resolve
resolve_at_l4 g ctx h = ground arith

-- Below L4 a failed query is an error of the whole: no scope is resolved on half an answer.
pub resolve_fails :
    (g : GraphReads) (ctx : FirmContext) (e : Error)
    → ge ctx.clearance l4 ≡ false
    → g.managed_companies ctx.email ≡ err e
    → resolve g ctx ≡ err e
unfolding resolve
resolve_fails g ctx e h q = ground arith
