-- ===== src/Scope/Answers.antt =====
-- kanbrick-discovery/src/scope.rs, the `scoped_…` methods of `DiscoveryEngine`: each takes the full
-- answer of the engine and filters it. The records are those of kanbrick-discovery/src/model.rs.
pub mod Visible
use kanbrick_v.Common.{
  ℕ, Text, List, [], ◌∷◌, Bool, true, false, ◌||◌, ◌&&◌, Option, none, some, Result, ok, err, ◌>>=◌,
  ◌>>◌, all, any, retain, contains, text_eq, map, if◌then◌else◌,
}
use kanbrick_v.Core.Clearance.{ClearanceLevel}
use kanbrick_v.Core.Error.{Error}
use kanbrick_v.Scope.Project.{VisibilityScope}

-- The id of a person is the email.
pub record PersonRef : Type 0 where
  pub id : Text
  pub full_name : Text
  pub role : Text
  pub clearance : ClearanceLevel

pub record CompanyRef : Type 0 where
  pub id : Text
  pub name : Text
  pub segment : Text

pub record ReportingPath : Type 0 where
  pub steps : List PersonRef

pub record SpanMetrics : Type 0 where
  pub person : Text
  pub direct_reports : ℕ
  pub indirect_reports : ℕ
  pub max_depth : ℕ

pub record OrgNeighborhood : Type 0 where
  pub center : Text
  pub depth : ℕ
  pub members : List PersonRef
  pub reporting_edges : List (Text × Text)

pub record Stakeholder : Type 0 where
  pub person : PersonRef
  pub scope : Text

pub record SegmentReport : Type 0 where
  pub code : Text
  pub name : Text
  pub companies : List CompanyRef
  pub persons : List PersonRef
  pub lead : Option PersonRef

pub record CrossSegmentLink : Type 0 where
  pub person : PersonRef
  pub segments : List Text

module _ (scope : VisibilityScope) where
  abbrev pub sees : PersonRef → Bool
  sees p = scope.can_see_person p.id

  abbrev pub whole_path : Option ReportingPath → Option ReportingPath
  whole_path none = none
  whole_path (some path) = if all sees path.steps then some path else none

  -- `scoped_reporting_path`; the argument is what `reporting_path` answers
  unfoldable pub scoped_reporting_path :
      Result Error (Option ReportingPath) → Result Error (Option ReportingPath)
  scoped_reporting_path answer = do path ← answer; ok (whole_path path)

  -- `scoped_span_of_control`; the arguments are the email that the name resolves to, and the metrics
  unfoldable pub scoped_span_of_control :
      Option Text → Result Error SpanMetrics → Result Error (Option SpanMetrics)
  scoped_span_of_control none answer = ok none
  scoped_span_of_control (some email) answer =
      if scope.can_see_person email then (do m ← answer; ok (some m)) else ok none

  abbrev pub visible_ids : OrgNeighborhood → List Text
  visible_ids hood = map (λ m. m.id) (retain sees hood.members)

  abbrev pub narrowed : OrgNeighborhood → OrgNeighborhood
  narrowed hood = record hood {
    members = retain (λ m. contains (visible_ids hood) m.id) hood.members;
    reporting_edges =
        retain (λ e. contains (visible_ids hood) e.0 && contains (visible_ids hood) e.1)
          hood.reporting_edges;
  }

  unfoldable pub scoped_org_neighborhood :
      Option Text → Result Error OrgNeighborhood → Result Error (Option OrgNeighborhood)
  scoped_org_neighborhood none answer = ok none
  scoped_org_neighborhood (some email) answer =
      if scope.can_see_person email then (do hood ← answer; ok (some (narrowed hood))) else ok none

  abbrev pub only_visible : Option PersonRef → Option PersonRef
  only_visible none = none
  only_visible (some p) = if sees p then some p else none

  unfoldable pub scoped_common_manager :
      Option Text → Option Text → Result Error (Option PersonRef) → Result Error (Option PersonRef)
  scoped_common_manager (some a) (some b) answer =
      if scope.can_see_person a && scope.can_see_person b
      then (do manager ← answer; ok (only_visible manager))
      else ok none
  scoped_common_manager _ _ answer = ok none

  unfoldable pub scoped_company_stakeholders :
      Option Text → Result Error (List Stakeholder) → Result Error (List Stakeholder)
  scoped_company_stakeholders none answer = ok []
  scoped_company_stakeholders (some company) answer =
      if scope.can_see_company company
      then (do found ← answer; ok (retain (λ s. sees s.person) found))
      else ok []

  abbrev pub narrowed_report : SegmentReport → SegmentReport
  narrowed_report r = record r {
    companies = retain (λ c. scope.can_see_company c.id) r.companies;
    persons = retain sees r.persons;
    lead = only_visible r.lead;
  }

  unfoldable pub scoped_segment_overview :
      Result Error SegmentReport → Result Error (Option SegmentReport)
  scoped_segment_overview answer = do
    r ← answer
    ok (
        if scope.sees_all || any (λ c. scope.can_see_company c.id) r.companies
        then some (narrowed_report r)
        else none)

  unfoldable pub scoped_cross_segment_links :
      Result Error (List CrossSegmentLink) → Result Error (List CrossSegmentLink)
  scoped_cross_segment_links answer = do links ← answer; ok (retain (λ l. sees l.person) links)
