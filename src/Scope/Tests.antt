-- ===== src/Scope/Tests.antt =====
-- An L3 who manages one company and has one report, and rows of either kind.
use kanbrick_v.Common.{
  ◌≡◌, refl, Text, codes, List, [], ◌∷◌, ◌++◌, true, false, some, ok, err, contains, text_eq,
  text_lt,
}
use kanbrick_v.Json.{JsonValue, string, object, end, field, null}
use kanbrick_v.Core.Clearance.{l1, l3, ge}
use kanbrick_v.Core.Error.{internal}
use kanbrick_v.Core.Context.{FirmContext}
use kanbrick_v.Scope.Clearance.{ClearanceScope, GraphReads, resolve, resolve_fails}
use kanbrick_v.Scope.Project.{
  VisibilityScope, ProjectScope, new_project, grant_person, project_key, project_visibility,
  project_key_collision,
}
use kanbrick_v.Scope.Answers.{PersonRef, ReportingPath, OrgNeighborhood, SegmentReport}

abbrev ann : Text
ann = codes "ann"

abbrev bob : Text
bob = codes "bob"

abbrev reads : GraphReads
reads = record { managed_companies = λ e. ok (codes "C1" ∷ []); reports_of = λ e. ok (bob ∷ []) }

abbrev broken_reads : GraphReads
broken_reads = record {
  managed_companies = λ e. err (internal (codes "down"));
  reports_of = λ e. ok [];
}

abbrev ctx : FirmContext
ctx = record {
  user_id = 1;
  email = ann;
  clearance = l3;
  firm_id = codes "kanbrick";
  roles = [];
  session_id = 2;
  issued_at = 3;
}

abbrev scope : ClearanceScope
scope = record {
  clearance = l3;
  self_email = ann;
  sees_all = false;
  visible_company_ids = codes "C1" ∷ [];
  visible_person_emails = ann ∷ bob ∷ [];
}

resolve_fails_example : resolve broken_reads ctx ≡ err (internal (codes "down"))
unfolding ge
resolve_fails_example = resolve_fails broken_reads ctx (internal (codes "down")) refl refl

abbrev person_row_of : Text → JsonValue
person_row_of email =
    object
      (field (codes "email") (string email) (field (codes "company_id") (string (codes "C9")) end))

abbrev company_row_of : Text → JsonValue
company_row_of id = object (
    field (codes "company_id") (string id)
      (field (codes "name") (string id) (field (codes "revenue") null end)))

abbrev answer_rows : List JsonValue
answer_rows = person_row_of bob ∷ company_row_of (codes "C2") ∷ company_row_of (codes "C1") ∷ []

abbrev view : VisibilityScope
view = record {
  sees_all = false;
  can_see_person = contains (ann ∷ bob ∷ []);
  can_see_company = λ c. false;
  scope_key = codes "k";
}

abbrev project : ProjectScope
project = record { base = view; project = codes "p"; granted_persons = []; granted_companies = [] }

project_key_collision_example :
    let one = grant_person (ann ++ (codes "," ++ bob)) (new_project view (codes "p")) in
    let two = grant_person ann (grant_person bob (new_project view (codes "p"))) in
    (project_key one ≡ project_key two)
    × ((project_visibility two).can_see_person ann ≡ true)
    × ((project_visibility one).can_see_person ann ≡ view.can_see_person ann)
unfolding text_lt
project_key_collision_example = project_key_collision view (codes "p") ann bob refl

abbrev person_of : Text → PersonRef
person_of id = record { id = id; full_name = id; role = codes "analyst"; clearance = l1 }

abbrev path : ReportingPath
path = record { steps = person_of bob ∷ person_of ann ∷ [] }

abbrev full_hood : OrgNeighborhood
full_hood = record {
  center = ann;
  depth = 1;
  members = person_of ann ∷ person_of bob ∷ person_of (codes "cy") ∷ [];
  reporting_edges = (bob, ann) ∷ (codes "cy", bob) ∷ [];
}

abbrev full_report : SegmentReport
full_report = record {
  code = codes "S";
  name = codes "Services";
  companies = [];
  persons = person_of (codes "cy") ∷ person_of bob ∷ [];
  lead = some (person_of (codes "cy"));
}

-- A caller who sees all, so that a report with no visible company is shown too.
abbrev admin_view : VisibilityScope
admin_view = record view { sees_all = true }
