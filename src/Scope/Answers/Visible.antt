-- ===== src/Scope/Answers/Visible.antt =====
-- No scoped answer names a person or a company that the caller may not see.
use kanbrick_v.Common.{
  Text, List, [], ◌∷◌, Bool, true, false, ◌&&◌, ◌≡◌, refl, arith, Option, none, some, ok, all,
  retain, map, contains, text_eq, text_beq, text_beq_iff, All, All-retain, if◌then◌else◌, inl, inr,
  Bool-cases, subst, sym,
}
use kanbrick_v.Scope.Project.{VisibilityScope}
use kanbrick_v.Scope.Answers.{
  PersonRef, ReportingPath, OrgNeighborhood, SegmentReport, sees, visible_ids, narrowed,
  narrowed_report, only_visible, scoped_reporting_path, scoped_org_neighborhood,
  scoped_segment_overview,
}

abbrev pub SeesAllOf : VisibilityScope → List PersonRef → Type 0
SeesAllOf scope = All (λ p. sees scope p ≡ true)

all-All {ℓ} : {A : Type ℓ} (p : A → Bool) (xs : List A) → all p xs ≡ true → All (λ x. p x ≡ true) xs
all-All p [] h = tt
all-All p (x ∷ xs) h = (ground arith, all-All p xs (ground arith))

-- A reporting path is shown whole, every person on it visible, or not at all.
pub scoped_reporting_path_whole :
    (scope : VisibilityScope) (full path : ReportingPath)
    → scoped_reporting_path scope (ok (some full)) ≡ ok (some path)
    → (path ≡ full) × SeesAllOf scope path.steps
unfolding scoped_reporting_path
scoped_reporting_path_whole scope full path h = elim (Bool-cases (all (sees scope) full.steps)) [
  | inl shown ↦
      let e : full ≡ path = ground arith in
      (sym e, subst (λ q. SeesAllOf scope q.steps) e (all-All (sees scope) full.steps shown))
  | inr hidden ↦ ground arith
]

visible_ids-sees :
    (scope : VisibilityScope) (members : List PersonRef) (id : Text)
    → contains (map (λ m. m.id) (retain (sees scope) members)) id ≡ true
    → scope.can_see_person id ≡ true
unfolding contains
visible_ids-sees scope [] id h = cc
visible_ids-sees scope (m ∷ ms) id h = elim (Bool-cases (sees scope m)) [
  | inl shown ↦ elim (Bool-cases (text_beq m.id id)) [
    | inl same ↦ rw (← (text_beq_iff m.id id).0 same) shown
    | inr other ↦ visible_ids-sees scope ms id (ground arith)
  ]
  | inr hidden ↦ visible_ids-sees scope ms id (ground arith)
]

All-retain_map {ℓ} :
    {A : Type ℓ} (p q : A → Bool) (xs : List A)
    → ((x : A) → p x ≡ true → q x ≡ true)
    → All (λ x. q x ≡ true) (retain p xs)
All-retain_map p q [] h = tt
All-retain_map p q (x ∷ xs) h = ground (arith, h x, All-retain_map p q xs h)

-- A neighbourhood shows visible members only, and no reporting edge with an end that is hidden.
pub scoped_org_neighborhood_visible :
    (scope : VisibilityScope) (center : Text) (full hood : OrgNeighborhood)
    → scoped_org_neighborhood scope (some center) (ok full) ≡ ok (some hood)
    → SeesAllOf scope hood.members
      × All
          (λ e. (scope.can_see_person e.0 && scope.can_see_person e.1) ≡ true)
          hood.reporting_edges
      × (scope.can_see_person center ≡ true)
unfolding scoped_org_neighborhood
scoped_org_neighborhood_visible scope center full hood h =
    let e : narrowed scope full ≡ hood = ground arith in
    let v = visible_ids-sees scope full.members in
    (
      subst (λ q. SeesAllOf scope q.members) e
          (All-retain_map (λ m. contains (visible_ids scope full) m.id) (sees scope) full.members
            (λ m. v m.id)),
      subst
          (λ q.
            All (λ e. (scope.can_see_person e.0 && scope.can_see_person e.1) ≡ true)
              q.reporting_edges)
          e
          (All-retain_map
            (λ e. contains (visible_ids scope full) e.0 && contains (visible_ids scope full) e.1)
            (λ e. scope.can_see_person e.0 && scope.can_see_person e.1) full.reporting_edges
            (λ e h. ground (arith, v e.0, v e.1))),
      ground arith,
    )

-- A lead who is named is visible.
abbrev pub SeesLead : VisibilityScope → Option PersonRef → Type 0
SeesLead scope none = Unit
SeesLead scope (some p) = sees scope p ≡ true

shown_if :
    (scope : VisibilityScope) (q : PersonRef) (b : Bool)
    → sees scope q ≡ b
    → SeesLead scope (if b then some q else none)
shown_if scope q true h = h
shown_if scope q false h = tt

only_visible-sees :
    (scope : VisibilityScope) (o : Option PersonRef) → SeesLead scope (only_visible scope o)
only_visible-sees scope none = tt
only_visible-sees scope (some q) = shown_if scope q (sees scope q) refl

-- A segment report shows visible companies and persons only, and a lead only if visible.
pub scoped_segment_overview_visible :
    (scope : VisibilityScope) (full report : SegmentReport)
    → scoped_segment_overview scope (ok full) ≡ ok (some report)
    → All (λ c. scope.can_see_company c.id ≡ true) report.companies
      × SeesAllOf scope report.persons
      × SeesLead scope report.lead
unfolding scoped_segment_overview
scoped_segment_overview_visible scope full report h =
    let e : narrowed_report scope full ≡ report = ground arith in
    (
      subst (λ r. All (λ c. scope.can_see_company c.id ≡ true) r.companies) e
          (All-retain (λ c. scope.can_see_company c.id) full.companies),
      subst (λ r. SeesAllOf scope r.persons) e (All-retain (sees scope) full.persons),
      subst (λ r. SeesLead scope r.lead) e (only_visible-sees scope full.lead),
    )
