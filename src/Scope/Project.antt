-- ===== src/Scope/Project.antt =====
-- kanbrick-discovery/src/scope.rs: the trait `VisibilityScope` and its two implementations.
use kanbrick_v.Common.{
  ℕ, Text, codes, List, [], ◌∷◌, ◌++◌, Bool, true, ◌||◌, ◌≡◌, ◌≢◌, arith, contains, text_eq,
  set_add, set_extend, join, contains-set_extend, ap, text_lt, text_beq_iff, ==_ne, length,
  length-append,
}
use mathlib.Core.Bool.{or-false}
use kanbrick_v.Core.Clearance.{display}
use kanbrick_v.Scope.Clearance as Base
use kanbrick_v.Scope.Clearance.{ClearanceScope}

pub record VisibilityScope : Type 0 where
  pub sees_all : Bool
  pub can_see_person : Text → Bool
  pub can_see_company : Text → Bool
  pub scope_key : Text

-- `impl VisibilityScope for ClearanceScope`
unfoldable pub clearance_visibility : ClearanceScope → VisibilityScope
clearance_visibility s = record {
  sees_all = s.sees_all;
  can_see_person = Base.can_see_person s;
  can_see_company = Base.can_see_company s;
  scope_key = codes "clearance:" ++ (display s.clearance ++ (codes ":" ++ s.self_email));
}

pub record ProjectScope : Type 0 where
  pub base : VisibilityScope
  pub project : Text
  pub granted_persons : List Text
  pub granted_companies : List Text

unfoldable pub new_project : VisibilityScope → Text → ProjectScope
new_project base project = record {
  base = base;
  project = project;
  granted_persons = [];
  granted_companies = [];
}

unfoldable pub grant_person : Text → ProjectScope → ProjectScope
grant_person email p = record p { granted_persons = set_add email p.granted_persons }

unfoldable pub grant_company : Text → ProjectScope → ProjectScope
grant_company id p = record p { granted_companies = set_add id p.granted_companies }

unfoldable pub grant_persons : List Text → ProjectScope → ProjectScope
grant_persons emails p = record p { granted_persons = set_extend emails p.granted_persons }

unfoldable pub grant_companies : List Text → ProjectScope → ProjectScope
grant_companies ids p = record p { granted_companies = set_extend ids p.granted_companies }

unfoldable pub project_key : ProjectScope → Text
project_key p =
    codes "project:"
    ++ (p.project
        ++ (codes ":"
            ++ (p.base.scope_key
                ++ (codes ":p["
                    ++ (join (codes ",") p.granted_persons
                        ++ (codes "]:c["
                            ++ (join (codes ",") p.granted_companies ++ codes "]")))))))

-- `impl VisibilityScope for ProjectScope`
unfoldable pub project_visibility : ProjectScope → VisibilityScope
unfolding project_key
project_visibility p = record {
  sees_all = p.base.sees_all;
  can_see_person = λ email. p.base.can_see_person email || contains p.granted_persons email;
  can_see_company = λ id. p.base.can_see_company id || contains p.granted_companies id;
  scope_key = project_key p;
}

-- A grant of persons and companies shows exactly those in addition to what was visible before: it
-- takes nothing away, and it never turns a caller into one who sees all.
pub grants_additive :
    (p : ProjectScope) (emails ids : List Text) (x : Text)
    → let before = project_visibility p in
      let after = project_visibility (grant_companies ids (grant_persons emails p)) in
      (after.can_see_person x ≡ (before.can_see_person x || contains emails x))
      × (after.can_see_company x ≡ (before.can_see_company x || contains ids x))
      × (after.sees_all ≡ before.sees_all)
unfolding project_visibility grant_companies grant_persons
grants_additive p emails ids x = ground (
  arith,
  contains-set_extend emails p.granted_persons x,
  contains-set_extend ids p.granted_companies x,
)

append-ne : (a : Text) (c : ℕ) (b : Text) → a ++ (c ∷ b) ≢ a
append-ne a c b e =
    let h = length-append a (c ∷ b) in
    let k : length (a ++ (c ∷ b)) ≡ length a = ap length e in omega arith

-- The cache key separates the granted persons by commas and does not escape them, so a grant of one
-- email that holds a comma has the key of a grant of two emails; yet the second scope shows the
-- first of the two, and the other shows it only if the base does.
pub project_key_collision :
    (base : VisibilityScope) (project a b : Text)
    → text_lt a b ≡ true
    → let one = grant_person (a ++ (codes "," ++ b)) (new_project base project) in
      let two = grant_person a (grant_person b (new_project base project)) in
      (project_key one ≡ project_key two)
      × ((project_visibility two).can_see_person a ≡ true)
      × ((project_visibility one).can_see_person a ≡ base.can_see_person a)
unfolding project_key grant_person new_project set_add join project_visibility contains
project_key_collision base project a b h = (
  rw h,
  rw h (ground (arith, text_beq_iff a a)),
  rw (==_ne (a ++ (b',' ∷ b)) a (append-ne a b',' b)) (or-false (base.can_see_person a)),
)
