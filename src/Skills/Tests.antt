-- ===== src/Skills/Tests.antt =====
-- A catalogue kept in lists, with the commands that the database documents.
use kanbrick_v.Common.{
  suc, ◌≡◌, ◌⊎◌, refl, arith, Text, codes, text_eq, text_beq, List, [], ◌∷◌, Dict, lookup, insert,
  modify, length, Option, none, some, Result, ok, err, true, retain, if◌then◌else◌,
}
use kanbrick_v.Core.Clearance.{l2, l5, ge}
use kanbrick_v.Core.Error.{Error}
use kanbrick_v.LoopRuns.Step.{Skill}
use kanbrick_v.Mesh.Scheduler.Permits.{present}
use kanbrick_v.Grants.{GrantedScope, eligible_grantor}
use kanbrick_v.Grants.Store.{Store, Nodes, GrantState}
use kanbrick_v.Grants.Scopes.{scope}
use kanbrick_v.Grants.Samples.{clock, ann, given}
use kanbrick_v.Skills.{
  SkillVersionRecord, SkillDb, new_version, version_id, published, publish_skill_version,
  skill_owner, latest_skill_version, get_skill_version, set_skill_review,
}
use kanbrick_v.Skills.Written.{
  Catalogue, IsSkillView, touch, reviewed, publish_skill_version-written,
}
use kanbrick_v.Skills.Order.{IsOrdered, publish_skill_version-newest}
use kanbrick_v.Skills.Trust.{
  published_refused_to_others, at_once, after, publishing_other, publishing_again, reviewing_other,
}
use kanbrick_v.Skills.Routes.{
  ApiError, bind_skill, review_skill, edition_of, is_approved, decision_status,
}
use kanbrick_v.Skills.Gate.{bind_skill_sound}

abbrev values : Catalogue → List SkillVersionRecord
values [] = []
values ((w, none) ∷ m) = values m
values ((w, some r) ∷ m) = r ∷ values m

abbrev row_at : Option (Option SkillVersionRecord) → List SkillVersionRecord
row_at (some (some r)) = r ∷ []
row_at _ = []

abbrev owner_at : Option Text → List (Option Text)
owner_at none = []
owner_at (some t) = some t ∷ []

record Shelf : Type 0 where
  owners : Dict Text Text
  versions : Catalogue

abbrev shelf_db : SkillDb Shelf
shelf_db = record {
  owner_rows = λ name d. ok (owner_at (lookup name d.owners));
  merge_skill = λ name d. ok d;
  set_owner = λ name owner d. ok (record d { owners = insert name owner d.owners });
  merge_version = λ v d. ok (record d { versions = touch v d.versions });
  set_version = λ v r d. ok (record d { versions = modify v (λ _. some r) d.versions });
  link_version = λ name v d. ok d;
  set_review =
      λ v status by at d. ok (record d { versions = modify v (reviewed status by at) d.versions });
  rows_of_skill = λ name d. ok (retain (λ r. text_beq r.skill_name name) (values d.versions));
  rows_of_version = λ v d. ok (row_at (lookup v d.versions));
  all_rows = λ d. ok (values d.versions);
  count_rows = λ d. ok (some (length d.versions));
}

shelf_IsSkillView : IsSkillView shelf_db (λ d. d.versions)
shelf_IsSkillView = record {
  counted = λ d n e. ground arith;
  skill_apart = λ name d e q. ground arith;
  owner_apart = λ name owner d e q. ground arith;
  link_apart = λ name v d e q. ground arith;
  merged = λ v d e q. ground arith;
  fields_set = λ v r d e q. ground arith;
  review_set = λ v status by at d e q. ground arith;
  found = λ v d r rows q e. ground arith;
}

abbrev edition : Text → SkillVersionRecord
edition version = new_version (codes "s") version (codes "g") l2 [] (codes "ann") (codes "now")

abbrev empty : Shelf
empty = record { owners = []; versions = [] }

abbrev v1 : Text
v1 = codes "1"

abbrev v2 : Text
v2 = codes "2"

abbrev once : Shelf
once = (publish_skill_version shelf_db (edition v1) empty).1

abbrev twice : Shelf
twice = (publish_skill_version shelf_db (edition v2) once).1

abbrev version_of : Result Error (Option SkillVersionRecord) → Option Text
version_of (ok (some r)) = some r.version
version_of _ = none

latest_second : version_of (latest_skill_version shelf_db (codes "s") twice).0 ≡ some v2
unfolding latest_skill_version kanbrick_v.Skills.list_skill_versions publish_skill_version
    kanbrick_v.Skills.count_skill_versions skill_owner modify lookup touch insert text_beq
latest_second = refl

-- Two editions that are published again get the same place, so that the latest is the second of the
-- catalogue and not the last that was published.
abbrev again : Shelf
again =
    (publish_skill_version shelf_db (edition v1)
      (publish_skill_version shelf_db (edition v2) twice).1).1

latest_tied : version_of (latest_skill_version shelf_db (codes "s") again).0 ≡ some v2
unfolding latest_skill_version kanbrick_v.Skills.list_skill_versions publish_skill_version
    kanbrick_v.Skills.count_skill_versions skill_owner modify lookup touch insert text_beq
latest_tied = refl

empty_IsOrdered : IsOrdered []
unfolding lookup
empty_IsOrdered w r h = absurd (ground arith)

once_IsOrdered : IsOrdered once.versions
unfolding publish_skill_version kanbrick_v.Skills.count_skill_versions skill_owner
once_IsOrdered =
    (publish_skill_version-newest shelf_db (λ d. d.versions) (edition v1) empty shelf_IsSkillView
      empty_IsOrdered refl).0

publish_skill_version-written_example :
    ((w : Text)
      → lookup w twice.versions ≡ (
          if text_beq (version_id (codes "s") v2) w
          then some (some (published shelf_db (length once.versions) (edition v2)))
          else lookup w once.versions))
    × (length twice.versions ≡ (
        if present (lookup (version_id (codes "s") v2) once.versions)
        then length once.versions
        else suc (length once.versions)))
unfolding publish_skill_version kanbrick_v.Skills.count_skill_versions skill_owner
publish_skill_version-written_example =
    publish_skill_version-written shelf_db (λ d. d.versions) shelf_IsSkillView (edition v2) once
      refl

abbrev decide : Shelf
decide = (set_skill_review shelf_db (codes "s") v1 (codes "approved") (codes "bob") [] twice).1

-- The grants beside the catalogue: one scope, which is ann's.
abbrev shelf_store : Store Shelf
shelf_store = record {
  requests = record {
    match_rows = λ p d. ok [];
    set_rows = λ p f d. ok d;
    merge_row = λ r d. ok d;
  };
  scopes = record {
    match_rows = λ p d. ok (retain p (given ∷ []));
    set_rows = λ p f d. ok d;
    merge_row = λ r d. ok d;
  };
  skills = record { match_rows = λ p d. ok []; set_rows = λ p f d. ok d; merge_row = λ r d. ok d };
  audits = record { match_rows = λ p d. ok []; set_rows = λ p f d. ok d; merge_row = λ r d. ok d };
  bind_skill = λ scope_id id d. ok d;
  skills_of = λ scope_id d. ok [];
  query_hash = λ t. t;
}

abbrev by_carl : SkillVersionRecord
by_carl = new_version (codes "s") v1 (codes "g") l2 [] (codes "carl") (codes "now")

abbrev fresh : GrantState Shelf
fresh = record { db = empty; cache = none }

abbrev stocked : GrantState Shelf
stocked = record fresh { db = (publish_skill_version shelf_db by_carl empty).1 }

-- The author publishes a second edition, which is approved, and the first one once more.
abbrev second : SkillVersionRecord
second = record by_carl { version = codes "9.9.9" }

abbrev on_from_there : GrantState Shelf
on_from_there = record stocked {
  db =
      (publish_skill_version shelf_db by_carl
        (set_skill_review shelf_db (codes "s") (codes "9.9.9") (codes "approved") (codes "bob") []
          (publish_skill_version shelf_db second stocked.db).1).1).1;
}

published_refused_to_others_example :
    (e : ApiError) × ((bind_skill shelf_store shelf_db clock
        (codes "k")
        (codes "a")
        0
        ann
        (codes "s")
        (codes "s")
        (some v1)
        on_from_there).0
      ≡ err e)
unfolding publish_skill_version kanbrick_v.Skills.count_skill_versions skill_owner text_beq ge
published_refused_to_others_example =
    published_refused_to_others shelf_store shelf_db clock (λ d. d.versions) by_carl empty
      on_from_there (codes "k") (codes "a") 0 ann (codes "s") shelf_IsSkillView refl
      (after
        (after (after at_once (publishing_other second refl))
          (reviewing_other (codes "s") (codes "9.9.9") (codes "approved") (codes "bob") [] refl))
        (publishing_again by_carl refl))
      refl refl

abbrev approved : GrantState Shelf
approved = record stocked {
  db = (set_skill_review shelf_db (codes "s") v1 (codes "approved") (codes "bob") [] stocked.db).1;
}

abbrev bound : Skill
bound = record {
  id = codes "k";
  name = codes "s";
  scope_id = codes "s";
  guest = codes "g";
  required_clearance = l2;
}

bind_skill_sound_example :
    (s : GrantedScope) × (e : SkillVersionRecord) × ((scope shelf_store clock
        (codes "s")
        approved).0
      ≡ ok (some s))
    × ((text_beq s.requester ann.email ≡ true) ⊎ (ge ann.clearance l5 ≡ true))
    × ((edition_of shelf_store shelf_db clock (codes "s") (some v1) approved).0 ≡ ok (some e))
    × ((is_approved e.review_status ≡ true)
        ⊎ ((text_beq e.source ann.email ≡ true) ⊎ (ge ann.clearance l5 ≡ true)))
    × (bound.guest ≡ e.guest)
    × (bound.required_clearance ≡ e.min_clearance)
unfolding bind_skill scope text_beq kanbrick_v.Grants.Store.scope_from_row edition_of
    get_skill_version lookup set_skill_review modify publish_skill_version
    kanbrick_v.Skills.count_skill_versions skill_owner touch insert
    kanbrick_v.Grants.Scopes.define_skill kanbrick_v.Grants.Methods.audit
    kanbrick_v.Skills.Routes.bind_edition
bind_skill_sound_example =
    bind_skill_sound shelf_store shelf_db clock (codes "k") (codes "a") 0 ann (codes "s")
      (codes "s") (some v1) approved bound refl

abbrev by_ann : GrantState Shelf
by_ann = record fresh { db = once }

abbrev after_review : SkillVersionRecord
after_review = record (published shelf_db 0 (edition v1)) {
  review_status = some (codes "approved");
  reviewed_by = some (codes "bob");
  reviewed_at = some (0 ∷ []);
}
