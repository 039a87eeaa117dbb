-- ===== src/Skills/Routes.antt =====
-- kanbrick-api/src/skills.rs: the handlers that publish, bind and review editions. A handler is given
-- the random ids that it draws and reads the clock once.
use kanbrick_v.Common.{
  ℕ, Text, codes, ◌++◌, text_beq, List, [], Option, none, some, Result, ok, err, Bool, not, ◌&&◌,
  if◌then◌else◌, false,
}
use kanbrick_v.Common.Action.{Action, ◌>>=◌, ◌>>◌, pure, raise, fail_if, or_raise}
use kanbrick_v.Core.Clearance.{ClearanceLevel, l1, l3, l4, l5, ge}
use kanbrick_v.Core.Context.{FirmContext}
use kanbrick_v.Core.Error.{
  Error, access_denied, kind, error_text, unauthorized, not_found_kind, validation_error,
  query_error, internal_kind, ErrorKind,
}
use kanbrick_v.Management.{ManagerOf}
use kanbrick_v.LoopRuns.Step.{Skill}
use kanbrick_v.Grants.{Chrono, eligible_grantor}
use kanbrick_v.Grants.Store.{Store, GrantState}
use kanbrick_v.Grants.Methods.{audit}
use kanbrick_v.Grants.Scopes.{scope, define_skill, skills_for_scope}
use kanbrick_v.SkillFile.{SkillManifest}
use kanbrick_v.Skills.{
  SkillVersionRecord, SkillDb, review_approved, review_rejected, new_version, skill_owner,
  publish_skill_version, list_skill_versions, latest_skill_version, get_skill_version,
  set_skill_review, pending_skill_versions,
}

pub record ApiError : Type 0 where
  pub status : ℕ
  pub kind_text : Text
  pub message : Text

abbrev pub api_error : ℕ → Text → Text → ApiError
api_error status kind_text message = record {
  status = status;
  kind_text = kind_text;
  message = message;
}

abbrev status_of : ErrorKind → ℕ
status_of unauthorized = 401
status_of not_found_kind = 404
status_of validation_error = 400
status_of query_error = 500
status_of internal_kind = 500

abbrev kind_of : ErrorKind → Text
kind_of unauthorized = codes "unauthorized"
kind_of not_found_kind = codes "not_found"
kind_of validation_error = codes "invalid_request"
kind_of query_error = codes "internal"
kind_of internal_kind = codes "internal"

-- `From<Error> for ApiError`, in kanbrick-api/src/lib.rs
unfoldable pub from_error : Error → ApiError
from_error (access_denied required actual) =
    api_error 403 (codes "forbidden") (error_text (access_denied required actual))
from_error e = api_error (status_of (kind e)) (kind_of (kind e)) (error_text e)

abbrev pub forbidden : Text → ApiError
forbidden message = api_error 403 (codes "forbidden") message

abbrev pub skill_not_found : Text → ApiError
skill_not_found what = api_error 404 (codes "not_found") what

abbrev pub internal_error : Text → ApiError
internal_error message = api_error 500 (codes "internal") message

unfoldable pub not_found_scope : Text → ApiError
not_found_scope scope_id = skill_not_found (codes "project scope " ++ scope_id)

abbrev pub required : {A : Type 0} → ClearanceLevel → FirmContext → Action A ApiError (Unit {0})
required level ctx =
    fail_if (not (ge ctx.clearance level)) (from_error (access_denied level ctx.clearance))

unfoldable pub version_text : Text → Option Text → Text
version_text name none = codes "skill " ++ name
version_text name (some v) = codes "skill " ++ name ++ codes "@" ++ v

-- The owner of a name, if it has one, is someone else, and the caller is below L5.
abbrev pub owned_by_other : FirmContext → Option Text → Bool
owned_by_other ctx none = false
owned_by_other ctx (some owner) = not (text_beq owner ctx.email) && not (ge ctx.clearance l5)

abbrev pub owner_text : Text → Option Text → Text
owner_text name none = []
owner_text name (some owner) =
    codes "skill "
    ++ name
    ++ codes " is owned by "
    ++ owner
    ++ codes "; only its author (or an L5) may publish new editions"

abbrev pub is_approved : Option Text → Bool
is_approved none = false
is_approved (some t) = text_beq t review_approved

abbrev pub decision_status : Text → Option Text
decision_status d =
    if text_beq d (codes "approve")
    then some review_approved
    else if text_beq d (codes "reject")
    then some review_rejected
    else none

-- What the refusal of an edition that is not approved says, and what a binding is audited as
unfoldable pub not_approved : SkillVersionRecord → ApiError
not_approved edition = forbidden (
    codes "skill "
    ++ edition.skill_name
    ++ codes "@"
    ++ edition.version
    ++ codes " is not yet approved for use by others")

unfoldable pub bind_marker : SkillVersionRecord → Text → Text
bind_marker edition scope_id = codes "skill:bind:" ++ edition.skill_name ++ codes ":" ++ scope_id

unfoldable pub not_your_scope : ApiError
not_your_scope = forbidden (codes "not your scope")

-- `graph` is the org graph that the memo on the state of the API has, and `parse` is
-- `parse_skill_md`, with the text of its error.
module _ {D : Type 0} {I : Type 0} (store : Store D) (db : SkillDb D) (c : Chrono I) where
  abbrev pub Handler : Type 0 → Type 0
  Handler = Action (GrantState D) ApiError

  abbrev pub raised : {A : Type 0} → Result Error A → Result ApiError A
  raised (ok a) = ok a
  raised (err e) = err (from_error e)

  -- `?` on a method of the grants, and on a function of the catalogue
  abbrev pub granting : {A : Type 0} → Action (GrantState D) Error A → Handler A
  granting m g = let (r, g') = m g in (raised r, g')

  abbrev pub on_db : {A : Type 0} → Action D Error A → Handler A
  on_db m g = let (r, d) = m g.db in (raised r, record g { db = d })

  unfoldable pub publish_skill :
      (Text → Result Text SkillManifest)
      → Text
      → I
      → FirmContext
      → Text
      → Handler SkillVersionRecord
  publish_skill parse entry_id now ctx skill_md = do
    required l3 ctx
    manifest ← parsed (parse skill_md)
    owner ← on_db (skill_owner db manifest.name)
    fail_if (owned_by_other ctx owner) (forbidden (owner_text manifest.name owner))
    on_db (publish_skill_version db (authored manifest))
    granting (
        audit store c entry_id now ctx
          (codes "skill:publish:" ++ manifest.name ++ codes "@" ++ manifest.version))
    latest ← on_db (latest_skill_version db manifest.name)
    or_raise latest (internal_error (codes "published skill edition could not be read back"))
    where
      parsed : Result Text SkillManifest → Handler SkillManifest
      parsed (ok m) = pure m
      parsed (err e) = raise (api_error 400 (codes "invalid_skill_md") e)

      authored : SkillManifest → SkillVersionRecord
      authored m =
          new_version m.name m.version m.guest m.clearance m.description ctx.email
            (c.to_rfc3339 now)

  -- The edition that a request names: one version, or the latest
  unfoldable pub edition_of : Text → Option Text → Handler (Option SkillVersionRecord)
  edition_of name none = on_db (latest_skill_version db name)
  edition_of name (some v) = on_db (get_skill_version db name v)

  -- `bind_skill`, once the scope is the caller's and the edition is found
  unfoldable pub bind_edition :
      Text → Text → I → FirmContext → Text → SkillVersionRecord → Handler Skill
  bind_edition skill_id entry_id now ctx scope_id edition = do
    fail_if
        (not (is_approved edition.review_status)
          && not (text_beq edition.source ctx.email)
          && not (ge ctx.clearance l5))
        (not_approved edition)
    skill ← granting (
        define_skill store c skill_id scope_id edition.skill_name edition.guest
          edition.min_clearance)
    granting (audit store c entry_id now ctx (bind_marker edition scope_id))
    pure skill

  unfoldable pub bind_skill :
      Text → Text → I → FirmContext → Text → Text → Option Text → Handler Skill
  bind_skill skill_id entry_id now ctx scope_id skill_name version = do
    found ← granting (scope store c scope_id)
    s ← or_raise found (not_found_scope scope_id)
    fail_if (not (text_beq s.requester ctx.email) && not (ge ctx.clearance l5)) not_your_scope
    named ← edition_of skill_name version
    edition ← or_raise named (skill_not_found (version_text skill_name version))
    bind_edition skill_id entry_id now ctx scope_id edition

  unfoldable pub list_scope_skills : FirmContext → Text → Handler (List Skill)
  list_scope_skills ctx scope_id = do
    found ← granting (scope store c scope_id)
    s ← or_raise found (not_found_scope scope_id)
    fail_if (not (text_beq s.requester ctx.email) && not (ge ctx.clearance l4)) not_your_scope
    granting (skills_for_scope store c scope_id)

  unfoldable pub skill_history : FirmContext → Text → Handler (List SkillVersionRecord)
  skill_history ctx name = do required l1 ctx; on_db (list_skill_versions db name)

  unfoldable pub list_skill_reviews : FirmContext → Handler (List SkillVersionRecord)
  list_skill_reviews ctx = do required l4 ctx; on_db (pending_skill_versions db)

  unfoldable pub review_skill :
      ManagerOf → Text → I → FirmContext → Text → Text → Text → Text → Handler SkillVersionRecord
  review_skill graph entry_id now ctx name version decision reason = do
    required l4 ctx
    status ← or_raise (decision_status decision) (
        api_error 400 (codes "invalid_request")
          (codes "decision must be \"approve\" or \"reject\""))
    named ← on_db (get_skill_version db name version)
    edition ← or_raise named (skill_not_found (version_text name (some version)))
    fail_if (text_beq edition.source ctx.email) (forbidden (codes "cannot review your own skill"))
    fail_if (not (eligible_grantor graph edition.source ctx))
        (forbidden (codes "not an eligible reviewer for this skill's author"))
    on_db (set_skill_review db name version status ctx.email (c.to_rfc3339 now))
    granting (
        audit store c entry_id now ctx (
          codes "skill:review:"
          ++ status
          ++ codes ":"
          ++ name
          ++ codes "@"
          ++ version
          ++ codes ":"
          ++ reason))
    updated ← on_db (get_skill_version db name version)
    or_raise updated (internal_error (codes "reviewed edition could not be read back"))
