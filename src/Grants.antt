-- ===== src/Grants.antt =====
-- kanbrick-discovery/src/grants.rs: the lifecycle of project-scope grants over the graph database.
pub mod Ids
pub mod Store
pub mod Methods
pub mod Scopes
pub mod Eligible
pub mod Sound
pub mod Revoked
pub mod Kept
pub mod Approved
pub mod Closed
pub mod Final
pub mod Runs
pub mod Samples
mod Tests
mod RunTests
use kanbrick_v.Common.{
  ℕ, ℤ, Text, codes, List, [], ◌∷◌, Bool, true, false, not, Option, none, some, text_beq, is_empty,
  if◌then◌else◌, any, ◌&&◌, ◌||◌, ◌==◌, text_eq,
}
use kanbrick_v.Core.Clearance.{ClearanceLevel, l1, l2, l3, l4, l5, ge}
use kanbrick_v.Core.Context.{FirmContext}
use kanbrick_v.Management.{ManagerOf, ancestors}
use kanbrick_v.LoopRuns.Step.{Skill}
use kanbrick_v.Grants.Ids.{split_ids}

-- MIN_GRANTOR_CLEARANCE
abbrev pub min_grantor_clearance : ClearanceLevel
min_grantor_clearance = l4

pub data RequestStatus : Type 0 where
  requested granted request_denied request_expired : RequestStatus

pub data ScopeStatus : Type 0 where
  scope_pending active scope_expired revoked : ScopeStatus

unfoldable pub request_status_text : RequestStatus → Text
request_status_text requested = codes "REQUESTED"
request_status_text granted = codes "GRANTED"
request_status_text request_denied = codes "DENIED"
request_status_text request_expired = codes "EXPIRED"

unfoldable pub parse_request_status : Text → RequestStatus
parse_request_status s =
    if text_beq s (codes "GRANTED")
    then granted
    else if text_beq s (codes "DENIED")
    then request_denied
    else if text_beq s (codes "EXPIRED")
    then request_expired
    else requested

-- The derived `Debug`.
abbrev pub request_status_debug : RequestStatus → Text
request_status_debug requested = codes "Requested"
request_status_debug granted = codes "Granted"
request_status_debug request_denied = codes "Denied"
request_status_debug request_expired = codes "Expired"

unfoldable pub scope_status_text : ScopeStatus → Text
scope_status_text scope_pending = codes "PENDING"
scope_status_text active = codes "ACTIVE"
scope_status_text scope_expired = codes "EXPIRED"
scope_status_text revoked = codes "REVOKED"

unfoldable pub parse_scope_status : Text → ScopeStatus
parse_scope_status s =
    if text_beq s (codes "ACTIVE")
    then active
    else if text_beq s (codes "EXPIRED")
    then scope_expired
    else if text_beq s (codes "REVOKED")
    then revoked
    else scope_pending

abbrev pub is_requested : RequestStatus → Bool
is_requested requested = true
is_requested _ = false

abbrev pub is_active : ScopeStatus → Bool
is_active active = true
is_active _ = false

pub record ScopeRequest : Type 0 where
  pub id : Text
  pub project : Text
  pub requester : Text
  pub justification : Text
  pub persons : List Text
  pub companies : List Text
  pub status : RequestStatus

pub record GrantedScope : Type 0 where
  pub id : Text
  pub project : Text
  pub requester : Text
  pub granted_by : Text
  pub granted_persons : List Text
  pub granted_companies : List Text
  pub expires_at : Option Text
  pub status : ScopeStatus

-- The clock and the text of its instants, from the crate chrono.
pub record Chrono (I : Type 0) : Type 0 where
  pub earlier : I → I → Bool
  pub plus_days : I → ℤ → I
  pub to_rfc3339 : I → Text
  pub parse_rfc3339 : Text → Option I

abbrev pub is_past : {I : Type 0} → Chrono I → I → Option I → Bool
is_past c now none = true
is_past c now (some expiry) = c.earlier expiry now

unfoldable pub is_expired : {I : Type 0} → Chrono I → Option Text → I → Bool
is_expired c none now = false
is_expired c (some s) now = if is_empty s then false else is_past c now (c.parse_rfc3339 s)

-- `is_cofounder` is the firm-wide override of L5.
unfoldable pub eligible_grantor : ManagerOf → Text → FirmContext → Bool
eligible_grantor graph requester_email grantor =
    ge grantor.clearance min_grantor_clearance
    && (any (λ m. text_beq m grantor.email) (ancestors graph requester_email)
        || ge grantor.clearance l5)

unfoldable pub parse_clearance : Text → ClearanceLevel
parse_clearance s =
    if text_beq s (codes "L5")
    then l5
    else if text_beq s (codes "L4")
    then l4
    else if text_beq s (codes "L3")
    then l3
    else if text_beq s (codes "L2")
    then l2
    else l1
