-- ===== src/Egress/Gate.antt =====
-- kanbrick-egress/src/lib.rs, `EgressGate::authorize`, and exactly when it allows.
use kanbrick_v.Common.{
  Text, codes, List, ◌++◌, true, not, ◌≡◌, ◌↔◌, arith, Result, ok, ◌>>◌, raise_if,
}
use kanbrick_v.Core.Clearance.{ClearanceLevel, satisfies, display}
use kanbrick_v.Providers.{ProviderKind, provider_token}
use kanbrick_v.Egress.Policy.{
  DataClass, public_data, internal, restricted, min_clearance, RoleOverlay, effective_clearance,
  DlpPolicy, can_send, HostAllowlist, is_allowed,
}

pub data EgressDenial : Type 0 where
  insufficient_clearance : ClearanceLevel → ClearanceLevel → DataClass → EgressDenial
  host_not_allowlisted : Text → EgressDenial
  dlp_blocked : DataClass → ProviderKind → EgressDenial

-- The derived `Debug` of a data class.
unfoldable pub class_debug : DataClass → Text
class_debug public_data = codes "Public"
class_debug internal = codes "Internal"
class_debug restricted = codes "Restricted"

-- `EgressDenial`'s `Display`
unfoldable pub denial_text : EgressDenial → Text
unfolding class_debug display provider_token
denial_text (insufficient_clearance required effective class) =
    codes "egress denied: effective clearance "
    ++ (display effective
        ++ (codes " is below "
            ++ (display required
                ++ (codes " required for " ++ (class_debug class ++ codes " data")))))
denial_text (host_not_allowlisted host) =
    codes "egress denied: provider host " ++ (host ++ codes " is not on the per-tenant allowlist")
denial_text (dlp_blocked class provider) =
    codes "egress denied: DLP blocks "
    ++ (class_debug class ++ (codes " data → " ++ provider_token provider))

pub record EgressGate : Type 0 where
  pub overlay : RoleOverlay
  pub allowlist : HostAllowlist
  pub dlp : DlpPolicy

unfoldable pub authorize :
    EgressGate
    → ClearanceLevel
    → List Text
    → DataClass
    → ProviderKind
    → Text
    → Result EgressDenial ClearanceLevel
authorize g base roles class provider host = do
  let effective = effective_clearance g.overlay base roles
  let required = min_clearance class
  raise_if (not (satisfies effective required)) (insufficient_clearance required effective class)
  raise_if (not (is_allowed g.allowlist host)) (host_not_allowlisted host)
  raise_if (not (can_send g.dlp class provider)) (dlp_blocked class provider)
  ok effective

-- The gate allows exactly when the narrowed clearance meets the class's floor, the host is on the
-- allowlist and the pair of class and provider is allowed; the level it returns is the narrowed
-- one.
pub authorize-eq-ok_iff :
    (g : EgressGate) (base : ClearanceLevel) (roles : List Text) (class : DataClass)
    (provider : ProviderKind) (host : Text) (level : ClearanceLevel)
    → (authorize g base roles class provider host ≡ ok level) ↔ (
        (level ≡ effective_clearance g.overlay base roles)
        × (satisfies level (min_clearance class) ≡ true)
        × (is_allowed g.allowlist host ≡ true)
        × (can_send g.dlp class provider ≡ true))
unfolding authorize
authorize-eq-ok_iff g base roles class provider host level = ground arith
