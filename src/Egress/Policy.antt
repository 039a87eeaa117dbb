-- ===== src/Egress/Policy.antt =====
-- kanbrick-egress/src/lib.rs: data classes, the role overlay, the DLP pairs and the host allowlist.
use kanbrick_v.Common.{
  Text, List, [], ◌∷◌, Bool, true, false, ◌≡◌, ◌↔◌, Eq, arith, Dict, insert, lookup, contains,
  set_insert, Option, text_eq, pair_eq, none, some, map, to_ascii_lower,
}
use kanbrick_v.Core.Clearance.{ClearanceLevel, l1, l2, l4, min_level}
use kanbrick_v.Providers.{ProviderKind, provider_eq}

pub data DataClass : Type 0 where
  public_data internal restricted : DataClass

abbrev pub class_beq : DataClass → DataClass → Bool
class_beq public_data public_data = true
class_beq internal internal = true
class_beq restricted restricted = true
class_beq _ _ = false

pub class_beq_iff : (a b : DataClass) → (class_beq a b ≡ true) ↔ (a ≡ b)
class_beq_iff public_data b = ground arith
class_beq_iff a b = ground arith

instance abbrev pub class_eq : Eq DataClass
class_eq = record { beq = class_beq; beq_iff = class_beq_iff }

unfoldable pub min_clearance : DataClass → ClearanceLevel
min_clearance public_data = l1
min_clearance internal = l2
min_clearance restricted = l4

pub record RoleOverlay : Type 0 where
  pub ceilings : Dict Text ClearanceLevel

abbrev pub no_ceilings : RoleOverlay
no_ceilings = record { ceilings = [] }

unfoldable pub with_ceiling : Text → ClearanceLevel → RoleOverlay → RoleOverlay
with_ceiling role ceiling o = record { ceilings = insert role ceiling o.ceilings }

-- One round of the loop of `effective_clearance`.
abbrev pub capped : ClearanceLevel → Option ClearanceLevel → ClearanceLevel
capped effective none = effective
capped effective (some ceiling) = min_level effective ceiling

unfoldable pub effective_clearance : RoleOverlay → ClearanceLevel → List Text → ClearanceLevel
effective_clearance o effective [] = effective
effective_clearance o effective (role ∷ roles) =
    effective_clearance o (capped effective (lookup role o.ceilings)) roles

pub record DlpPolicy : Type 0 where
  pub allowed : List (DataClass × ProviderKind)

abbrev pub deny_all : DlpPolicy
deny_all = record { allowed = [] }

unfoldable pub allow_pair : DataClass → ProviderKind → DlpPolicy → DlpPolicy
allow_pair class provider p = record { allowed = set_insert (class, provider) p.allowed }

unfoldable pub can_send : DlpPolicy → DataClass → ProviderKind → Bool
can_send p class provider = contains p.allowed (class, provider)

pub record HostAllowlist : Type 0 where
  pub hosts : List Text

abbrev pub no_hosts : HostAllowlist
no_hosts = record { hosts = [] }

unfoldable pub allow_host : Text → HostAllowlist → HostAllowlist
allow_host host a = record { hosts = set_insert (map to_ascii_lower host) a.hosts }

unfoldable pub is_allowed : HostAllowlist → Text → Bool
is_allowed a host = contains a.hosts (map to_ascii_lower host)
