-- ===== src/Caps/Tests.antt =====
-- A capability that is minted beside another.
use kanbrick_v.Common.{codes, [], ◌∷◌}
use kanbrick_v.Core.Clearance.{l3}
use kanbrick_v.Core.Context.{FirmContext}
use kanbrick_v.Caps.{InvocationCaps}

abbrev caller : FirmContext
caller = record {
  user_id = 1;
  email = codes "ann";
  clearance = l3;
  firm_id = codes "kanbrick";
  roles = [];
  session_id = 2;
  issued_at = 3;
}

abbrev old_caps : InvocationCaps
old_caps = (codes "old", record { ctx = caller; expires_at = 5 }) ∷ []
