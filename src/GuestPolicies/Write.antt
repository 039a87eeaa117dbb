-- ===== src/GuestPolicies/Write.antt =====
-- kanbrick-store/src/guest_policy.rs, `write_guest_policy`.
use kanbrick_v.Common.{some}
use kanbrick_v.Common.Action.{Action, ◌>>◌, command}
use kanbrick_v.Core.Clearance.{display}
use kanbrick_v.Core.Error.{Error}
use kanbrick_v.GuestPolicies.{GuestPolicy, PolicyNode, PolicyStore, named}

-- The properties that the second statement sets.
abbrev pub with_policy : GuestPolicy → PolicyNode → PolicyNode
with_policy p r = record r {
  version = some p.version;
  min_clearance = some (display p.min_clearance);
  asset_uri = some p.asset_uri;
  source = some p.source;
  created_at = some p.created_at;
}

unfoldable pub write_guest_policy :
    {D : Type 0} → PolicyStore D → GuestPolicy → Action D Error (Unit {0})
write_guest_policy store p = do
  command (store.merge_key p.guest_name)
  command (store.set_rows (named p.guest_name) (with_policy p))
