-- ===== src/GuestPolicies.antt =====
-- kanbrick-store/src/guest_policy.rs: the policies of guests. The database and the deserialization of
-- its rows are parameters.
pub mod Write
pub mod Upsert
mod Tests
use kanbrick_v.Common.{
  Text, codes, List, [], ◌∷◌, ◌++◌, Bool, true, Option, none, some, head?, text_beq, Result, ok,
  err, ◌>>=◌,
}
use kanbrick_v.Core.Clearance.{ClearanceLevel}
use kanbrick_v.Core.Error.{Error, query}

pub record GuestPolicy : Type 0 where
  pub guest_name : Text
  pub version : Text
  pub min_clearance : ClearanceLevel
  pub asset_uri : Text
  pub source : Text
  pub created_at : Text

-- A node `(:GuestPolicy)`; a property that was never set is absent.
pub record PolicyNode : Type 0 where
  pub guest_name : Text
  pub version : Option Text
  pub min_clearance : Option Text
  pub asset_uri : Option Text
  pub source : Option Text
  pub created_at : Option Text

abbrev pub source_embedded : Text
source_embedded = codes "embedded"

abbrev pub source_registry : Text
source_registry = codes "registry"

-- `GuestPolicy::new`, with the time that it stamps
unfoldable pub new_policy : Text → Text → Text → ClearanceLevel → Text → Text → GuestPolicy
new_policy now guest_name version min_clearance asset_uri source = record {
  guest_name = guest_name;
  version = version;
  min_clearance = min_clearance;
  asset_uri = asset_uri;
  source = source;
  created_at = now;
}

unfoldable pub is_registry : GuestPolicy → Bool
is_registry p = text_beq p.source source_registry

-- The statements on the nodes: `MERGE` on the key alone, `MATCH … SET`, and `MATCH`; a clearance as
-- serde reads it, and the message on a row that is not deserialized.
pub record PolicyStore (D : Type 0) : Type 0 where
  pub merge_key : Text → D → Result Error D
  pub set_rows : (PolicyNode → Bool) → (PolicyNode → PolicyNode) → D → Result Error D
  pub match_rows : (PolicyNode → Bool) → D → Result Error (List PolicyNode)
  pub read_level : Text → Option ClearanceLevel
  pub row_error : PolicyNode → Text

abbrev pub named : Text → PolicyNode → Bool
named name r = text_beq r.guest_name name

module _ {D : Type 0} (store : PolicyStore D) where
  abbrev level_field : Option Text → Option ClearanceLevel
  level_field none = none
  level_field (some t) = store.read_level t

  abbrev fields :
      Text
      → Option Text
      → Option ClearanceLevel
      → Option Text
      → Option Text
      → Option Text
      → Option GuestPolicy
  fields name (some version) (some level) (some uri) (some source) (some created) = some (record {
    guest_name = name;
    version = version;
    min_clearance = level;
    asset_uri = uri;
    source = source;
    created_at = created;
  })
  fields name _ _ _ _ _ = none

  abbrev or_row_error : PolicyNode → Option GuestPolicy → Result Error GuestPolicy
  or_row_error r none = err (query (codes "row deserialization failed: " ++ store.row_error r))
  or_row_error r (some p) = ok p

  abbrev pub typed_policy : PolicyNode → Result Error GuestPolicy
  typed_policy r = or_row_error r (
      fields r.guest_name r.version (level_field r.min_clearance) r.asset_uri r.source r.created_at)

  unfoldable pub typed_policies : List PolicyNode → Result Error (List GuestPolicy)
  typed_policies [] = ok []
  typed_policies (r ∷ rows) = do p ← typed_policy r; out ← typed_policies rows; ok (p ∷ out)

  unfoldable pub read_guest_policy : Text → D → Result Error (Option GuestPolicy)
  unfolding typed_policies
  read_guest_policy name d = do
    rows ← store.match_rows (named name) d
    policies ← typed_policies rows
    ok (head? policies)

  unfoldable pub list_guest_policies : D → Result Error (List GuestPolicy)
  unfolding typed_policies
  list_guest_policies d = do rows ← store.match_rows (λ _. true) d; typed_policies rows
