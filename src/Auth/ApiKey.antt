-- ===== src/Auth/ApiKey.antt =====
-- kanbrick-auth/src/apikey.rs: the keys of services. The database and the crate uuid are parameters;
-- a method is given the random values that it draws, and the identity of the session.
pub mod Rotate
pub mod Compare
pub mod Sound
pub mod Rotated
mod Tests
use Prim.Native.Nat.{bit_or, bit_xor}
use kanbrick_v.Common.{
  ℕ, Text, codes, List, [], ◌∷◌, ◌++◌, Bool, true, false, Option, none, some, nat_beq, text_beq,
  length, head?, if◌then◌else◌, Result, ok, err, ◌>>=◌, ok_or,
}
use kanbrick_v.Core.Clearance.{ClearanceLevel}
use kanbrick_v.Core.Context.{FirmContext, new_context, with_roles}
use kanbrick_v.Core.Error.{Error, auth}
use kanbrick_v.Grants.Store.{Nodes}
use kanbrick_v.SkillFile.{split_once}

pub record IssuedKey : Type 0 where
  pub key_id : ℕ
  pub secret : Text

-- A node `(:ApiKey)`
pub record KeyNode : Type 0 where
  pub key_id : Text
  pub key_hash : Text
  pub clearance : ClearanceLevel
  pub service : Text
  pub active : ℕ

-- The nodes of the keys, the hash of a text, ids as texts, and the id of a service's user.
pub record KeyStore (D : Type 0) : Type 0 where
  pub keys : Nodes D KeyNode
  pub query_hash : Text → Text
  pub uuid_text : ℕ → Text
  pub parse_uuid : Text → Option ℕ
  pub service_user : ℕ → ℕ
  pub firm_id : Text

-- The session id and the time that `FirmContext::new` draws.
pub record Session : Type 0 where
  pub session : ℕ
  pub now : ℕ

-- The loop of `constant_time_eq` over two texts of one length
unfoldable pub differences : ℕ → Text → Text → ℕ
differences diff (x ∷ a) (y ∷ b) = differences (bit_or diff (bit_xor x y)) a b
differences diff [] b = diff
differences diff (x ∷ a) [] = diff

unfoldable pub constant_time_eq : Text → Text → Bool
unfolding differences
constant_time_eq a b =
    if nat_beq (length a) (length b) then nat_beq (differences 0 a b) 0 else false

module _ {D : Type 0} (store : KeyStore D) where
  -- `split_once('.')` and `Uuid::parse_str`
  abbrev pub id_of : Option (Text × Text) → Option ℕ
  id_of none = none
  id_of (some (id, _)) = store.parse_uuid id

  abbrev pub secret_id : Text → Option ℕ
  secret_id secret = id_of (split_once b'.' secret)

  abbrev pub has_key : ℕ → KeyNode → Bool
  has_key key_id r = text_beq r.key_id (store.uuid_text key_id)

  abbrev pub issued_secret : ℕ → Text → Text
  issued_secret key_id random = store.uuid_text key_id ++ b'.' ∷ random

  abbrev pub issued_node : ℕ → Text → Text → ClearanceLevel → KeyNode
  issued_node key_id random service clearance = record {
    key_id = store.uuid_text key_id;
    key_hash = store.query_hash (issued_secret key_id random);
    clearance = clearance;
    service = service;
    active = 1;
  }

  abbrev pub service_context : Session → ℕ → KeyNode → FirmContext
  service_context s key_id row = with_roles (codes "service" ∷ []) (
      new_context store.firm_id s.session s.now (store.service_user key_id)
        (codes "service:" ++ row.service) row.clearance)

  -- `validate`, on the row of the key
  abbrev pub validate_row : Session → Text → ℕ → KeyNode → Result Error FirmContext
  validate_row s secret key_id row =
      if nat_beq row.active 0
      then err (auth (codes "api key has been revoked"))
      else if constant_time_eq (store.query_hash secret) row.key_hash
      then ok (service_context s key_id row)
      else err (auth (codes "api key secret mismatch"))

  unfoldable pub validate : Session → Text → D → Result Error FirmContext
  validate s secret d = do
    key_id ← ok_or (secret_id secret) (auth (codes "malformed api key"))
    rows ← store.keys.match_rows (has_key key_id) d
    row ← ok_or (head? rows) (auth (codes "unknown api key"))
    validate_row s secret key_id row
