-- ===== src/Auth/ApiKey/Rotate.antt =====
-- kanbrick-auth/src/apikey.rs, the methods that change the database.
use kanbrick_v.Common.{ℕ, Text, Result}
use kanbrick_v.Common.Action.{Action, ◌>>◌, pure, command}
use kanbrick_v.Core.Clearance.{ClearanceLevel}
use kanbrick_v.Core.Error.{Error}
use kanbrick_v.Auth.ApiKey.{IssuedKey, KeyStore, has_key, issued_secret, issued_node}

module _ {D : Type 0} (store : KeyStore D) where
  unfoldable pub issue : ℕ → Text → Text → ClearanceLevel → Action D Error IssuedKey
  issue key_id random service clearance = do
    command (store.keys.merge_row (issued_node store key_id random service clearance))
    pure (record { key_id = key_id; secret = issued_secret store key_id random })

  -- `SET a.active = 0`
  abbrev pub deactivate : ℕ → D → Result Error D
  deactivate key_id = store.keys.set_rows (has_key store key_id) (λ r. record r { active = 0 })

  unfoldable pub revoke_key : ℕ → Action D Error (Unit {0})
  revoke_key key_id = command (deactivate key_id)

  unfoldable pub rotate : ℕ → ℕ → Text → Text → ClearanceLevel → Action D Error IssuedKey
  unfolding revoke_key issue
  rotate key_id new_id random service clearance = do
    revoke_key key_id
    issue new_id random service clearance
