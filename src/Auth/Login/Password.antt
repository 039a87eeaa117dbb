-- ===== src/Auth/Login/Password.antt =====
-- kanbrick-auth/src/login.rs, `set_password`.
use kanbrick_v.Common.{Text, codes, ◌++◌, Option, none, some, Result}
use kanbrick_v.Common.Action.{Action, ◌>>=◌, ◌>>◌, pure, raise, command}
use kanbrick_v.Core.Error.{Error, not_found}
use kanbrick_v.Auth.Login.{PersonNode, PersonStore, has_email, hash_password, lookup}

abbrev pub found_or {ℓ} : {P : Type ℓ} {S : Type 0} → Text → Option P → Action S Error (Unit {0})
found_or email none = raise (not_found (codes "no person with email " ++ email))
found_or email (some _) = pure tt

module _ {D PasswordHash : Type 0} (store : PersonStore D PasswordHash) where
  -- `SET p.password_hash = $hash`
  abbrev pub store_hash : Text → Text → D → Result Error D
  store_hash email hash =
      store.persons.set_rows (has_email email) (λ p. record p { password_hash = some hash })

  -- The lookup that follows the statement.
  abbrev pub look_again : Text → Action D Error (Option PersonNode)
  look_again email d = (lookup store email d, d)

  abbrev pub confirm : Text → Action D Error (Unit {0})
  confirm email = do found ← look_again email; found_or email found

  -- `set_password` from the statement on
  abbrev pub write_hash : Text → Text → Action D Error (Unit {0})
  write_hash email hash = do command (store_hash email hash); confirm email

  abbrev pub hashing : Text → Text → Action D Error Text
  hashing salt password d = (hash_password store salt password, d)

  -- `set_password`, with the salt that it draws
  unfoldable pub set_password : Text → Text → Text → Action D Error (Unit {0})
  unfolding hash_password lookup
  set_password salt email password = do hash ← hashing salt password; write_hash email hash
