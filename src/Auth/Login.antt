-- ===== src/Auth/Login.antt =====
-- kanbrick-auth/src/login.rs and password.rs: passwords and the login. The database and the crates
-- argon2 and uuid are parameters.
pub mod Password
pub mod Sound
use kanbrick_v.Common.{
  ℕ, Text, codes, List, [], ◌∷◌, ◌++◌, Bool, true, false, Option, none, some, head?, text_beq,
  Result, ok, err, ◌>>=◌, ok_or,
}
use kanbrick_v.Core.Clearance.{ClearanceLevel}
use kanbrick_v.Core.Context.{FirmContext, new_context, with_roles}
use kanbrick_v.Core.Error.{Error, auth, internal}
use kanbrick_v.Grants.Store.{Nodes}
use kanbrick_v.Auth.ApiKey.{Session}
use kanbrick_v.Auth.Token.{TokenCrates, JwtAuthenticator, issue_token}

-- A node `(:Person)`, by the properties that a login reads
pub record PersonNode : Type 0 where
  pub email : Text
  pub clearance_level : ClearanceLevel
  pub password_hash : Option Text
  pub role : Option Text

-- The nodes of the persons; Argon2 with a salt, a stored hash as it is parsed, and its comparison
-- with a password; the id that an email gives in the namespace of the firm.
pub record PersonStore (D PasswordHash : Type 0) : Type 0 where
  pub persons : Nodes D PersonNode
  pub argon : Text → Text → Result Text Text
  pub parse_phc : Text → Result Text PasswordHash
  pub matches_phc : Text → PasswordHash → Bool
  pub user_id_for : Text → ℕ
  pub firm_id : Text

abbrev pub has_email : Text → PersonNode → Bool
has_email email p = text_beq p.email email

abbrev pub bad_login : Error
bad_login = auth (codes "invalid email or password")

abbrev pub hashed : Result Text Text → Result Error Text
hashed (ok h) = ok h
hashed (err e) = err (internal (codes "password hashing failed: " ++ e))

abbrev pub parsed_hash {ℓ} : {P : Type ℓ} → Result Text P → Result Error P
parsed_hash (ok p) = ok p
parsed_hash (err e) = err (internal (codes "stored password hash is malformed: " ++ e))

-- `if let Some(role) = row.role`
abbrev pub with_role : Option Text → FirmContext → FirmContext
with_role none ctx = ctx
with_role (some role) ctx = with_roles (role ∷ []) ctx

module _ {D PasswordHash : Type 0} (store : PersonStore D PasswordHash) where
  -- `hash_password`, with its salt
  unfoldable pub hash_password : Text → Text → Result Error Text
  hash_password salt plaintext = hashed (store.argon salt plaintext)

  unfoldable pub verify_password : Text → Text → Result Error Bool
  verify_password plaintext phc_hash = do
    parsed ← parsed_hash (store.parse_phc phc_hash)
    ok (store.matches_phc plaintext parsed)

  unfoldable pub lookup : Text → D → Result Error (Option PersonNode)
  lookup email d = do rows ← store.persons.match_rows (has_email email) d; ok (head? rows)

  abbrev pub login_context : Session → Text → PersonNode → FirmContext
  login_context s email row = with_role row.role (
      new_context store.firm_id s.session s.now (store.user_id_for email) email row.clearance_level)

  module _ {E K : Type 0} (crates : TokenCrates E K) (jwt : JwtAuthenticator E K) where
    -- `login` once the password is verified or not
    abbrev pub token_for : Session → Text → PersonNode → Bool → Result Error Text
    token_for s email row false = err bad_login
    token_for s email row true = issue_token crates jwt (login_context s email row)

    unfoldable pub login : Session → Text → Text → D → Result Error Text
    unfolding lookup verify_password issue_token
    login s email password d = do
      found ← lookup email d
      row ← ok_or found bad_login
      hash ← ok_or row.password_hash bad_login
      verified ← verify_password password hash
      token_for s email row verified
