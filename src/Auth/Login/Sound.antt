-- ===== src/Auth/Login/Sound.antt =====
-- kanbrick-auth/src/login.rs: who gets a token, and what a password that was set is good for.
use kanbrick_v.Common.{
  Text, List, map, retain, head?, Bool, true, false, Bool-cases, Option, none, some, ok_or, Result,
  ok, err, >>=-eq-ok, ok_injective, ok_ne_err, if◌then◌else◌, ◌≡◌, refl, sym, ap, ◌∙◌, inl, inr, [],
  ◌∷◌,
}
use kanbrick_v.Common.Action.{bind_ok, command, command_ok}
use kanbrick_v.Core.Error.{Error}
use kanbrick_v.Auth.ApiKey.{Session}
use kanbrick_v.Auth.Token.{TokenCrates, JwtAuthenticator, issue_token}
use kanbrick_v.Auth.Login.{
  PersonNode, PersonStore, has_email, bad_login, hashed, hash_password, verify_password, lookup,
  login_context, token_for, login,
}
use kanbrick_v.Auth.Login.Password.{
  store_hash, found_or, look_again, confirm, write_hash, hashing, set_password,
}

-- What the login relies on: a command that succeeds reads or writes the nodes that its pattern names,
-- and a password matches its own hash.
pub record PersonLaws {D PasswordHash : Type 0} (store : PersonStore D PasswordHash)
    (nodes : D → List PersonNode) : Type 0 where
  pub matched :
      (p : PersonNode → Bool) (d : D) (rows : List PersonNode)
      → store.persons.match_rows p d ≡ ok rows
      → rows ≡ retain p (nodes d)
  pub changed :
      (p : PersonNode → Bool) (f : PersonNode → PersonNode) (d d' : D)
      → store.persons.set_rows p f d ≡ ok d'
      → nodes d' ≡ map (λ r. if p r then f r else r) (nodes d)
  pub own_hash :
      (salt password hash : Text)
      → store.argon salt password ≡ ok hash
      → (parsed : PasswordHash) × (store.parse_phc hash ≡ ok parsed)
        × (store.matches_phc password parsed ≡ true)

abbrev with_hash : Text → Option PersonNode → Option PersonNode
with_hash hash none = none
with_hash hash (some r) = some (record r { password_hash = some hash })

module _ {D PasswordHash : Type 0} (store : PersonStore D PasswordHash)
    (nodes : D → List PersonNode) (laws : PersonLaws store nodes) where
  -- The node that answers for an email.
  abbrev pub person_of : Text → D → Option PersonNode
  person_of email d = head? (retain (has_email email) (nodes d))

  found : {A : Type 0} (o : Option A) (e : Error) (a : A) → ok_or o e ≡ ok a → o ≡ some a
  found none e a h = absurd (ok_ne_err (sym h))
  found (some x) e a h = ap some (ok_injective h)

  lookup_inv :
      (email : Text) (d : D) (o : Option PersonNode)
      → lookup store email d ≡ ok o
      → o ≡ person_of email d
  unfolding lookup
  lookup_inv email d o h =
      let (rows, e, k) = >>=-eq-ok (store.persons.match_rows (has_email email) d) _ h in
      sym (ok_injective k) ∙ ap head? (laws.matched (has_email email) d rows e)

  module _ {E K : Type 0} (crates : TokenCrates E K) (jwt : JwtAuthenticator E K) where
    verified_inv :
        (s : Session) (email token : Text) (row : PersonNode) (b : Bool)
        → token_for store crates jwt s email row b ≡ ok token
        → (b ≡ true) × (issue_token crates jwt (login_context store s email row) ≡ ok token)
    verified_inv s email token row true h = (refl, h)
    verified_inv s email token row false h = absurd (ok_ne_err (sym h))

    -- A login that gives a token found the person on record, with a stored hash that the password
    -- matches; the token was issued for that person's email, clearance and role.
    pub login_sound :
        (s : Session) (email password token : Text) (d : D)
        → login store crates jwt s email password d ≡ ok token
        → (row : PersonNode) × (hash : Text) × (person_of email d ≡ some row)
          × (row.password_hash ≡ some hash)
          × (verify_password store password hash ≡ ok true)
          × (issue_token crates jwt (login_context store s email row) ≡ ok token)
    unfolding login
    login_sound s email password token d h =
        let (o, e1, h1) = >>=-eq-ok (lookup store email d) _ h in
        let (row, e2, h2) = >>=-eq-ok (ok_or o bad_login) _ h1 in
        let (hash, e3, h3) = >>=-eq-ok (ok_or row.password_hash bad_login) _ h2 in
        let (b, e4, h4) = >>=-eq-ok (verify_password store password hash) _ h3 in
        let (good, issued) = verified_inv s email token row b h4 in
        (
          row,
          hash,
          sym (lookup_inv email d o e1) ∙ found o bad_login row e2,
          found row.password_hash bad_login hash e3,
          e4 ∙ ap ok good,
          issued,
        )

  -- The first person of an email, after the hash of the email's persons was set.
  first_set :
      (email hash : Text) (rows : List PersonNode)
      → head? (
          retain (has_email email) (
            map
              (λ r. if has_email email r then record r { password_hash = some hash } else r)
              rows))
        ≡ with_hash hash (head? (retain (has_email email) rows))
  first_set email hash [] = refl
  first_set email hash (r ∷ rows) = elim (Bool-cases (has_email email r)) [
    | inl mine ↦ rw (mine, mine)
    | inr other ↦ rw (other, other) (first_set email hash rows)
  ]

  hashed_inv : (r : Result Text Text) (h : Text) → hashed r ≡ ok h → r ≡ ok h
  hashed_inv (ok x) h e = ap ok (ok_injective e)
  hashed_inv (err x) h e = absurd (ok_ne_err (sym e))

  set_inv :
      (hash : Text) (o : Option PersonNode) (row : PersonNode)
      → with_hash hash o ≡ some row
      → (r : PersonNode) × (o ≡ some r) × (record r { password_hash = some hash } ≡ row)
  set_inv hash none row h = cc
  set_inv hash (some r) row h = (r, refl, cc)

  found_inv :
      (email : Text) (o : Option PersonNode) (d d' : D) (u : Unit {0})
      → found_or email o d ≡ (ok u, d')
      → (row : PersonNode) × (o ≡ some row) × (d ≡ d')
  found_inv email none d d' u h = absurd (ok_ne_err (sym (ap (λ p. p.0) h)))
  found_inv email (some row) d d' u h = (row, refl, ap (λ p. p.1) h)

  verifies :
      (salt password hash : Text)
      → hash_password store salt password ≡ ok hash
      → verify_password store password hash ≡ ok true
  unfolding hash_password verify_password
  verifies salt password hash h =
      let (parsed, read, same) =
        laws.own_hash salt password hash (hashed_inv (store.argon salt password) hash h) in
      rw (read, same)

  logs_in :
      {E K : Type 0} (crates : TokenCrates E K) (jwt : JwtAuthenticator E K) (s : Session)
      (email password hash : Text) (d : D) (row : PersonNode)
      → lookup store email d ≡ ok (some (record row { password_hash = some hash }))
      → verify_password store password hash ≡ ok true
      → login store crates jwt s email password d
        ≡ issue_token crates jwt (login_context store s email row)
  unfolding login
  logs_in crates jwt s email password hash d row looked verified = rw (looked, verified)

  -- After a password was set for an email, a login with it is the issue of a token for the person
  -- who had the email before, with the clearance and the role that were on record.
  pub login-set_password :
      {E K : Type 0} (crates : TokenCrates E K) (jwt : JwtAuthenticator E K) (s : Session)
      (salt email password : Text) (d d' : D) (u : Unit {0})
      → set_password store salt email password d ≡ (ok u, d')
      → (row : PersonNode) × (person_of email d ≡ some row)
        × (login store crates jwt s email password d'
            ≡ issue_token crates jwt (login_context store s email row))
  unfolding set_password login
  login-set_password crates jwt s salt email password d d' u h =
      let (hash, d0, e1, h1) =
        bind_ok (hashing store salt password) (write_hash store email) d d' u h in
      let (v, d1, e2, h2) =
        bind_ok (command (store_hash store email hash)) (λ _. confirm store email) d0 d' u h1 in
      let (o, d2, e3, h3) = bind_ok (look_again store email) (found_or email) d1 d' u h2 in
      let (row', e4, here) = found_inv email o d2 d' u h3 in
      let start : d ≡ d0 = ap (λ p. p.1) e1 in
      let end_state : d1 ≡ d' = ap (λ p. p.1) e3 ∙ here in
      let looked : lookup store email d1 ≡ ok (some row') = ap (λ p. p.0) e3 ∙ ap ok e4 in
      let changed =
        laws.changed (has_email email) _ d0 d1
          (command_ok (store_hash store email hash) d0 d1 v e2) in
      let now : person_of email d1 ≡ some row' = sym (lookup_inv email d1 (some row') looked) in
      let before : with_hash hash (person_of email d0) ≡ some row' =
        sym (first_set email hash (nodes d0))
        ∙ ap (λ n. head? (retain (has_email email) n)) (sym changed)
        ∙ now in
      let (row, was, is) = set_inv hash (person_of email d0) row' before in
      (
        row,
        ap (person_of email) start ∙ was,
        ap (login store crates jwt s email password) (sym end_state)
            ∙ logs_in crates jwt s email password hash d1 row
                (looked ∙ ap (λ r. ok (some r)) (sym is))
                (verifies salt password hash (ap (λ p. p.0) e1)),
      )
