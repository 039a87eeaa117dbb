-- ===== src/Auth/Samples/Tests.antt =====
-- kanbrick-auth/src/login.rs and jwt.rs: a password that is set, a login, and requests with its token.
use kanbrick_v.Common.{
  ◌≤◌, ◌<◌, Text, codes, List, [], ◌∷◌, ◌++◌, map, retain, Bool, true, false, none, some, text_beq,
  text_beq_iff, pos, ◌+ℤ◌, Result, ok, err, ok_injective, if◌then◌else◌, ◌≡◌, ◌↔◌, refl, sym, arith,
}
use kanbrick_v.Core.Clearance.{l4, l5, satisfies}
use kanbrick_v.Core.Context.{FirmContext, with_roles, new_context}
use kanbrick_v.Core.Error.{Error, auth, not_found}
use kanbrick_v.Auth.ApiKey.{Session}
use kanbrick_v.Auth.Token.{new_authenticator, issue_token, validate_token}
use kanbrick_v.Auth.Token.RoundTrip.{carried, validate_token-issue_token}
use kanbrick_v.Auth.Login.{PersonNode, PersonStore, verify_password, login_context, login}
use kanbrick_v.Auth.Login.Password.{set_password}
use kanbrick_v.Auth.Login.Sound.{PersonLaws, person_of, login-set_password}
use kanbrick_v.Auth.Requests.{me, admin, from_request_parts, login_request}
use kanbrick_v.Auth.Requests.Admitted.{login_then_request}
use kanbrick_v.Auth.Samples.Crates.{plain, plain-TokenLaws}

abbrev matches : Text → Text → Bool
matches password [] = false
matches password (c ∷ hash) = text_beq password hash

abbrev people : PersonStore (List PersonNode) Text
people = record {
  persons = record {
    match_rows = λ p d. ok (retain p d);
    set_rows = λ p f d. ok (map (λ r. if p r then f r else r) d);
    merge_row = λ r d. ok (d ++ r ∷ []);
  };
  argon = λ salt password. ok (b'$' ∷ password);
  parse_phc = λ t. ok t;
  matches_phc = matches;
  user_id_for = λ t. 7;
  firm_id = codes "kanbrick";
}

people-PersonLaws : PersonLaws people (λ d. d)
people-PersonLaws = record {
  matched = λ p d rows e. sym (ok_injective e);
  changed = λ p f d d' e. sym (ok_injective e);
  own_hash =
      λ salt password hash e. (b'$' ∷ password, sym e, (text_beq_iff password password).1 refl);
}

abbrev ceo : PersonNode
ceo = record {
  email = codes "t@k";
  clearance_level = l5;
  password_hash = none;
  role = some (codes "ceo");
}

abbrev with_password : PersonNode
with_password = record ceo { password_hash = some (codes "$pw") }

abbrev session : Session
session = record { session = 1; now = 100 }

abbrev context : FirmContext
context = login_context people session (codes "t@k") with_password

abbrev token : Text
token = token_text (issue_token plain (new_authenticator plain (codes "k") (pos 60)) context)
  where
    token_text : Result Error Text → Text
    token_text (ok t) = t
    token_text (err _) = []

password_set :
    set_password people (codes "salt") (codes "t@k") (codes "pw") (ceo ∷ [])
    ≡ (ok tt, with_password ∷ [])
unfolding set_password text_beq
password_set = refl

nobody :
    set_password people (codes "salt") (codes "x@k") (codes "pw") (ceo ∷ [])
    ≡ (err (not_found (codes "no person with email x@k")), ceo ∷ [])
unfolding set_password text_beq
nobody = refl

wrong_password :
    login people plain
      (new_authenticator plain (codes "k") (pos 60))
      session
      (codes "t@k")
      (codes "no")
      (with_password ∷ [])
    ≡ err (auth (codes "invalid email or password"))
unfolding login text_beq
wrong_password = refl

issued : issue_token plain (new_authenticator plain (codes "k") (pos 60)) context ≡ ok token
unfolding issue_token new_authenticator
issued = refl

until : plain.timestamp context.issued_at +ℤ pos 60 ≡ pos 160
unfolding with_roles new_context
until = refl

validate_token-issue_token_example :
    (130 ≤ 160
      → validate_token plain (new_authenticator plain (codes "k") (pos 60)) 130 token
        ≡ ok (carried plain (λ t. t) plain-TokenLaws context))
    × (160 < 130
        → validate_token plain (new_authenticator plain (codes "k") (pos 60)) 130 token
          ≡ err (auth (codes "token has expired")))
validate_token-issue_token_example =
    validate_token-issue_token plain (λ t. t) plain-TokenLaws (codes "k") token (pos 60) context 160
      130 issued until

login-set_password_example :
    (row : PersonNode) × (person_of people (λ d. d) people-PersonLaws (codes "t@k") (ceo ∷ [])
      ≡ some row)
    × (login people plain
          (new_authenticator plain (codes "k") (pos 60))
          session
          (codes "t@k")
          (codes "pw")
          (with_password ∷ [])
        ≡ issue_token plain
            (new_authenticator plain (codes "k") (pos 60))
            (login_context people session (codes "t@k") row))
login-set_password_example =
    login-set_password people (λ d. d) people-PersonLaws plain
      (new_authenticator plain (codes "k") (pos 60)) session (codes "salt") (codes "t@k")
      (codes "pw") (ceo ∷ []) (with_password ∷ []) tt password_set

logged_in :
    login_request plain
      (new_authenticator plain (codes "k") (pos 60))
      people
      session
      (codes "t@k")
      (codes "pw")
      (with_password ∷ [])
    ≡ ok token
unfolding login_request issue_token new_authenticator text_beq
logged_in = refl

login_then_request_example :
    (row : PersonNode) × (hash : Text) × (person_of people
        (λ d. d)
        people-PersonLaws
        (codes "t@k")
        (with_password ∷ [])
      ≡ some row)
    × (row.password_hash ≡ some hash)
    × (verify_password people (codes "pw") hash ≡ ok true)
    × (from_request_parts plain
          (new_authenticator plain (codes "k") (pos 60))
          130
          (some (codes "Bearer " ++ token))
        ≡ ok (
            carried plain
              (λ t. t)
              plain-TokenLaws
              (login_context people session (codes "t@k") row)))
    × ((admin (
            carried plain (λ t. t) plain-TokenLaws (login_context people session (codes "t@k") row))
          ≡ ok (
              me (
                carried plain
                  (λ t. t)
                  plain-TokenLaws
                  (login_context people session (codes "t@k") row))))
        ↔ (satisfies row.clearance_level l4 ≡ true))
login_then_request_example =
    login_then_request plain (λ t. t) plain-TokenLaws people (λ d. d) people-PersonLaws (codes "k")
      (pos 60) session (codes "t@k") (codes "pw") token (with_password ∷ []) 160 130 logged_in refl
      (omega arith)
