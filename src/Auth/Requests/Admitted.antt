-- ===== src/Auth/Requests/Admitted.antt =====
-- kanbrick-api/src/lib.rs: from a login to the requests that its token is sent with.
use kanbrick_v.Common.{
  ℕ, ℤ, pos, ◌≤◌, ◌+ℤ◌, Text, codes, List, ◌++◌, true, false, Bool-cases, some, Result, ok, err,
  arith, ok_injective, ok_ne_err, ◌≡◌, ◌↔◌, sym, ap, subst, ◌∙◌, inl, inr,
}
use kanbrick_v.Core.Clearance.{satisfies, l4}
use kanbrick_v.Core.Context.{FirmContext, has_clearance, new_context, with_roles}
use kanbrick_v.Core.Error.{Error, access_denied}
use kanbrick_v.Skills.Routes.{from_error}
use kanbrick_v.Auth.ApiKey.{Session}
use kanbrick_v.Auth.Token.{TokenCrates, JwtAuthenticator, new_authenticator, validate_token}
use kanbrick_v.Auth.Token.RoundTrip.{TokenLaws, carried, validate_token-issue_token}
use kanbrick_v.Auth.Login.{PersonNode, PersonStore, verify_password, login_context, login}
use kanbrick_v.Auth.Login.Sound.{PersonLaws, person_of, login_sound}
use kanbrick_v.Auth.Requests.{
  api_result, strip_prefix, require_clearance, me, admin, from_request_parts, login_request,
}

api_result_inv : {A : Type 0} (r : Result Error A) (a : A) → api_result r ≡ ok a → r ≡ ok a
api_result_inv (ok x) a h = ap ok (ok_injective h)
api_result_inv (err x) a h = absurd (ok_ne_err (sym h))

admin_iff : (ctx : FirmContext) → (admin ctx ≡ ok (me ctx)) ↔ (satisfies ctx.clearance l4 ≡ true)
unfolding admin require_clearance has_clearance
admin_iff ctx = elim (Bool-cases (satisfies ctx.clearance l4)) [
  | inl high ↦ (λ _. high, λ _. rw high)
  | inr low ↦ (λ h. absurd (refused low h), λ high. absurd (low_high (sym high ∙ low)))
]
  where
    low_high : true ≡ false → ⊥
    low_high e = cc

    refused : satisfies ctx.clearance l4 ≡ false → admin ctx ≡ ok (me ctx) → ⊥
    refused low h = ok_ne_err {e = from_error (access_denied l4 ctx.clearance)} (sym h ∙ rw low)

module _ {E K : Type 0} (crates : TokenCrates E K) (whole_second : ℕ → ℕ)
    (tokens : TokenLaws crates whole_second) {D P : Type 0} (store : PersonStore D P)
    (nodes : D → List PersonNode) (people : PersonLaws store nodes) where
  bears :
      (jwt : JwtAuthenticator E K) (now : ℕ) (token : Text) (ctx : FirmContext)
      → validate_token crates jwt now token ≡ ok ctx
      → from_request_parts crates jwt now (some (codes "Bearer " ++ token)) ≡ ok ctx
  unfolding from_request_parts strip_prefix
  bears jwt now token ctx h = rw h

  -- What the context of a login has of its session and of the person.
  context_facts :
      (s : Session) (email : Text) (row : PersonNode)
      → ((login_context store s email row).issued_at ≡ s.now)
        × ((login_context store s email row).clearance ≡ row.clearance_level)
  unfolding new_context with_roles
  context_facts s email row = ground arith

  -- Whoever logs in has the password of a person on record; up to its expiry the token makes every
  -- request that bears it one of that person, with the email, the clearance and the role on record,
  -- and the admin route lets it pass if and only if the person's clearance is at least L4.
  pub login_then_request :
      (secret : Text) (ttl : ℤ) (s : Session) (email password token : Text) (d : D) (e now : ℕ)
      → login_request crates (new_authenticator crates secret ttl) store s email password d
        ≡ ok token
      → crates.timestamp s.now +ℤ ttl ≡ pos e
      → now ≤ e
      → (row : PersonNode) × (hash : Text) × (person_of store nodes people email d ≡ some row)
        × (row.password_hash ≡ some hash)
        × (verify_password store password hash ≡ ok true)
        × (from_request_parts crates
              (new_authenticator crates secret ttl)
              now
              (some (codes "Bearer " ++ token))
            ≡ ok (carried crates whole_second tokens (login_context store s email row)))
        × ((admin (carried crates whole_second tokens (login_context store s email row))
              ≡ ok (me (carried crates whole_second tokens (login_context store s email row))))
            ↔ (satisfies row.clearance_level l4 ≡ true))
  unfolding login_request
  login_then_request secret ttl s email password token d e now h expires early =
      let jwt = new_authenticator crates secret ttl in
      let (row, hash, found, stored, good, issued) =
        login_sound store nodes people crates jwt s email password token d
          (api_result_inv (login store crates jwt s email password d) token h) in
      let ctx = login_context store s email row in
      let (at, level) = context_facts s email row in
      let back =
        (validate_token-issue_token crates whole_second tokens secret token ttl ctx e now issued
            (ap (λ t. crates.timestamp t +ℤ ttl) at ∙ expires)).0
          early in
      (
        row,
        hash,
        found,
        stored,
        good,
        bears jwt now token (carried crates whole_second tokens ctx) back,
        subst
            (λ c.
              (admin (carried crates whole_second tokens ctx)
                ≡ ok (me (carried crates whole_second tokens ctx)))
              ↔ (satisfies c l4 ≡ true))
            level (admin_iff (carried crates whole_second tokens ctx)),
      )
