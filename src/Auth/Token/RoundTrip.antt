-- ===== src/Auth/Token/RoundTrip.antt =====
-- kanbrick-auth/src/jwt.rs: a token that was issued, while it lasts and after.
use kanbrick_v.Common.{
  ℕ, ℤ, pos, ◌+◌, ◌≤◌, ◌<◌, ◌+ℤ◌, Text, codes, true, some, Result, ok, err, ◌≡◌, refl, sym, ap,
  arith, ok_injective, ok_ne_err,
}
use kanbrick_v.Core.Context.{FirmContext}
use kanbrick_v.Core.Error.{auth}
use kanbrick_v.Auth.Token.{
  Claims, Validation, expired_signature, hs256, TokenCrates, signed, new_authenticator,
  from_context, into_context, issue_token, validate_token,
}

-- What the tokens rely on: a token is read back with the same secret and algorithm until its expiry
-- and the leeway are over, and is expired then; an id is read back from its text; an instant loses
-- its fraction of a second.
pub record TokenLaws {EncodingKey DecodingKey : Type 0}
    (crates : TokenCrates EncodingKey DecodingKey) (whole_second : ℕ → ℕ) : Type 0 where
  pub in_time :
      (secret token : Text) (c : Claims) (v : Validation) (e now : ℕ)
      → crates.encode v.algorithm c (crates.encoding_key secret) ≡ ok token
      → c.exp ≡ pos e
      → now ≤ e + v.leeway
      → crates.decode token (crates.decoding_key secret) v now ≡ ok c
  pub too_late :
      (secret token : Text) (c : Claims) (v : Validation) (e now : ℕ)
      → crates.encode v.algorithm c (crates.encoding_key secret) ≡ ok token
      → c.exp ≡ pos e
      → v.validate_exp ≡ true
      → e + v.leeway < now
      → crates.decode token (crates.decoding_key secret) v now ≡ err expired_signature
  pub read_back : (id : ℕ) → crates.parse_uuid (crates.uuid_text id) ≡ some id
  pub second : (t : ℕ) → crates.timestamp_opt (crates.timestamp t) ≡ some (whole_second t)

module _ {EncodingKey DecodingKey : Type 0} (crates : TokenCrates EncodingKey DecodingKey)
    (whole_second : ℕ → ℕ) (laws : TokenLaws crates whole_second) where
  abbrev pub carried : FirmContext → FirmContext
  carried ctx = record ctx { issued_at = whole_second ctx.issued_at }

  into_context-from_context :
      (ctx : FirmContext) (ttl : ℤ)
      → into_context crates (from_context crates ctx ttl) ≡ ok (carried ctx)
  unfolding into_context from_context
  into_context-from_context ctx ttl =
      rw (laws.read_back ctx.user_id, laws.read_back ctx.session_id, laws.second ctx.issued_at)

  signed_inv : (r : Result Text Text) (t : Text) → signed r ≡ ok t → r ≡ ok t
  signed_inv (ok x) t h = ap ok (ok_injective h)
  signed_inv (err x) t h = absurd (ok_ne_err (sym h))

  -- A token that was issued for a context, with an expiry that is not before 1970, gives the context
  -- back up to its expiry, but for the fraction of the second at which it was issued, and is refused
  -- as expired after it.
  pub validate_token-issue_token :
      (secret token : Text) (ttl : ℤ) (ctx : FirmContext) (e now : ℕ)
      → issue_token crates (new_authenticator crates secret ttl) ctx ≡ ok token
      → crates.timestamp ctx.issued_at +ℤ ttl ≡ pos e
      → (now ≤ e
          → validate_token crates (new_authenticator crates secret ttl) now token
            ≡ ok (carried ctx))
        × (e < now
            → validate_token crates (new_authenticator crates secret ttl) now token
              ≡ err (auth (codes "token has expired")))
  unfolding issue_token validate_token new_authenticator from_context
  validate_token-issue_token secret token ttl ctx e now issued expires =
      let claims = from_context crates ctx ttl in
      let options : Validation = record { algorithm = hs256; validate_exp = true; leeway = 0 } in
      let sent =
        signed_inv (crates.encode hs256 claims (crates.encoding_key secret)) token issued in
      (
        λ early.
            rw (laws.in_time secret token claims options e now sent expires (omega arith))
              (into_context-from_context ctx ttl),
        λ late.
            rw (laws.too_late secret token claims options e now sent expires refl (omega arith)),
      )
