-- ===== src/Auth/Token.antt =====
-- kanbrick-auth/src/jwt.rs: tokens, their claims, and the context that they carry. The crates
-- jsonwebtoken, chrono and uuid are parameters.
pub mod RoundTrip
use kanbrick_v.Common.{
  ℕ, ℤ, ◌+ℤ◌, Text, codes, List, ◌++◌, Bool, true, Option, none, some, Result, ok, err, ◌>>=◌,
  ok_or,
}
use kanbrick_v.Core.Clearance.{ClearanceLevel}
use kanbrick_v.Core.Context.{FirmContext}
use kanbrick_v.Core.Error.{Error, auth}

-- The payload; `iat` and `exp` are Unix seconds.
pub record Claims : Type 0 where
  pub sub : Text
  pub email : Text
  pub clearance : ClearanceLevel
  pub firm_id : Text
  pub roles : List Text
  pub sid : Text
  pub iat : ℤ
  pub exp : ℤ

pub data Algorithm : Type 0 where
  hs256 : Algorithm

-- `Validation`, by the options that `JwtAuthenticator::new` sets
pub record Validation : Type 0 where
  pub algorithm : Algorithm
  pub validate_exp : Bool
  pub leeway : ℕ

-- `ErrorKind` of jsonwebtoken, as far as it is told apart, and the text of another error.
pub data DecodeError : Type 0 where
  expired_signature invalid_signature : DecodeError
  other_error : Text → DecodeError

-- What the crates do: signing, and reading a token at a time in seconds; the seconds of an instant
-- and the instant at a second; ids as texts.
pub record TokenCrates (EncodingKey DecodingKey : Type 0) : Type 0 where
  pub encoding_key : Text → EncodingKey
  pub decoding_key : Text → DecodingKey
  pub encode : Algorithm → Claims → EncodingKey → Result Text Text
  pub decode : Text → DecodingKey → Validation → ℕ → Result DecodeError Claims
  pub timestamp : ℕ → ℤ
  pub timestamp_opt : ℤ → Option ℕ
  pub uuid_text : ℕ → Text
  pub parse_uuid : Text → Option ℕ

pub record JwtAuthenticator (EncodingKey DecodingKey : Type 0) : Type 0 where
  pub encoding : EncodingKey
  pub decoding : DecodingKey
  pub validation : Validation
  pub ttl : ℤ

-- `map_err` of a token that is not decoded
abbrev pub decode_error : DecodeError → Error
decode_error expired_signature = auth (codes "token has expired")
decode_error invalid_signature = auth (codes "token signature is invalid")
decode_error (other_error e) = auth (codes "invalid token: " ++ e)

abbrev pub decoded_claims : Result DecodeError Claims → Result Error Claims
decoded_claims (ok c) = ok c
decoded_claims (err e) = err (decode_error e)

abbrev pub signed : Result Text Text → Result Error Text
signed (ok t) = ok t
signed (err e) = err (auth (codes "failed to sign token: " ++ e))

module _ {EncodingKey DecodingKey : Type 0} (crates : TokenCrates EncodingKey DecodingKey) where
  -- `JwtAuthenticator::new`, with the time to live in seconds
  unfoldable pub new_authenticator : Text → ℤ → JwtAuthenticator EncodingKey DecodingKey
  new_authenticator secret ttl = record {
    encoding = crates.encoding_key secret;
    decoding = crates.decoding_key secret;
    validation = record { algorithm = hs256; validate_exp = true; leeway = 0 };
    ttl = ttl;
  }

  unfoldable pub from_context : FirmContext → ℤ → Claims
  from_context ctx ttl =
      let iat = crates.timestamp ctx.issued_at in
      record {
        sub = crates.uuid_text ctx.user_id;
        email = ctx.email;
        clearance = ctx.clearance;
        firm_id = ctx.firm_id;
        roles = ctx.roles;
        sid = crates.uuid_text ctx.session_id;
        iat = iat;
        exp = iat +ℤ ttl;
      }

  unfoldable pub into_context : Claims → Result Error FirmContext
  into_context claims = do
    user_id ← ok_or (crates.parse_uuid claims.sub) (auth (codes "token subject is not a valid id"))
    session_id ← ok_or (crates.parse_uuid claims.sid) (auth (codes "token session id is invalid"))
    issued_at ←
        ok_or (crates.timestamp_opt claims.iat) (auth (codes "token issued-at is out of range"))
    ok (record {
      user_id = user_id;
      email = claims.email;
      clearance = claims.clearance;
      firm_id = claims.firm_id;
      roles = claims.roles;
      session_id = session_id;
      issued_at = issued_at;
    })

  unfoldable pub issue_token :
      JwtAuthenticator EncodingKey DecodingKey → FirmContext → Result Error Text
  unfolding from_context
  issue_token jwt ctx = signed (crates.encode hs256 (from_context ctx jwt.ttl) jwt.encoding)

  -- `validate`, at a time in seconds
  unfoldable pub validate_token :
      JwtAuthenticator EncodingKey DecodingKey → ℕ → Text → Result Error FirmContext
  unfolding into_context
  validate_token jwt now token = do
    claims ← decoded_claims (crates.decode token jwt.decoding jwt.validation now)
    into_context claims
