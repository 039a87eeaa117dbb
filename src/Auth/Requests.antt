-- ===== src/Auth/Requests.antt =====
-- kanbrick-api/src/lib.rs: the extractor that authenticates a request, and the handlers of `/login`,
-- `/me` and `/admin`; kanbrick-auth/src/clearance.rs, the gate on a clearance.
pub mod Admitted
use kanbrick_v.Common.{
  ℕ, Text, codes, List, [], ◌∷◌, Bool, true, false, nat_beq, Option, none, some, Result, ok, err,
  ◌>>=◌, ◌>>◌, ok_or, if◌then◌else◌,
}
use kanbrick_v.Core.Clearance.{ClearanceLevel, l4}
use kanbrick_v.Core.Context.{FirmContext, has_clearance}
use kanbrick_v.Core.Error.{Error, access_denied}
use kanbrick_v.Skills.Routes.{ApiError, api_error, from_error}
use kanbrick_v.Auth.ApiKey.{Session}
use kanbrick_v.Auth.Token.{TokenCrates, JwtAuthenticator, validate_token}
use kanbrick_v.Auth.Login.{PersonStore}
use kanbrick_v.Auth.Login as Login

pub record MeResponse : Type 0 where
  pub email : Text
  pub clearance : ClearanceLevel
  pub roles : List Text

abbrev pub unauthorized_error : Text → ApiError
unauthorized_error message = api_error 401 (codes "unauthorized") message

-- `?` on an error of another layer
abbrev pub api_result {ℓ} : {A : Type ℓ} → Result Error A → Result ApiError A
api_result (ok a) = ok a
api_result (err e) = err (from_error e)

-- `map_err(|_| …)`
abbrev pub or_invalid {ℓ} : {A : Type ℓ} → Result Error A → Result ApiError A
or_invalid (ok a) = ok a
or_invalid (err e) = err (unauthorized_error (codes "invalid or expired token"))

-- `str::strip_prefix`
unfoldable pub strip_prefix : Text → Text → Option Text
strip_prefix [] s = some s
strip_prefix (p ∷ ps) [] = none
strip_prefix (p ∷ ps) (c ∷ s) = let rest = strip_prefix ps s in if nat_beq p c then rest else none

unfoldable pub require_clearance : FirmContext → ClearanceLevel → Result Error (Unit {0})
unfolding has_clearance
require_clearance ctx required =
    if has_clearance ctx required then ok tt else err (access_denied required ctx.clearance)

-- `me`, on the context that the extractor gives
unfoldable pub me : FirmContext → MeResponse
me ctx = record { email = ctx.email; clearance = ctx.clearance; roles = ctx.roles }

unfoldable pub admin : FirmContext → Result ApiError MeResponse
unfolding require_clearance me
admin ctx = do api_result (require_clearance ctx l4); ok (me ctx)

module _ {E K : Type 0} (crates : TokenCrates E K) (jwt : JwtAuthenticator E K) where
  -- `AuthedContext::from_request_parts`, on the `Authorization` header if it is a text
  unfoldable pub from_request_parts : ℕ → Option Text → Result ApiError FirmContext
  unfolding validate_token strip_prefix
  from_request_parts now authorization = do
    header ← ok_or authorization (unauthorized_error (codes "missing Authorization header"))
    token ←
        ok_or (strip_prefix (codes "Bearer ") header)
          (unauthorized_error (codes "expected a Bearer token"))
    or_invalid (validate_token crates jwt now token)

  -- The handler of `/login`, whose response is the token
  unfoldable pub login_request :
      {D P : Type 0} → PersonStore D P → Session → Text → Text → D → Result ApiError Text
  unfolding Login.login
  login_request store s email password d =
      api_result (Login.login store crates jwt s email password d)
