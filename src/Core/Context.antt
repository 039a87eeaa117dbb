-- ===== src/Core/Context.antt =====
-- kanbrick-core/src/context.rs: the identity that a request carries.
use kanbrick_v.Common.{ℕ, Bool, Text, List, []}
use kanbrick_v.Core.Clearance.{ClearanceLevel, satisfies}

-- UUIDs and instants are opaque numbers.
pub record FirmContext : Type 0 where
  pub user_id : ℕ
  pub email : Text
  pub clearance : ClearanceLevel
  pub firm_id : Text
  pub roles : List Text
  pub session_id : ℕ
  pub issued_at : ℕ

-- `FirmContext::new`: the session id and the clock's reading are drawn by the caller, and `firm_id`
-- is the constant FIRM_ID.
unfoldable pub new_context : Text → ℕ → ℕ → ℕ → Text → ClearanceLevel → FirmContext
new_context firm session now user email clearance = record {
  user_id = user;
  email = email;
  clearance = clearance;
  firm_id = firm;
  roles = [];
  session_id = session;
  issued_at = now;
}

unfoldable pub with_roles : List Text → FirmContext → FirmContext
with_roles roles c = record c { roles = roles }

unfoldable pub has_clearance : FirmContext → ClearanceLevel → Bool
unfolding satisfies
has_clearance c required = satisfies c.clearance required
