-- ===== src/Caps.antt =====
-- kanbrick-api/src/caps.rs: the registry of per-invocation capabilities. The random token of a
-- capability and the readings of the clock are arguments; instants count up from any origin.
mod Tests
use kanbrick_v.Common.{
  ℕ, ◌+◌, ◌≤◌, ◌≡◌, arith, Bool, true, false, Text, Option, none, some, Dict, lookup, insert,
  remove, retain_values, kept, text_eq, text_beq, lookup-insert, lookup-remove,
  lookup-retain_values, ltb, if◌then◌else◌,
}
use kanbrick_v.Core.Context.{FirmContext}

pub record CapEntry : Type 0 where
  pub ctx : FirmContext
  pub expires_at : ℕ

abbrev pub InvocationCaps : Type 0
InvocationCaps = Dict Text CapEntry

abbrev pub is_live : ℕ → CapEntry → Bool
is_live now e = ltb now e.expires_at

-- `now` is the reading that sets the expiry and `sweep` that of the sweep of expired entries.
unfoldable pub mint : Text → ℕ → ℕ → FirmContext → ℕ → InvocationCaps → InvocationCaps
mint cap now sweep ctx ttl entries =
    insert cap (record { ctx = ctx; expires_at = now + ttl })
      (retain_values (is_live sweep) entries)

abbrev pub live_context : ℕ → Option CapEntry → Option FirmContext
live_context now none = none
live_context now (some e) = if is_live now e then some e.ctx else none

-- `InvocationCaps::resolve` at the instant `now`
unfoldable pub resolve_cap : Text → ℕ → InvocationCaps → Option FirmContext
resolve_cap cap now entries = live_context now (lookup cap entries)

unfoldable pub revoke : Text → InvocationCaps → InvocationCaps
revoke cap entries = remove cap entries

-- A minted capability stands for the context that it was minted for until its time to live is over;
-- the minting changes what no other capability stands for, since the sweep drops only what has
-- expired; and once revoked, a capability stands for nothing, and the others for what they did.
pub resolve_cap-mint :
    (entries : InvocationCaps) (cap k : Text) (now sweep t ttl : ℕ) (ctx : FirmContext)
    → sweep ≤ t
    → (resolve_cap k t (mint cap now sweep ctx ttl entries) ≡ (
        if text_beq cap k
        then (if ltb t (now + ttl) then some ctx else none)
        else resolve_cap k t entries))
      × (resolve_cap k t (revoke cap (mint cap now sweep ctx ttl entries))
          ≡ (if text_beq cap k then none else resolve_cap k t entries))
unfolding resolve_cap mint revoke
resolve_cap-mint entries cap k now sweep t ttl ctx h = ground (
  arith,
  lookup-remove cap k (
      insert cap (record { ctx = ctx; expires_at = now + ttl })
        (retain_values (is_live sweep) entries)),
  lookup-insert cap k (record { ctx = ctx; expires_at = now + ttl })
      (retain_values (is_live sweep) entries),
  lookup-retain_values (is_live sweep) k entries,
)

-- What is registered after a capability was minted and revoked was registered before.
pub revoke-mint_keeps :
    (entries : InvocationCaps) (cap k : Text) (now sweep ttl : ℕ) (ctx : FirmContext) (e : CapEntry)
    → lookup k (revoke cap (mint cap now sweep ctx ttl entries)) ≡ some e
    → lookup k entries ≡ some e
unfolding mint revoke
revoke-mint_keeps entries cap k now sweep ttl ctx e h = ground (
  arith,
  lookup-remove cap k (
      insert cap (record { ctx = ctx; expires_at = now + ttl })
        (retain_values (is_live sweep) entries)),
  lookup-insert cap k (record { ctx = ctx; expires_at = now + ttl })
      (retain_values (is_live sweep) entries),
  lookup-retain_values (is_live sweep) k entries,
)
