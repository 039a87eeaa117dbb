-- ===== src/Cache/Keys.antt =====
-- kanbrick-discovery/src/cache.rs, `scoped_key`: whose entries a caller may be served.
use kanbrick_v.Common.{Text, codes, ◌++◌, ◌≡◌, ◌↔◌, arith, ◌+◌}
use mathlib.Core.List.{append_cancel_left}
use kanbrick_v.Core.Clearance.{ClearanceLevel, display, rank}
use kanbrick_v.Core.Clearance.Order.{rank_injective}
use kanbrick_v.Scope.Clearance.{ClearanceScope}
use kanbrick_v.Scope.Project.{clearance_visibility}
use kanbrick_v.Cache.{scoped_key}

-- For the same call, keys are equal only if the keys of the scopes are.
pub scoped_key_injective :
    (s t function args : Text) → scoped_key s function args ≡ scoped_key t function args → s ≡ t
unfolding scoped_key
scoped_key_injective s t function args h = append_cancel_left (codes ")@") s t (
    append_cancel_left args (codes ")@" ++ s) (codes ")@" ++ t) (
      append_cancel_left (codes "(") (args ++ (codes ")@" ++ s)) (args ++ (codes ")@" ++ t))
        (append_cancel_left function _ _ h)))

display-append :
    (a b : ClearanceLevel) (s t : Text) → display a ++ s ≡ display b ++ t → (a ≡ b) × (s ≡ t)
unfolding display
display-append a b s t h =
    let digits : b'0' + rank a ≡ b'0' + rank b = cc in
    (rank_injective a b (omega (arith, digits)), cc)

-- For the same call, two callers have one key exactly if they have the same clearance and the same
-- email: an entry that was stored for the one is looked up for the other in no other case.
pub scoped_key-eq_iff :
    (s t : ClearanceScope) (function args : Text)
    → (scoped_key (clearance_visibility s).scope_key function args
        ≡ scoped_key (clearance_visibility t).scope_key function args)
      ↔ ((s.clearance ≡ t.clearance) × (s.self_email ≡ t.self_email))
unfolding clearance_visibility
scoped_key-eq_iff s t function args = (
  λ h.
      let (same, rest) =
        display-append s.clearance t.clearance (codes ":" ++ s.self_email)
          (codes ":" ++ t.self_email)
          (append_cancel_left (codes "clearance:") _ _
            (scoped_key_injective _ _ function args h)) in
      (same, append_cancel_left (codes ":") s.self_email t.self_email rest),
  λ p i. scoped_key (codes "clearance:" ++ (display (p.0 i) ++ (codes ":" ++ p.1 i))) function args,
)
