-- ===== src/Egress/Narrowing.antt =====
-- The policies only restrict: roles and ceilings never raise a clearance, and an empty policy denies.
use kanbrick_v.Common.{
  Text, List, [], ◌∷◌, ◌++◌, true, ◌≡◌, ◌≤◌, ◌↔◌, refl, arith, Option, none, some, ok, ◌||◌,
  text_eq, pair_eq, lookup, lookup-insert, contains, contains-set_insert, map, to_ascii_lower,
  text_beq, text_beq_iff, if◌then◌else◌, Bool-cases, inl, inr, ==_refl, ◌&&◌,
}
use mathlib.Core.Bool.{or-true}
use native.Mathlib.Nat.{le_trans, le_refl}
use kanbrick_v.Core.Clearance.{ClearanceLevel, rank, min_level}
use kanbrick_v.Core.Clearance.Order.{satisfies-iff_rank, rank-min_level, min_level_glb}
use kanbrick_v.Providers.{ProviderKind, provider_eq, provider_beq}
use kanbrick_v.Egress.Policy.{
  DataClass, class_eq, class_beq, min_clearance, RoleOverlay, with_ceiling, capped,
  effective_clearance, DlpPolicy, allow_pair, can_send, HostAllowlist, allow_host, is_allowed,
}
use kanbrick_v.Egress.Gate.{EgressGate, authorize, authorize-eq-ok_iff}

capped-le : (e : ClearanceLevel) (o : Option ClearanceLevel) → rank (capped e o) ≤ rank e
capped-le e none = le_refl _
capped-le e (some c) = (rank-min_level e c).0

capped_mono :
    (d e : ClearanceLevel) (o : Option ClearanceLevel)
    → rank d ≤ rank e
    → rank (capped d o) ≤ rank (capped e o)
capped_mono d e none h = h
capped_mono d e (some c) h =
    min_level_glb e c (min_level d c) (le_trans (rank-min_level d c).0 h) (rank-min_level d c).1

effective_mono :
    (o : RoleOverlay) (d e : ClearanceLevel) (roles : List Text)
    → rank d ≤ rank e
    → rank (effective_clearance o d roles) ≤ rank (effective_clearance o e roles)
unfolding effective_clearance
effective_mono o d e [] h = h
effective_mono o d e (r ∷ roles) h =
    effective_mono o (capped d (lookup r o.ceilings)) (capped e (lookup r o.ceilings)) roles
      (capped_mono d e (lookup r o.ceilings) h)

effective-le :
    (o : RoleOverlay) (e : ClearanceLevel) (roles : List Text)
    → rank (effective_clearance o e roles) ≤ rank e
unfolding effective_clearance
effective-le o e [] = le_refl _
effective-le o e (r ∷ roles) =
    le_trans (effective-le o (capped e (lookup r o.ceilings)) roles)
      (capped-le e (lookup r o.ceilings))

effective-append :
    (o : RoleOverlay) (e : ClearanceLevel) (roles more : List Text)
    → effective_clearance o e (roles ++ more)
      ≡ effective_clearance o (effective_clearance o e roles) more
unfolding effective_clearance
effective-append o e [] more = refl
effective-append o e (r ∷ roles) more =
    effective-append o (capped e (lookup r o.ceilings)) roles more

-- Holding more roles, wherever they stand in the list, never raises the effective clearance.
pub effective_clearance_antitone :
    (o : RoleOverlay) (base : ClearanceLevel) (before more after : List Text)
    → rank (effective_clearance o base (before ++ (more ++ after)))
      ≤ rank (effective_clearance o base (before ++ after))
effective_clearance_antitone o base before more after =
    let e = effective_clearance o base before in
    rw
      (
        effective-append o base before (more ++ after),
        effective-append o e more after,
        effective-append o base before after,
      )
      (effective_mono o (effective_clearance o e more) e after (effective-le o e more))

-- The roles held of which the overlay knows a ceiling allow the level.
abbrev pub UnderCeilings : RoleOverlay → List Text → ClearanceLevel → Type 0
UnderCeilings o roles level =
    (r : Text) (c : ClearanceLevel)
    → contains roles r ≡ true
    → lookup r o.ceilings ≡ some c
    → rank level ≤ rank c

capped_glb :
    (level e : ClearanceLevel) (o : Option ClearanceLevel)
    → rank level ≤ rank e
    → ((c : ClearanceLevel) → o ≡ some c → rank level ≤ rank c)
    → rank level ≤ rank (capped e o)
capped_glb level e none h under = h
capped_glb level e (some c) h under = min_level_glb e c level h (under c refl)

capped_ceiling :
    (level e c : ClearanceLevel) (o : Option ClearanceLevel)
    → rank level ≤ rank (capped e o)
    → o ≡ some c
    → rank level ≤ rank c
capped_ceiling level e c none h q = cc
capped_ceiling level e c (some d) h q = ground (arith, rank-min_level e d)

effective_clearance_below :
    (o : RoleOverlay) (base level : ClearanceLevel) (roles : List Text)
    → rank level ≤ rank base
    → UnderCeilings o roles level
    → rank level ≤ rank (effective_clearance o base roles)
unfolding effective_clearance contains
effective_clearance_below o base level [] h under = h
effective_clearance_below o base level (r ∷ roles) h under =
    effective_clearance_below o (capped base (lookup r o.ceilings)) level roles
      (capped_glb level base (lookup r o.ceilings) h (λ c q. under r c (rw (==_refl r)) q))
      (λ s c m q. under s c (rw (m, or-true (text_beq r s))) q)

effective_clearance_under :
    (o : RoleOverlay) (base level : ClearanceLevel) (roles : List Text)
    → rank level ≤ rank (effective_clearance o base roles)
    → UnderCeilings o roles level
unfolding effective_clearance contains
effective_clearance_under o base level [] h r c m q = cc
effective_clearance_under o base level (s ∷ roles) h r c m q = elim (Bool-cases (text_beq s r)) [
  | inl same ↦
      capped_ceiling level base c (lookup s o.ceilings)
        (le_trans h (effective-le o (capped base (lookup s o.ceilings)) roles))
        (rw ((text_beq_iff s r).0 same) q)
  | inr other ↦
      effective_clearance_under o (capped base (lookup s o.ceilings)) level roles h r c
        (rw other at m) q
]

-- The effective clearance is the greatest level at most the base and at most the ceiling of every
-- role held: a level is at most it exactly when it is at most all of these.
pub le-effective_clearance_iff :
    (o : RoleOverlay) (base level : ClearanceLevel) (roles : List Text)
    → (rank level ≤ rank (effective_clearance o base roles))
      ↔ ((rank level ≤ rank base) × UnderCeilings o roles level)
le-effective_clearance_iff o base level roles = (
  λ h. (le_trans h (effective-le o base roles), effective_clearance_under o base level roles h),
  λ p. effective_clearance_below o base level roles p.0 p.1,
)

-- Under `with_ceiling` a role has the ceiling given, and every other role keeps its own.
ceiling_lookup :
    (o : RoleOverlay) (role r : Text) (c : ClearanceLevel)
    → lookup r (with_ceiling role c o).ceilings
      ≡ (if text_beq role r then some c else lookup r o.ceilings)
unfolding with_ceiling
ceiling_lookup o role r c = lookup-insert role r c o.ceilings

-- Allowing one pair adds that pair to what may be sent, and no other.
pub can_send-allow_pair :
    (p : DlpPolicy) (class d : DataClass) (provider q : ProviderKind)
    → can_send (allow_pair class provider p) d q
      ≡ ((class_beq class d && provider_beq provider q) || can_send p d q)
unfolding can_send allow_pair
can_send-allow_pair p class d provider q = contains-set_insert (class, provider) (d, q) p.allowed

-- Allowing a host adds that host to the allowlist, whatever the case of its letters, and no other.
pub is_allowed-allow_host :
    (a : HostAllowlist) (host h : Text)
    → is_allowed (allow_host host a) h
      ≡ (text_beq (map to_ascii_lower host) (map to_ascii_lower h) || is_allowed a h)
unfolding is_allowed allow_host
is_allowed-allow_host a host h =
    contains-set_insert (map to_ascii_lower host) (map to_ascii_lower h) a.hosts

-- A caller whose roles are a longer list gets no egress that the shorter list is refused: what is
-- allowed with more roles is allowed with fewer.
pub authorize_fewer_roles :
    (g : EgressGate) (base : ClearanceLevel) (before more after : List Text) (class : DataClass)
    (provider : ProviderKind) (host : Text) (level : ClearanceLevel)
    → authorize g base (before ++ (more ++ after)) class provider host ≡ ok level
    → authorize g base (before ++ after) class provider host
      ≡ ok (effective_clearance g.overlay base (before ++ after))
authorize_fewer_roles g base before more after class provider host level h =
    let (e, s, a, c) =
      (authorize-eq-ok_iff g base (before ++ (more ++ after)) class provider host level).0 h in
    let fewer = effective_clearance g.overlay base (before ++ after) in
    (authorize-eq-ok_iff g base (before ++ after) class provider host fewer).1 (
      refl,
      (satisfies-iff_rank fewer (min_clearance class)).1 (
          le_trans ((satisfies-iff_rank level (min_clearance class)).0 s)
            (rw e (effective_clearance_antitone g.overlay base before more after))),
      a,
      c,
    )
