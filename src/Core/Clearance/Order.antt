-- ===== src/Core/Clearance/Order.antt =====
-- The order of the clearance levels is the order of their ranks.
use kanbrick_v.Common.{◌≤◌, ◌≡◌, ◌↔◌, true, arith}
use kanbrick_v.Core.Clearance.{ClearanceLevel, l1, ge, min_level, rank, satisfies}

-- A level satisfies a minimum exactly when its rank is at least the minimum's rank.
pub satisfies-iff_rank : (a b : ClearanceLevel) → (satisfies a b ≡ true) ↔ (rank b ≤ rank a)
unfolding satisfies rank
satisfies-iff_rank l1 b = ground arith
satisfies-iff_rank a b = ground arith

pub ge-iff_rank : (a b : ClearanceLevel) → (ge a b ≡ true) ↔ (rank b ≤ rank a)
unfolding ge rank
ge-iff_rank l1 b = ground arith
ge-iff_rank a b = ground arith

pub rank_injective : (a b : ClearanceLevel) → rank a ≡ rank b → a ≡ b
unfolding rank
rank_injective a b = ground arith

pub rank-min_level :
    (a b : ClearanceLevel) → (rank (min_level a b) ≤ rank a) × (rank (min_level a b) ≤ rank b)
unfolding min_level rank
rank-min_level a b = ground arith

pub min_level_glb :
    (a b c : ClearanceLevel) → rank c ≤ rank a → rank c ≤ rank b → rank c ≤ rank (min_level a b)
unfolding min_level rank
min_level_glb a b c = ground arith
