-- ===== src/Core/Clearance.antt =====
-- kanbrick-core/src/clearance.rs: the five clearance levels, their order and their text.
pub mod Order
pub mod Parse
use kanbrick_v.Common.{
  ℕ, ◌+◌, Bool, Text, codes, List, [], ◌∷◌, map, leb, text_beq, trim, to_ascii_upper, Result, ok,
  err, if◌then◌else◌,
}

pub data ClearanceLevel : Type 0 where
  l1 l2 l3 l4 l5 : ClearanceLevel

-- The discriminant that the derived `Ord` compares.
unfoldable pub discriminant : ClearanceLevel → ℕ
discriminant l1 = 0
discriminant l2 = 1
discriminant l3 = 2
discriminant l4 = 3
discriminant l5 = 4

-- The derived `a >= b`, and `Ord::min`.
unfoldable pub ge : ClearanceLevel → ClearanceLevel → Bool
unfolding discriminant
ge a b = leb (discriminant b) (discriminant a)

unfoldable pub min_level : ClearanceLevel → ClearanceLevel → ClearanceLevel
unfolding ge
min_level a b = if ge b a then a else b

-- `ClearanceLevel::ALL`
abbrev pub all_levels : List ClearanceLevel
all_levels = l1 ∷ l2 ∷ l3 ∷ l4 ∷ l5 ∷ []

unfoldable pub rank : ClearanceLevel → ℕ
rank l1 = 1
rank l2 = 2
rank l3 = 3
rank l4 = 4
rank l5 = 5

unfoldable pub satisfies : ClearanceLevel → ClearanceLevel → Bool
unfolding ge
satisfies self required = ge self required

-- `Display`: `L` and the rank, which is one digit.
unfoldable pub display : ClearanceLevel → Text
unfolding rank
display l = b'L' ∷ (b'0' + rank l) ∷ []

-- The `match` of `from_str`, on the prepared text; the error holds the text as it was given.
unfoldable pub level_of : Text → Text → Result Text ClearanceLevel
level_of t s =
    if text_beq t (codes "L1")
    then ok l1
    else if text_beq t (codes "L2")
    then ok l2
    else if text_beq t (codes "L3")
    then ok l3
    else if text_beq t (codes "L4")
    then ok l4
    else if text_beq t (codes "L5")
    then ok l5
    else err s

-- `FromStr`
unfoldable pub from_str : Text → Result Text ClearanceLevel
from_str s = level_of (map to_ascii_upper (trim s)) s
