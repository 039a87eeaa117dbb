-- ===== src/Core/Tests.antt =====
-- The clearance levels on concrete texts.
use kanbrick_v.Common.{◌≡◌, ◌↔◌, ◌≤◌, refl, true, codes, ok, err, map, trim, to_ascii_upper}
use kanbrick_v.Core.Clearance.{l1, l2, l3, l4, display, satisfies, rank, from_str}

from_str_rejects : from_str (codes "L6") ≡ err (codes "L6")
unfolding from_str kanbrick_v.Core.Clearance.level_of kanbrick_v.Common.text_beq trim to_ascii_upper
from_str_rejects = refl
