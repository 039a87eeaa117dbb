-- ===== src/Management/Tests.antt =====
-- The chain of managers on a map with a cycle.
use kanbrick_v.Common.{
  ◌≡◌, ◌↔◌, suc, refl, true, List, [], ◌∷◌, codes, some, contains, text_eq, length,
}
use kanbrick_v.Management.{ManagerOf, climb, ancestors}
use kanbrick_v.Management.Chain.{Above, contains-ancestors_iff}

abbrev firm : ManagerOf
firm = (codes "ann", codes "bob") ∷ (codes "bob", codes "cy") ∷ (codes "cy", codes "bob") ∷ []

ancestors_of_ann : ancestors firm (codes "ann") ≡ codes "bob" ∷ codes "cy" ∷ []
unfolding ancestors climb kanbrick_v.Common.lookup kanbrick_v.Common.text_beq contains
ancestors_of_ann = refl

contains-ancestors_iff_example :
    (contains (ancestors firm (codes "ann")) (codes "cy") ≡ true)
    ↔ Above firm (codes "ann") (codes "cy")
contains-ancestors_iff_example = contains-ancestors_iff firm (codes "ann") (codes "cy")
