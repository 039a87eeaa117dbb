-- ===== src/Management.antt =====
-- kanbrick-discovery/src/graph.rs, `DiscoveryGraph::ancestors`: the chain of managers above a person.
mod Tests
pub mod Fuel
pub mod Chain
use kanbrick_v.Common.{
  ℕ, zero, suc, Text, List, [], ◌∷◌, ◌++◌, Bool, true, false, Option, none, some, Dict, lookup,
  contains, text_eq, length, if◌then◌else◌,
}

-- The field `manager_of`.
abbrev pub ManagerOf : Type 0
ManagerOf = Dict Text Text

-- The loop: it goes up from `current` until there is no manager or the manager is in the chain
-- already. `none` means that the fuel ran out.
unfoldable pub climb : ℕ → ManagerOf → List Text → Text → Option (List Text)
climb zero m chain current = none
climb (suc fuel) m chain current = elim (lookup current m) [
  | none ↦ some chain
  | some mgr ↦ elim (contains chain mgr) [
    | true ↦ some chain
    | false ↦ climb fuel m (chain ++ (mgr ∷ [])) mgr
  ]
]

abbrev pub or_empty : Option (List Text) → List Text
or_empty none = []
or_empty (some l) = l

-- One round for each edge, and two more, are always enough.
unfoldable pub ancestors : ManagerOf → Text → List Text
unfolding climb
ancestors m email = or_empty (climb (suc (suc (length m))) m [] email)
