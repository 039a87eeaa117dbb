-- ===== src/Management/Fuel.antt =====
-- The climb ends: a chain holds different managers, and there are no more of these than edges.
use kanbrick_v.Common.{
  ℕ, zero, suc, ◌+◌, ◌≤◌, ◌<◌, ◌≡◌, Text, List, [], ◌∷◌, ◌++◌, false, some, lookup, contains,
  contains-append, text_eq, text_beq, text_beq_iff, length, if◌then◌else◌, Option-cases, Bool-cases,
  inl, inr, arith,
}
use kanbrick_v.Management.{ManagerOf, climb, ancestors}

-- How many of the values of the map are outside the chain.
abbrev outside : List Text → ManagerOf → ℕ
outside chain [] = 0
outside chain ((_, v) ∷ m) = (if contains chain v then 0 else 1) + outside chain m

outside-le : (chain : List Text) (m : ManagerOf) → outside chain m ≤ length m
outside-le chain [] = omega arith
outside-le chain (e ∷ m) = ground (arith, outside-le chain m)

outside_mono :
    (chain : List Text) (v : Text) (m : ManagerOf) → outside (chain ++ (v ∷ [])) m ≤ outside chain m
unfolding contains
outside_mono chain v [] = omega arith
outside_mono chain v (e ∷ m) =
    ground (arith, outside_mono chain v m, contains-append chain (v ∷ []) e.1)

-- Adding a manager that a lookup finds and that is not in the chain uses up a value.
outside_drops :
    (chain : List Text) (k v : Text) (m : ManagerOf)
    → lookup k m ≡ some v
    → contains chain v ≡ false
    → outside (chain ++ (v ∷ [])) m < outside chain m
unfolding contains lookup
outside_drops chain k v [] h n = cc
outside_drops chain k v (e ∷ m) h n = elim (Bool-cases (text_beq e.0 k)) [
  | inl hit ↦
      ground (arith, outside_mono chain v m, contains-append chain (v ∷ []) e.1, text_beq_iff v v)
  | inr miss ↦
      ground (arith, outside_drops chain k v m (ground arith) n, contains-append chain (v ∷ []) e.1)
]

climb_total :
    (fuel : ℕ) (m : ManagerOf) (chain : List Text) (current : Text)
    → outside chain m < fuel
    → (result : List Text) × (climb fuel m chain current ≡ some result)
unfolding climb
climb_total zero m chain current h = elim h [ ]
climb_total (suc fuel) m chain current h = elim (Option-cases (lookup current m)) [
  | inl top ↦ (chain, ground arith)
  | inr (mgr, found) ↦ elim (Bool-cases (contains chain mgr)) [
    | inl cycle ↦ (chain, ground arith)
    | inr new ↦
        let drop = outside_drops chain current mgr m found new in
        let (result, e) = climb_total fuel m (chain ++ (mgr ∷ [])) mgr (omega arith) in
        (result, ground arith)
  ]
]

-- The fuel of `ancestors` is enough for every map and every person, cycles included: the climb ends
-- by itself, and `ancestors` is the chain that it ends with.
pub ancestors_total :
    (m : ManagerOf) (email : Text)
    → climb (suc (suc (length m))) m [] email ≡ some (ancestors m email)
unfolding ancestors
ancestors_total m email =
    let (result, e) =
      climb_total (suc (suc (length m))) m [] email (omega (arith, outside-le [] m)) in
    rw e
