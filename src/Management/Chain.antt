-- ===== src/Management/Chain.antt =====
-- The chain of managers is the transitive closure of the manager edges.
use kanbrick_v.Common.{
  ℕ, zero, suc, ◌≡◌, refl, ◌⊎◌, ◌↔◌, inl, inr, Text, List, [], ◌∷◌, ◌++◌, true, false, some, lookup,
  contains, contains-append, text_eq, text_beq, text_beq_iff, length, Option-cases, Bool-cases,
  arith, subst,
}
use kanbrick_v.Management.{ManagerOf, climb, ancestors}
use kanbrick_v.Management.Fuel.{ancestors_total}

-- `v` is reached from `e` by one manager edge or more.
pub data Above (m : ManagerOf) (e : Text) : Text → Type 0 where
  direct : {v : Text} → lookup e m ≡ some v → Above m e v
  higher : {y v : Text} → Above m e y → lookup y m ≡ some v → Above m e v

module _ (m : ManagerOf) (e : Text) where
  abbrev Known : List Text → Text → Type 0
  Known chain y = (y ≡ e) ⊎ (contains chain y ≡ true)

  -- Every manager in the chain is above `e`; the climb stands at `e` or in the chain; and what it
  -- has left behind has its manager in the chain.
  record IsClimb (chain : List Text) (current : Text) : Type 0 where
    above : (x : Text) → contains chain x ≡ true → Above m e x
    known : Known chain current
    closed :
        (y v : Text)
        → Known chain y
        → text_beq y current ≡ false
        → lookup y m ≡ some v
        → contains chain v ≡ true

  abbrev Closed : List Text → Type 0
  Closed chain = (y v : Text) → Known chain y → lookup y m ≡ some v → contains chain v ≡ true

  Known-Above :
      (chain : List Text) (current mgr : Text)
      → IsClimb chain current
      → lookup current m ≡ some mgr
      → Above m e mgr
  Known-Above chain current mgr c h = elim c.known [
    | inl at ↦ direct (rw (← at) h)
    | inr in_chain ↦ higher (c.above current in_chain) h
  ]

  contains-snoc :
      (chain : List Text) (mgr y : Text)
      → contains (chain ++ (mgr ∷ [])) y ≡ true
      → (contains chain y ≡ true) ⊎ (y ≡ mgr)
  unfolding contains
  contains-snoc chain mgr y h =
      ground (arith, contains-append chain (mgr ∷ []) y, text_beq_iff mgr y)

  Known-snoc :
      (chain : List Text) (mgr y : Text) → Known (chain ++ (mgr ∷ [])) y → Known chain y ⊎ (y ≡ mgr)
  Known-snoc chain mgr y (inl at) = inl (inl at)
  Known-snoc chain mgr y (inr h) = elim (contains-snoc chain mgr y h) [
    | inl old ↦ inl (inr old)
    | inr new ↦ inr new
  ]

  contains-left :
      (chain : List Text) (mgr v : Text)
      → contains chain v ≡ true
      → contains (chain ++ (mgr ∷ [])) v ≡ true
  unfolding contains
  contains-left chain mgr v h = ground (arith, contains-append chain (mgr ∷ []) v)

  contains-last : (chain : List Text) (mgr : Text) → contains (chain ++ (mgr ∷ [])) mgr ≡ true
  unfolding contains
  contains-last chain mgr =
      ground (arith, contains-append chain (mgr ∷ []) mgr, text_beq_iff mgr mgr)

  IsClimb-step :
      (chain : List Text) (current mgr : Text)
      → IsClimb chain current
      → lookup current m ≡ some mgr
      → IsClimb (chain ++ (mgr ∷ [])) mgr
  IsClimb-step chain current mgr c h = record {
    above = λ x k. elim (contains-snoc chain mgr x k) [
      | inl old ↦ c.above x old
      | inr new ↦ rw new (Known-Above chain current mgr c h)
    ];
    known = inr (contains-last chain mgr);
    closed = λ y v k ne q. elim (Known-snoc chain mgr y k) [
      | inl old ↦ elim (Bool-cases (text_beq y current)) [
        | inl here ↦
            let at : y ≡ current = (text_beq_iff y current).0 here in
            let found : lookup current m ≡ some v = rw at at q in
            let same : mgr ≡ v = cc in
            subst (λ w. contains (chain ++ (mgr ∷ [])) w ≡ true) same (contains-last chain mgr)
        | inr left ↦ contains-left chain mgr v (c.closed y v old left q)
      ]
      | inr new ↦ ground (arith, text_beq_iff y mgr)
    ];
  }

  -- What the loop returns: nothing but managers above, and no manager is missing.
  record IsChain (chain : List Text) : Type 0 where
    above : (x : Text) → contains chain x ≡ true → Above m e x
    whole : Closed chain

  climb-IsChain :
      (fuel : ℕ) (chain : List Text) (current : Text) (result : List Text)
      → IsClimb chain current
      → climb fuel m chain current ≡ some result
      → IsChain result
  unfolding climb
  climb-IsChain zero chain current result c h = cc
  climb-IsChain (suc fuel) chain current result c h = elim (Option-cases (lookup current m)) [
    | inl top ↦
        let same : chain ≡ result = ground arith in
        subst IsChain same (record {
          above = c.above;
          whole = λ y v k q. elim (Bool-cases (text_beq y current)) [
            | inl here ↦
                let at : y ≡ current = (text_beq_iff y current).0 here in
                let found : lookup current m ≡ some v = rw at at q in cc
            | inr left ↦ c.closed y v k left q
          ];
        })
    | inr (mgr, found) ↦ elim (Bool-cases (contains chain mgr)) [
      | inl cycle ↦
          let same : chain ≡ result = ground arith in
          subst IsChain same (record {
            above = c.above;
            whole = λ y v k q. elim (Bool-cases (text_beq y current)) [
              | inl here ↦
                  let at : y ≡ current = (text_beq_iff y current).0 here in
                  let again : lookup current m ≡ some v = rw at at q in
                  let to : mgr ≡ v = cc in subst (λ w. contains chain w ≡ true) to cycle
              | inr left ↦ c.closed y v k left q
            ];
          })
      | inr new ↦
          climb-IsChain fuel (chain ++ (mgr ∷ [])) mgr result
            (IsClimb-step chain current mgr c found) (ground arith)
    ]
  ]

  start-IsClimb : IsClimb [] e
  unfolding contains
  start-IsClimb = record {
    above = λ x k. cc;
    known = inl refl;
    closed = λ y v k ne q. elim k [ inl at ↦ ground (arith, text_beq_iff y e) | inr h ↦ cc ];
  }

  Above-contains :
      (chain : List Text) → Closed chain → (x : Text) → Above m e x → contains chain x ≡ true
  Above-contains chain c x (direct h) = c e x (inl refl) h
  Above-contains chain c x (higher {y = y} a h) = c y x (inr (Above-contains chain c y a)) h

-- The chain of managers of a person holds exactly those above the person: who is reached by one
-- manager edge or more, on any map, with a cycle or without.
pub contains-ancestors_iff :
    (m : ManagerOf) (e x : Text) → (contains (ancestors m e) x ≡ true) ↔ Above m e x
contains-ancestors_iff m e x =
    let chain =
      climb-IsChain m e (suc (suc (length m))) [] e (ancestors m e) (start-IsClimb m e)
        (ancestors_total m e) in
    (chain.above x, Above-contains m e (ancestors m e) chain.whole x)
