-- ===== src/Grants/Eligible.antt =====
-- Who may decide a request.
use kanbrick_v.Common.{
  ◌≡◌, ◌⊎◌, ◌↔◌, refl, arith, Text, List, [], ◌∷◌, true, any, contains, text_eq, text_beq, inl, inr,
  Bool-cases,
}
use kanbrick_v.Core.Clearance.{l4, l5, ge, discriminant}
use kanbrick_v.Core.Context.{FirmContext}
use kanbrick_v.Management.{ManagerOf, ancestors}
use kanbrick_v.Management.Chain.{Above, contains-ancestors_iff}
use kanbrick_v.Grants.{eligible_grantor}

any-contains : (xs : List Text) (x : Text) → any (λ m. text_beq m x) xs ≡ contains xs x
unfolding contains
any-contains [] x = refl
any-contains (y ∷ xs) x = ground (arith, any-contains xs x)

-- A grantor may decide a person's request exactly when cleared to L5, or cleared to L4 and above
-- the person by one manager edge or more.
pub eligible_grantor_iff :
    (graph : ManagerOf) (requester : Text) (grantor : FirmContext)
    → (eligible_grantor graph requester grantor ≡ true) ↔ (
        (ge grantor.clearance l5 ≡ true)
        ⊎ ((ge grantor.clearance l4 ≡ true) × Above graph requester grantor.email))
unfolding eligible_grantor ge discriminant
eligible_grantor_iff graph requester grantor =
    let (to, from) = contains-ancestors_iff graph requester grantor.email in
    (
      λ h. elim (Bool-cases (ge grantor.clearance l5)) [
        | inl top ↦ inl top
        | inr low ↦ inr (
          ground arith,
          to (ground (arith, any-contains (ancestors graph requester) grantor.email)),
        )
      ],
      λ h. elim h [
        | inl top ↦ ground arith
        | inr (high, above) ↦
            let c = from above in
            ground (arith, any-contains (ancestors graph requester) grantor.email)
      ],
    )
