-- ===== src/Common/Action.antt =====
-- A method on a state that may fail: what was written before a failure stays written.
use kanbrick_v.Common.Outcome.{Result, ok, err, Result-cases}
use mathlib.Core.Bool.{Bool, true, false}
use mathlib.Core.Option.{Option, none, some}
use mathlib.Core.Logic.{◌⊎◌, inl, inr}
use mathlib.Core.Path.{◌≡◌, refl}

abbrev pub Action : Type 0 → Type 0 → Type 0 → Type 0
Action S E A = S → Result E A × S

module _ {S : Type 0} {E : Type 0} where
  infixl 5 ◌>>=◌ ◌>>◌
  abbrev pub ◌>>=◌ : {A B : Type 0} → Action S E A → (A → Action S E B) → Action S E B
  ◌>>=◌ m f s = let (r, s') = m s in elim r [ ok a ↦ f a s' | err e ↦ (err e, s') ]

  abbrev pub ◌>>◌ : {B : Type 0} → Action S E (Unit {0}) → Action S E B → Action S E B
  m >> k = m >>= λ _. k

  abbrev pub pure : {A : Type 0} → A → Action S E A
  pure a s = (ok a, s)

  abbrev pub raise : {A : Type 0} → E → Action S E A
  raise e s = (err e, s)

  -- `if cond { return Err(e) }`
  abbrev pub fail_if : Bool → E → Action S E (Unit {0})
  fail_if true e = raise e
  fail_if false e = pure tt

  -- `Option::ok_or`
  abbrev pub or_raise : {A : Type 0} → Option A → E → Action S E A
  or_raise none e = raise e
  or_raise (some a) e = pure a

  -- A command on the state: one that fails leaves it.
  abbrev pub command : (S → Result E S) → Action S E (Unit {0})
  command f s = elim (f s) [ ok s' ↦ (ok tt, s') | err e ↦ (err e, s) ]

  -- A bind of actions that succeeds, and one that fails.
  pub bind_ok :
      {A B : Type 0} (m : Action S E A) (f : A → Action S E B) (s s' : S) (b : B)
      → (m >>= f) s ≡ (ok b, s')
      → (a : A) × (t : S) × (m s ≡ (ok a, t)) × (f a t ≡ (ok b, s'))
  bind_ok {A} {B} m f s s' b h = go (m s) refl h
    where
      go :
          (p : Result E A × S)
          → m s ≡ p
          → elim p.0 [ ok a ↦ f a p.1 | err e ↦ (err e, p.1) ] ≡ (ok b, s')
          → (a : A) × (t : S) × (m s ≡ (ok a, t)) × (f a t ≡ (ok b, s'))
      go (ok a, t) e k = (a, t, e, k)
      go (err x, t) e k = cc

  pub bind_err :
      {A B : Type 0} (m : Action S E A) (f : A → Action S E B) (s s' : S) (x : E)
      → (m >>= f) s ≡ (err x, s')
      → (m s ≡ (err x, s')) ⊎ ((a : A) × (t : S) × (m s ≡ (ok a, t)) × (f a t ≡ (err x, s')))
  bind_err {A} {B} m f s s' x h = go (m s) refl h
    where
      go :
          (p : Result E A × S)
          → m s ≡ p
          → elim p.0 [ ok a ↦ f a p.1 | err e ↦ (err e, p.1) ] ≡ (err x, s')
          → (m s ≡ (err x, s')) ⊎ ((a : A) × (t : S) × (m s ≡ (ok a, t)) × (f a t ≡ (err x, s')))
      go (ok a, t) e k = inr (a, t, e, k)
      go (err y, t) e k = inl (cc)

  pub command_ok :
      (f : S → Result E S) (s s' : S) (u : Unit {0}) → command f s ≡ (ok u, s') → f s ≡ ok s'
  command_ok f s s' u h = elim (Result-cases (f s)) [ inl (t, e) ↦ cc | inr (x, e) ↦ cc ]

  pub command_err : (f : S → Result E S) (s s' : S) (x : E) → command f s ≡ (err x, s') → s' ≡ s
  command_err f s s' x h = elim (Result-cases (f s)) [ inl (t, e) ↦ cc | inr (y, e) ↦ cc ]
