-- ===== src/Common/Maps.antt =====
-- `HashMap` and `HashSet` as association lists and lists, over any key with an equality.
use mathlib.Core.Path.{◌≡◌, refl}
use mathlib.Core.Bool.{Bool, false, ◌||◌}
use mathlib.Core.List.{List, [], ◌∷◌, ◌++◌}
use mathlib.Core.Option.{Option, none, some}
use native.Mathlib.Omega.{arith}
use kanbrick_v.Common.Tests.{if◌then◌else◌}
use kanbrick_v.Common.Keys.{Eq}

abbrev pub Dict {ℓ κ} : Type ℓ → Type κ → Type (ℓ ⊔ κ)
Dict K V = List (K × V)

-- An optional value that passes the test, and one that is changed.
module _ {ℓ} {V : Type ℓ} where
  abbrev pub kept : (V → Bool) → Option V → Option V
  kept p none = none
  kept p (some v) = if p v then some v else none

  abbrev pub changed : (V → V) → Option V → Option V
  changed f none = none
  changed f (some v) = some (f v)

module _ {ℓ κ} {K : Type ℓ} {V : Type κ} ⦃e : Eq K⦄ where
  -- `HashMap::get`
  unfoldable pub lookup : K → Dict K V → Option V
  lookup k [] = none
  lookup k ((j, v) ∷ m) = if e.beq j k then some v else lookup k m

  -- `HashMap::insert`, without the value it returns
  unfoldable pub insert : K → V → Dict K V → Dict K V
  insert k v [] = (k, v) ∷ []
  insert k v ((j, w) ∷ m) = if e.beq j k then (k, v) ∷ m else (j, w) ∷ insert k v m

  -- `HashMap::remove`, which also drops what a list of pairs may hold twice
  unfoldable pub remove : K → Dict K V → Dict K V
  remove k [] = []
  remove k ((j, w) ∷ m) = let rest = remove k m in if e.beq j k then rest else (j, w) ∷ rest

  pub lookup-insert :
      (k j : K) (v : V) (m : Dict K V)
      → lookup j (insert k v m) ≡ (if e.beq k j then some v else lookup j m)
  unfolding lookup insert
  lookup-insert k j v [] = refl
  lookup-insert k j v ((i, w) ∷ m) =
      ground (arith, e.beq_iff k j, e.beq_iff i k, e.beq_iff i j, lookup-insert k j v m)

  pub lookup-remove :
      (k j : K) (m : Dict K V) → lookup j (remove k m) ≡ (if e.beq k j then none else lookup j m)
  unfolding lookup remove
  lookup-remove k j [] = ground arith
  lookup-remove k j ((i, w) ∷ m) =
      ground (arith, e.beq_iff k j, e.beq_iff i k, e.beq_iff i j, lookup-remove k j m)

  -- `HashMap::retain` on a test of the value; an entry that fails the test takes its key with it
  unfoldable pub retain_values : (V → Bool) → Dict K V → Dict K V
  unfolding remove
  retain_values p [] = []
  retain_values p ((j, w) ∷ m) =
      let rest = retain_values p m in if p w then (j, w) ∷ rest else remove j rest

  pub lookup-retain_values :
      (p : V → Bool) (k : K) (m : Dict K V) → lookup k (retain_values p m) ≡ kept p (lookup k m)
  unfolding lookup retain_values
  lookup-retain_values p k [] = refl
  lookup-retain_values p k ((j, w) ∷ m) =
      ground
        (arith, e.beq_iff j k, lookup-retain_values p k m, lookup-remove j k (retain_values p m))

  -- `HashMap::get_mut` and a change of what it finds
  abbrev pub modified : K → (V → V) → Dict K V → Option V → Dict K V
  modified k f m none = m
  modified k f m (some v) = insert k (f v) m

  unfoldable pub modify : K → (V → V) → Dict K V → Dict K V
  modify k f m = modified k f m (lookup k m)

  lookup-modified :
      (k j : K) (f : V → V) (m : Dict K V) (o : Option V)
      → lookup k m ≡ o
      → lookup j (modified k f m o) ≡ (if e.beq k j then changed f o else lookup j m)
  lookup-modified k j f m none h = ground (arith, e.beq_iff k j)
  lookup-modified k j f m (some v) h = lookup-insert k j (f v) m

  pub lookup-modify :
      (k j : K) (f : V → V) (m : Dict K V)
      → lookup j (modify k f m) ≡ (if e.beq k j then changed f (lookup k m) else lookup j m)
  unfolding modify
  lookup-modify k j f m = lookup-modified k j f m (lookup k m) refl

module _ {ℓ} {A : Type ℓ} ⦃e : Eq A⦄ where
  -- `HashSet::contains`
  unfoldable pub contains : List A → A → Bool
  contains [] a = false
  contains (x ∷ xs) a = e.beq x a || contains xs a

  pub contains-append :
      (xs ys : List A) (a : A) → contains (xs ++ ys) a ≡ (contains xs a || contains ys a)
  unfolding contains
  contains-append [] ys a = refl
  contains-append (x ∷ xs) ys a = ground (arith, contains-append xs ys a)

  -- `HashSet::insert`
  unfoldable pub set_insert : A → List A → List A
  unfolding contains
  set_insert a xs = if contains xs a then xs else a ∷ xs

  pub contains-set_insert :
      (a b : A) (xs : List A) → contains (set_insert a xs) b ≡ (e.beq a b || contains xs b)
  unfolding set_insert
  contains-set_insert a b xs = ground (arith, e.beq_iff a b)
