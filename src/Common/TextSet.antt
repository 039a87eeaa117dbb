-- ===== src/Common/TextSet.antt =====
-- `BTreeSet<String>` as a sorted list, and joining and splitting of texts.
use kanbrick_v.Common.Tests.{ltb, nat_beq, if◌then◌else◌}
use kanbrick_v.Common.Keys.{Text, text_beq, text_eq, text_beq_iff}
use kanbrick_v.Common.Maps.{contains}
use Prim.Native.Nat.{ℕ}
use mathlib.Core.Path.{◌≡◌, refl}
use mathlib.Core.Bool.{Bool, true, false, ◌&&◌, ◌||◌}
use mathlib.Core.List.{List, [], ◌∷◌, ◌++◌}
use native.Mathlib.Omega.{arith}

-- The order of texts: that of their characters, the shorter first.
unfoldable pub text_lt : Text → Text → Bool
text_lt s [] = false
text_lt [] (d ∷ t) = true
text_lt (c ∷ s) (d ∷ t) = ltb c d || (nat_beq c d && text_lt s t)

-- `BTreeSet::insert`
unfoldable pub set_add : Text → List Text → List Text
set_add a [] = a ∷ []
set_add a (b ∷ bs) =
    let rest = set_add a bs in
    if text_lt a b then a ∷ b ∷ bs else if text_beq a b then b ∷ bs else b ∷ rest

-- `BTreeSet::extend`
unfoldable pub set_extend : List Text → List Text → List Text
set_extend [] s = s
set_extend (a ∷ as') s = set_extend as' (set_add a s)

pub contains-set_add :
    (a b : Text) (s : List Text) → contains (set_add a s) b ≡ (text_beq a b || contains s b)
unfolding set_add contains
contains-set_add a b [] = refl
contains-set_add a b (x ∷ s) =
    ground (arith, contains-set_add a b s, text_beq_iff a b, text_beq_iff a x, text_beq_iff x b)

pub contains-set_extend :
    (as' s : List Text) (b : Text)
    → contains (set_extend as' s) b ≡ (contains as' b || contains s b)
unfolding set_extend contains
contains-set_extend [] s b = refl
contains-set_extend (a ∷ as') s b =
    ground (arith, contains-set_extend as' (set_add a s) b, contains-set_add a b s)

-- `[T]::join` on texts.
unfoldable pub join : Text → List Text → Text
join sep [] = []
join sep (s ∷ []) = s
join sep (s ∷ t ∷ rest) = s ++ (sep ++ join sep (t ∷ rest))

-- `str::split` on a character.
unfoldable pub split_on : ℕ → Text → List Text
split_on x [] = [] ∷ []
split_on x (c ∷ s) = let rest = split_on x s in if nat_beq c x then [] ∷ rest else cons_head c rest
  where
    cons_head : ℕ → List Text → List Text
    cons_head c [] = (c ∷ []) ∷ []
    cons_head c (t ∷ ts) = (c ∷ t) ∷ ts
