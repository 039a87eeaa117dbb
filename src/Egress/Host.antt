-- ===== src/Egress/Host.antt =====
-- kanbrick-egress/src/lib.rs, `host_of`: the bare host of a URL.
pub mod Urls
use kanbrick_v.Common.{
  ℕ, Text, codes, List, [], ◌∷◌, ◌++◌, Bool, true, false, ◌&&◌, ◌||◌, ◌≡◌, refl, arith, Option,
  none, some, nat_beq, if◌then◌else◌, All, append-nil, append_assoc, ◌⊎◌, inl, inr, Bool-cases,
}

-- `split_once("://")`, the part behind the first separator
unfoldable pub after_separator : Text → Option Text
after_separator (c ∷ d ∷ e ∷ s) =
    let rest = after_separator (d ∷ e ∷ s) in
    if nat_beq c b':' && nat_beq d b'/' && nat_beq e b'/' then some s else rest
after_separator _ = none

-- `split(p).next()`
unfoldable pub up_to : (ℕ → Bool) → Text → Text
up_to p [] = []
up_to p (c ∷ s) = let rest = up_to p s in if p c then [] else c ∷ rest

-- `rsplit_once('@')`, the part behind the last one
unfoldable pub after_last : ℕ → Text → Option Text
after_last x [] = none
after_last x (c ∷ s) = elim (after_last x s) [
  | some t ↦ some t
  | none ↦ if nat_beq c x then some s else none
]

abbrev pub or_else_text : Option Text → Text → Text
or_else_text none d = d
or_else_text (some t) d = t

abbrev pub ends_authority : ℕ → Bool
ends_authority c = nat_beq c b'/' || nat_beq c b'?' || nat_beq c b'#'

abbrev pub is_colon : ℕ → Bool
is_colon c = nat_beq c b':'

unfoldable pub host_of : Text → Text
unfolding after_separator up_to after_last
host_of url =
    let after_scheme = or_else_text (after_separator url) url in
    let authority = up_to ends_authority after_scheme in
    let host = or_else_text (after_last b'@' authority) authority in up_to is_colon host

abbrev pub is_at : ℕ → Bool
is_at c = nat_beq c b'@'

-- No character of the text passes the test.
abbrev pub Avoids : (ℕ → Bool) → Text → Type 0
Avoids p = All (λ c. p c ≡ false)

-- What ends a host: the end of the authority, or one of its delimiters.
abbrev pub ends_host : ℕ → Bool
ends_host c = ends_authority c || is_at c || is_colon c

-- `user@`, `:port`, and what follows the authority; each may be absent.
abbrev pub IsUser : Text → Type 0
IsUser user = (user ≡ []) ⊎ ((u : Text) × (user ≡ u ++ b'@' ∷ []) × Avoids ends_authority u)

abbrev pub IsPort : Text → Type 0
IsPort port =
    (port ≡ []) ⊎ ((p : Text) × (port ≡ b':' ∷ p) × Avoids ends_authority p × Avoids is_at p)

abbrev pub IsRest : Text → Type 0
IsRest rest = (rest ≡ []) ⊎ ((c : ℕ) × (s : Text) × (rest ≡ c ∷ s) × (ends_authority c ≡ true))
