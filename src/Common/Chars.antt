-- ===== src/Common/Chars.antt =====
-- The methods of `str` that the program uses, on the list of a text's codes.
use Prim.Native.Nat.{ℕ, ◌+◌, ◌-◌}
use mathlib.Core.Path.{◌≡◌, refl}
use mathlib.Core.Bool.{Bool, true, false, ◌&&◌, ◌||◌}
use mathlib.Core.List.{List, [], ◌∷◌, ◌++◌}
use native.Mathlib.Omega.{arith}
use kanbrick_v.Common.Tests.{leb, nat_beq, if◌then◌else◌}
use kanbrick_v.Common.Keys.{Text}
use kanbrick_v.Common.Lists.{All}

-- `char::is_whitespace`: the property White_Space.
unfoldable pub is_whitespace : ℕ → Bool
is_whitespace c =
    (leb 9 c && leb c 13)
    || nat_beq c 32
    || nat_beq c 0x85
    || nat_beq c 0xa0
    || nat_beq c 0x1680
    || (leb 0x2000 c && leb c 0x200a)
    || nat_beq c 0x2028
    || nat_beq c 0x2029
    || nat_beq c 0x202f
    || nat_beq c 0x205f
    || nat_beq c 0x3000

-- `char::to_ascii_uppercase` and `to_ascii_lowercase`
unfoldable pub to_ascii_upper : ℕ → ℕ
to_ascii_upper c = if leb 97 c && leb c 122 then c - 32 else c

unfoldable pub to_ascii_lower : ℕ → ℕ
to_ascii_lower c = if leb 65 c && leb c 90 then c + 32 else c

unfoldable pub is_empty {ℓ} : {A : Type ℓ} → List A → Bool
is_empty [] = true
is_empty (c ∷ s) = false

unfoldable pub trim_start : Text → Text
trim_start [] = []
trim_start (c ∷ s) = let rest = trim_start s in if is_whitespace c then rest else c ∷ s

unfoldable pub trim_end : Text → Text
unfolding is_empty
trim_end [] = []
trim_end (c ∷ s) =
    let rest = trim_end s in if is_whitespace c && is_empty rest then [] else c ∷ rest

unfoldable pub trim : Text → Text
unfolding trim_start trim_end is_whitespace
trim s = trim_end (trim_start s)

pub to_ascii_upper-lower : (c : ℕ) → to_ascii_upper (to_ascii_lower c) ≡ to_ascii_upper c
unfolding to_ascii_upper to_ascii_lower
to_ascii_upper-lower c = ground arith

pub to_ascii_lower_idem : (c : ℕ) → to_ascii_lower (to_ascii_lower c) ≡ to_ascii_lower c
unfolding to_ascii_lower
to_ascii_lower_idem c = ground arith

abbrev pub IsBlank : Text → Type 0
IsBlank = All (λ c. is_whitespace c ≡ true)

-- A text that neither begins nor ends with white space.
abbrev pub IsTrimmed : Text → Type 0
IsTrimmed s = trim s ≡ s

pub trim_start-append_blank : (b s : Text) → IsBlank b → trim_start (b ++ s) ≡ trim_start s
unfolding trim_start
trim_start-append_blank [] s h = refl
trim_start-append_blank (c ∷ b) s h = rw (h.0) (trim_start-append_blank b s h.1)

pub trim_end_blank : (b : Text) → IsBlank b → trim_end b ≡ []
unfolding trim_end
trim_end_blank [] h = refl
trim_end_blank (c ∷ b) h = rw (trim_end_blank b h.1, h.0)

pub trim_end-append_blank : (s b : Text) → IsBlank b → trim_end (s ++ b) ≡ trim_end s
unfolding trim_end
trim_end-append_blank [] b h = trim_end_blank b h
trim_end-append_blank (c ∷ s) b h = rw (trim_end-append_blank s b h)

trim_start_fixed : (c : ℕ) (s : Text) → is_whitespace c ≡ false → trim_start (c ∷ s) ≡ c ∷ s
unfolding trim_start
trim_start_fixed c s h = rw h

-- White space around a text does not change what `trim` leaves of it.
pub trim-append_blank :
    (b c s d : Text) (x : ℕ)
    → IsBlank b
    → IsBlank d
    → s ≡ x ∷ c
    → is_whitespace x ≡ false
    → trim (b ++ (s ++ d)) ≡ trim_end s
unfolding trim
trim-append_blank b c s d x hb hd e hx =
    rw (trim_start-append_blank b (s ++ d) hb, e, trim_start_fixed x (c ++ d) hx)
      (trim_end-append_blank (x ∷ c) d hd)
