-- ===== src/Core/Clearance/Parse.antt =====
-- Parsing a level is the inverse of displaying it.
use kanbrick_v.Common.{
  ◌≡◌, refl, ℕ, ◌+◌, Text, codes, [], ◌∷◌, ◌++◌, map, IsBlank, trim, trim_end, trim-append_blank,
  to_ascii_upper, is_whitespace, ok, arith, false, text_beq, text_beq_iff,
}
use kanbrick_v.Core.Clearance.{
  ClearanceLevel, l1, l2, l3, l4, l5, display, from_str, rank, level_of,
}

L_letter : (x : ℕ) → to_ascii_upper x ≡ b'L' → is_whitespace x ≡ false
unfolding to_ascii_upper is_whitespace
L_letter x h = ground arith

trim_end_level :
    (x y : ℕ) (l : ClearanceLevel)
    → to_ascii_upper x ≡ b'L'
    → y ≡ b'0' + rank l
    → trim_end (x ∷ y ∷ []) ≡ x ∷ y ∷ []
unfolding trim_end rank is_whitespace
trim_end_level x y l h e = ground (arith, L_letter x h)

upper_display :
    (l : ClearanceLevel) (x : ℕ)
    → to_ascii_upper x ≡ b'L'
    → map to_ascii_upper (x ∷ (b'0' + rank l) ∷ []) ≡ display l
unfolding display rank to_ascii_upper
upper_display l1 x h = ground arith
upper_display l x h = ground arith

from_str_of_upper :
    (l : ClearanceLevel) (s : Text) → map to_ascii_upper (trim s) ≡ display l → from_str s ≡ ok l
unfolding display rank from_str level_of text_beq
from_str_of_upper l1 s h = rw h
from_str_of_upper l2 s h = rw h
from_str_of_upper l3 s h = rw h
from_str_of_upper l4 s h = rw h
from_str_of_upper l5 s h = rw h

-- A level's text, in either case of its letter and with any white space around it, parses to that
-- level.
pub from_str-display :
    (l : ClearanceLevel) (x : ℕ) (b d : Text)
    → to_ascii_upper x ≡ b'L'
    → IsBlank b
    → IsBlank d
    → from_str (b ++ ((x ∷ (b'0' + rank l) ∷ []) ++ d)) ≡ ok l
from_str-display l x b d h hb hd =
    let s = x ∷ (b'0' + rank l) ∷ [] in
    from_str_of_upper l (b ++ (s ++ d)) (
      rw
        (
          trim-append_blank b ((b'0' + rank l) ∷ []) s d x hb hd refl (L_letter x h),
          trim_end_level x (b'0' + rank l) l h refl,
        )
        (upper_display l x h))

level_of_sound : (l : ClearanceLevel) (t s : Text) → level_of t s ≡ ok l → t ≡ display l
unfolding display rank level_of
level_of_sound l t s h = ground (
  arith,
  text_beq_iff t (codes "L1"),
  text_beq_iff t (codes "L2"),
  text_beq_iff t (codes "L3"),
  text_beq_iff t (codes "L4"),
  text_beq_iff t (codes "L5"),
)

-- What parses to a level is that level's text, up to the case of its letter and the white space
-- around it: nothing else is accepted.
pub display_of_from_str :
    (l : ClearanceLevel) (s : Text) → from_str s ≡ ok l → map to_ascii_upper (trim s) ≡ display l
unfolding from_str
display_of_from_str l s h = level_of_sound l (map to_ascii_upper (trim s)) s h
