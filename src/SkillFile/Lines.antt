-- ===== src/SkillFile/Lines.antt =====
-- kanbrick-loops/src/lib.rs: the lines of a text that is written line by line.
use kanbrick_v.Common.{
  ℕ, Text, List, [], ◌∷◌, ◌++◌, false, nat_beq_iff, join, All, ◌≡◌, ◌≢◌, refl, sym, ap, ◌∙◌, arith,
  trim, trim_start, trim_end, is_whitespace, some, IsBlank, trim_start-append_blank,
}
use native.Mathlib.Decide.{ℕ_discrete}
use kanbrick_v.SkillFile.{lines, onto, split_once}

-- A text with neither a line feed nor a carriage return.
abbrev pub IsLine : Text → Type 0
IsLine = All (λ c. (c ≢ b'\n') × (c ≢ b'\r'))

abbrev pub NoReturn : Text → Type 0
NoReturn = All (λ c. c ≢ b'\r')

feed_lem : (s : Text) → lines (b'\n' ∷ s) ≡ [] ∷ lines s
unfolding lines
feed_lem s = refl

char_lem : (c : ℕ) (s : Text) → c ≢ b'\n' → c ≢ b'\r' → lines (c ∷ s) ≡ onto c (lines s)
unfolding lines
char_lem c s h k = ground (arith, nat_beq_iff c b'\n', nat_beq_iff c b'\r')

-- A line that is ended by a line feed is the first of the lines.
pub lines-append : (l s : Text) → IsLine l → lines (l ++ b'\n' ∷ s) ≡ l ∷ lines s
lines-append [] s h = feed_lem s
lines-append (c ∷ l) s ((h, k), hs) =
    char_lem c (l ++ b'\n' ∷ s) h k ∙ ap (onto c) (lines-append l s hs)

feed : {c : ℕ} (s : Text) → c ≡ b'\n' → lines (c ∷ s) ≡ [] ∷ lines s
feed s e = ap (λ x. lines (x ∷ s)) e ∙ feed_lem s

lines_ended :
    (s : Text) → NoReturn s → (l : Text) × (ls : List Text) × (lines (s ++ b'\n' ∷ []) ≡ l ∷ ls)
lines_ended [] h = ([], lines [], feed_lem [])
lines_ended (c ∷ s) (h, hs) = elim (ℕ_discrete c b'\n') [
  | yes e ↦ ([], lines (s ++ b'\n' ∷ []), feed (s ++ b'\n' ∷ []) e)
  | no n ↦
      let (l, ls, k) = lines_ended s hs in
      (c ∷ l, ls, char_lem c (s ++ b'\n' ∷ []) n h ∙ ap (onto c) k)
]

join-onto : (c : ℕ) (ls : List Text) → join (b'\n' ∷ []) (onto c ls) ≡ c ∷ join (b'\n' ∷ []) ls
unfolding join
join-onto c [] = refl
join-onto c (l ∷ []) = refl
join-onto c (l ∷ m ∷ ls) = refl

join-blank :
    (l : Text) (ls : List Text)
    → join (b'\n' ∷ []) ([] ∷ l ∷ ls) ≡ b'\n' ∷ join (b'\n' ∷ []) (l ∷ ls)
unfolding join
join-blank l ls = refl

join_feed : join (b'\n' ∷ []) (lines (b'\n' ∷ [])) ≡ []
unfolding join lines
join_feed = refl

-- An empty line before the lines of an ended text.
pub join-blank_lines :
    (s : Text)
    → NoReturn s
    → join (b'\n' ∷ []) ([] ∷ lines (s ++ b'\n' ∷ []))
      ≡ b'\n' ∷ join (b'\n' ∷ []) (lines (s ++ b'\n' ∷ []))
join-blank_lines s h = let (l, ls, e) = lines_ended s h in rw e (join-blank l ls)

-- The lines of a text without carriage returns are joined to the text.
pub join-lines : (s : Text) → NoReturn s → join (b'\n' ∷ []) (lines (s ++ b'\n' ∷ [])) ≡ s
join-lines [] h = join_feed
join-lines (c ∷ s) (h, hs) = elim (ℕ_discrete c b'\n') [
  | yes e ↦
      ap (join (b'\n' ∷ [])) (feed (s ++ b'\n' ∷ []) e)
      ∙ join-blank_lines s hs
      ∙ ap (λ l. b'\n' ∷ l) (join-lines s hs)
      ∙ ap (λ x. x ∷ s) (sym e)
  | no n ↦
      ap (join (b'\n' ∷ [])) (char_lem c (s ++ b'\n' ∷ []) n h)
      ∙ join-onto c (lines (s ++ b'\n' ∷ []))
      ∙ ap (λ l. c ∷ l) (join-lines s hs)
]

trim_start_cons : (c : ℕ) (s : Text) → is_whitespace c ≡ false → trim_start (c ∷ s) ≡ c ∷ s
unfolding trim_start
trim_start_cons c s h = rw h

-- What `trim` leaves of a text that begins with a printed character.
pub trim_cons : (c : ℕ) (s : Text) → is_whitespace c ≡ false → trim (c ∷ s) ≡ c ∷ trim_end s
unfolding trim trim_end
trim_cons c s h = rw (trim_start_cons c s h, h)

pub trim-blank : (b s : Text) → IsBlank b → trim (b ++ s) ≡ trim s
unfolding trim
trim-blank b s h = ap trim_end (trim_start-append_blank b s h)

pub split_once-append :
    (x : ℕ) (k s : Text) → All (λ c. c ≢ x) k → split_once x (k ++ x ∷ s) ≡ some (k, s)
unfolding split_once
split_once-append x [] s h = ground (arith, nat_beq_iff x x)
split_once-append x (c ∷ k) s (h, hs) = ground (arith, nat_beq_iff c x, split_once-append x k s hs)
