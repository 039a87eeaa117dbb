-- ===== src/Auth/ReadOnly/Words.antt =====
-- kanbrick-auth/src/readonly.rs, the loop of `ensure_read_only`: it checks the words of a text, one
-- after the other.
use kanbrick_v.Common.{
  ℕ, Text, List, [], ◌∷◌, ◌++◌, map, append_assoc, Bool, true, false, is_empty, to_ascii_upper,
  if◌then◌else◌, Bool-cases, Result, ok, ◌>>=◌, ◌≡◌, refl, sym, ap, ◌∙◌, fun_ext, inl, inr, All,
}
use kanbrick_v.Core.Error.{Error}
use kanbrick_v.Auth.ReadOnly.{is_word_char, end_word, scan}

abbrev pub begins_word : Text → Bool
begins_word [] = false
begins_word (c ∷ s) = is_word_char c

-- A text in front of the first of some words.
abbrev prepend : Text → List Text → List Text
prepend w [] = w ∷ []
prepend w (v ∷ vs) = (w ++ v) ∷ vs

-- A word before a text whose words are given: it goes on if the text begins with a word.
abbrev attach : Text → Text → List Text → List Text
attach w s ws = if begins_word s then prepend w ws else w ∷ ws

-- The words of a text: the longest runs of letters, digits and underscores.
unfoldable pub words : Text → List Text
words [] = []
words (c ∷ s) = let rest = words s in if is_word_char c then attach (c ∷ []) s rest else rest

abbrev pub upper : Text → Text
upper w = map to_ascii_upper w

-- The check of each word, in order.
unfoldable pub check_words : Bool → List Text → Result Error Bool
check_words opener_checked [] = ok opener_checked
check_words opener_checked (w ∷ ws) = do checked ← end_word opener_checked w; check_words checked ws

prepend-append : (a b : Text) (ws : List Text) → prepend (a ++ b) ws ≡ prepend a (prepend b ws)
prepend-append a b [] = refl
prepend-append a b (w ∷ ws) = ap (λ x. x ∷ ws) (append_assoc a b w)

prepend-attach : (a b s : Text) (ws : List Text) → prepend a (attach b s ws) ≡ attach (a ++ b) s ws
prepend-attach a b s ws = elim (Bool-cases (begins_word s)) [
  | inl h ↦ rw h (sym (prepend-append a b ws))
  | inr h ↦ rw h
]

upper-prepend :
    (c : ℕ) (ws : List Text)
    → map upper (prepend (c ∷ []) ws) ≡ prepend (to_ascii_upper c ∷ []) (map upper ws)
upper-prepend c [] = refl
upper-prepend c (w ∷ ws) = refl

upper-attach :
    (c : ℕ) (s : Text) (ws : List Text)
    → map upper (attach (c ∷ []) s ws) ≡ attach (to_ascii_upper c ∷ []) s (map upper ws)
upper-attach c s ws = elim (Bool-cases (begins_word s)) [
  | inl h ↦ rw h (upper-prepend c ws)
  | inr h ↦ rw h
]

word_lem : (c : ℕ) (s : Text) → is_word_char c ≡ true → words (c ∷ s) ≡ attach (c ∷ []) s (words s)
unfolding words
word_lem c s h = rw h

gap_lem : (c : ℕ) (s : Text) → is_word_char c ≡ false → words (c ∷ s) ≡ words s
unfolding words
gap_lem c s h = rw h

longer_lem :
    (checked : Bool) (word : Text) (c : ℕ) (s : Text)
    → is_word_char c ≡ true
    → scan checked word (c ∷ s) ≡ scan checked (word ++ to_ascii_upper c ∷ []) s
unfolding scan
longer_lem checked word c s h = rw h

skipped_lem :
    (checked : Bool) (c : ℕ) (s : Text)
    → is_word_char c ≡ false
    → scan checked [] (c ∷ s) ≡ scan checked [] s
unfolding scan is_empty
skipped_lem checked c s h = rw h

next_lem :
    (checked : Bool) (x : ℕ) (word : Text) (c : ℕ) (s : Text)
    → is_word_char c ≡ false
    → scan checked (x ∷ word) (c ∷ s)
      ≡ (do checked' ← end_word checked (x ∷ word); scan checked' [] s)
unfolding scan is_empty
next_lem checked x word c s h = rw h

no_words : words [] ≡ []
unfolding words
no_words = refl

space : is_word_char b' ' ≡ false
unfolding is_word_char
space = refl

upper_word :
    (c : ℕ) (s : Text)
    → is_word_char c ≡ true
    → map upper (words (c ∷ s)) ≡ attach (to_ascii_upper c ∷ []) s (map upper (words s))
upper_word c s h = ap (map upper) (word_lem c s h) ∙ upper-attach c s (words s)

attach_word :
    (w : Text) (c : ℕ) (s : Text)
    → is_word_char c ≡ true
    → attach (w ++ to_ascii_upper c ∷ []) s (map upper (words s))
      ≡ attach w (c ∷ s) (map upper (words (c ∷ s)))
attach_word w c s h =
    sym (prepend-attach w (to_ascii_upper c ∷ []) s (map upper (words s)))
    ∙ ap (prepend w) (sym (upper_word c s h))
    ∙ attached
  where
    attached : prepend w (map upper (words (c ∷ s))) ≡ attach w (c ∷ s) (map upper (words (c ∷ s)))
    attached = rw h

attach_gap :
    (w : Text) (c : ℕ) (s : Text)
    → is_word_char c ≡ false
    → w ∷ map upper (words s) ≡ attach w (c ∷ s) (map upper (words (c ∷ s)))
attach_gap w c s h = rw (h, gap_lem c s h)

last_gap :
    (checked : Bool) → scan checked [] (b' ' ∷ []) ≡ check_words checked (map upper (words []))
unfolding scan is_empty is_word_char words check_words
last_gap checked = refl

last_word :
    (checked : Bool) (x : ℕ) (word : Text)
    → scan checked (x ∷ word) (b' ' ∷ []) ≡ check_words checked ((x ∷ word) ∷ [])
unfolding scan is_empty is_word_char check_words
last_word checked x word = refl

check_word :
    (checked : Bool) (w s : Text) (ws : List Text)
    → ((checked' : Bool) → scan checked' [] s ≡ check_words checked' ws)
    → (do checked' ← end_word checked w; scan checked' [] s) ≡ check_words checked (w ∷ ws)
unfolding check_words
check_word checked w s ws h = ap (λ f. end_word checked w >>= f) (fun_ext h)

mutual
  scan_gap :
      (checked : Bool) (s : Text)
      → scan checked [] (s ++ b' ' ∷ []) ≡ check_words checked (map upper (words s))
  scan_gap checked [] = last_gap checked
  scan_gap checked (c ∷ s) = elim (Bool-cases (is_word_char c)) [
    | inl h ↦
        longer_lem checked [] c (s ++ b' ' ∷ []) h
        ∙ scan_word checked (to_ascii_upper c) [] s
        ∙ ap (check_words checked) (sym (upper_word c s h))
    | inr h ↦
        skipped_lem checked c (s ++ b' ' ∷ []) h
        ∙ scan_gap checked s
        ∙ ap (λ ws. check_words checked (map upper ws)) (sym (gap_lem c s h))
  ]

  scan_word :
      (checked : Bool) (x : ℕ) (word s : Text)
      → scan checked (x ∷ word) (s ++ b' ' ∷ [])
        ≡ check_words checked (attach (x ∷ word) s (map upper (words s)))
  scan_word checked x word [] =
      last_word checked x word
      ∙ ap (λ ws. check_words checked ((x ∷ word) ∷ map upper ws)) (sym no_words)
  scan_word checked x word (c ∷ s) = elim (Bool-cases (is_word_char c)) [
    | inl h ↦
        longer_lem checked (x ∷ word) c (s ++ b' ' ∷ []) h
        ∙ scan_word checked x (word ++ to_ascii_upper c ∷ []) s
        ∙ ap (check_words checked) (attach_word (x ∷ word) c s h)
    | inr h ↦
        next_lem checked x word c (s ++ b' ' ∷ []) h
        ∙ check_word checked (x ∷ word) (s ++ b' ' ∷ []) (map upper (words s))
            (λ checked'. scan_gap checked' s)
        ∙ ap (check_words checked) (attach_gap (x ∷ word) c s h)
  ]

-- The loop over a text checks the words of the text, in upper case.
pub scan-check_words :
    (s : Text) → scan false [] (s ++ b' ' ∷ []) ≡ check_words false (map upper (words s))
scan-check_words s = scan_gap false s

-- What stands before a place between two words does not change the words after it.
abbrev pub ends_word : Text → Bool
ends_word [] = false
ends_word (c ∷ []) = is_word_char c
ends_word (c ∷ d ∷ s) = ends_word (d ∷ s)

gap_cons :
    (c : ℕ) (s : Text)
    → begins_word s ≡ false
    → is_word_char c ≡ true
    → words (c ∷ s) ≡ (c ∷ []) ∷ words s
gap_cons c s h k = word_lem c s k ∙ rw h

prepend_append_attach :
    (w v s : Text) (ws vs : List Text)
    → prepend w (attach v s ws ++ vs) ≡ prepend w (attach v s ws) ++ vs
prepend_append_attach w v s [] vs = elim (Bool-cases (begins_word s)) [
  | inl h ↦ rw h
  | inr h ↦ rw h
]
prepend_append_attach w v s (u ∷ ws) vs = elim (Bool-cases (begins_word s)) [
  | inl h ↦ rw h
  | inr h ↦ rw h
]

attach-append :
    (c d : ℕ) (a : Text) (vs : List Text)
    → attach (c ∷ []) (d ∷ a) (words (d ∷ a) ++ vs) ≡ attach (c ∷ []) (d ∷ a) (words (d ∷ a)) ++ vs
attach-append c d a vs = elim (Bool-cases (is_word_char d)) [
  | inl h ↦ rw (word_lem d a h, h) (prepend_append_attach (c ∷ []) (d ∷ []) a (words a) vs)
  | inr h ↦ rw h
]

pub words-append : (a s : Text) → ends_word a ≡ false → words (a ++ s) ≡ words a ++ words s
words-append [] s h = ap (λ ws. ws ++ words s) (sym no_words)
words-append (c ∷ []) s h =
    gap_lem c s h ∙ ap (λ ws. ws ++ words s) (sym (gap_lem c [] h ∙ no_words))
words-append (c ∷ d ∷ a) s h = elim (Bool-cases (is_word_char c)) [
  | inl k ↦
      word_lem c ((d ∷ a) ++ s) k
      ∙ ap (attach (c ∷ []) ((d ∷ a) ++ s)) (words-append (d ∷ a) s h)
      ∙ attach-append c d a (words s)
      ∙ ap (λ ws. ws ++ words s) (sym (word_lem c (d ∷ a) k))
  | inr k ↦
      gap_lem c ((d ∷ a) ++ s) k
      ∙ words-append (d ∷ a) s h
      ∙ ap (λ ws. ws ++ words s) (sym (gap_lem c (d ∷ a) k))
]

-- A word that stands between two gaps is the first of the words from there on.
pub words-word :
    (x : ℕ) (w s : Text)
    → All (λ c. is_word_char c ≡ true) (x ∷ w)
    → begins_word s ≡ false
    → words ((x ∷ w) ++ s) ≡ (x ∷ w) ∷ words s
words-word x [] s (hx, _) h = gap_cons x s h hx
words-word x (y ∷ w) s (hx, (hy, hw)) h =
    word_lem x ((y ∷ w) ++ s) hx
    ∙ ap (attach (x ∷ []) ((y ∷ w) ++ s)) (words-word y w s (hy, hw) h)
    ∙ rw hy
