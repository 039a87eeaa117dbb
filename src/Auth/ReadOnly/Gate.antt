-- ===== src/Auth/ReadOnly/Gate.antt =====
-- kanbrick-auth/src/readonly.rs: what the gate accepts, and how it refuses.
use kanbrick_v.Common.{
  ℕ, Text, codes, List, [], ◌∷◌, ◌++◌, map, Bool, true, false, not, ◌&&◌, any, All, All-split,
  nat_beq, contains, text_eq, Bool-cases, Result, Result-cases, ok, err, ◌>>=◌, >>=-eq-ok,
  >>=-eq-err, ok_injective, err_injective, ok_ne_err, ◌≡◌, ◌↔◌, refl, sym, ap, subst, ◌∙◌, inl, inr,
  arith, if◌then◌else◌,
}
use mathlib.Core.List.{map-append}
use kanbrick_v.Core.Error.{Error, kind, unauthorized}
use kanbrick_v.Auth.ReadOnly.{
  write_keywords, read_openers, refused, strip_opaque_regions, end_word, scan, ensure_read_only,
  is_word_char,
}
use kanbrick_v.Auth.ReadOnly.Regions.{
  Blanked, Blanked-strip, strip-Blanked, IsRefusal, strip-IsRefusal,
}
use kanbrick_v.Auth.ReadOnly.Words.{
  words, upper, check_words, scan-check_words, words-append, words-word, begins_word, ends_word,
}

abbrev pub is_backslash : ℕ → Bool
is_backslash c = nat_beq c b'\\'

abbrev pub NoWrite : List Text → Type 0
NoWrite = All (λ w. contains write_keywords w ≡ false)

abbrev OpensWithRead : List Text → Type 0
OpensWithRead [] = ⊥
OpensWithRead (w ∷ ws) = contains read_openers w ≡ true

-- A statement that only reads: it holds no backslash, is made of plain characters and quoted
-- regions, and outside the regions its first word opens a read and no word is a write clause.
pub record IsReadOnly (cypher : Text) : Type 0 where
  pub no_backslash : any is_backslash cypher ≡ false
  pub out : Text
  pub blanked : Blanked cypher out
  pub opens : OpensWithRead (map upper (words out))
  pub no_write : NoWrite (map upper (words out))

end_word_iff :
    (checked : Bool) (w : Text)
    → contains write_keywords w ≡ false
    → (not checked && not (contains read_openers w)) ≡ false
    → end_word checked w ≡ ok true
unfolding end_word
end_word_iff checked w h k = rw (k, h)

check_words-true : (ws : List Text) → NoWrite ws → check_words true ws ≡ ok true
unfolding check_words
check_words-true [] h = refl
check_words-true (w ∷ ws) (h, hs) = rw (end_word_iff true w h refl) (check_words-true ws hs)

-- A word that the check lets pass.
end_word_inv :
    (checked : Bool) (w : Text) (b : Bool)
    → end_word checked w ≡ ok b
    → (b ≡ true)
      × ((not checked && not (contains read_openers w)) ≡ false)
      × (contains write_keywords w ≡ false)
unfolding end_word
end_word_inv checked w b h = ground arith

check_words-true_inv :
    (ws : List Text) (b : Bool) → check_words true ws ≡ ok b → (b ≡ true) × NoWrite ws
unfolding check_words
check_words-true_inv [] b h = (sym (ok_injective h), tt)
check_words-true_inv (w ∷ ws) b h =
    let (checked, e, f) = >>=-eq-ok (end_word true w) _ h in
    let (t, _, n) = end_word_inv true w checked e in
    let (r, ns) = check_words-true_inv ws b (rw t at f) in (r, (n, ns))

check_words_ok : (ws : List Text) → OpensWithRead ws → NoWrite ws → check_words false ws ≡ ok true
unfolding check_words
check_words_ok [] o n = absurd o
check_words_ok (w ∷ ws) o (h, hs) =
    rw (end_word_iff false w h (ground arith)) (check_words-true ws hs)

check_words_inv : (ws : List Text) → check_words false ws ≡ ok true → OpensWithRead ws × NoWrite ws
unfolding check_words end_word
check_words_inv [] h = cc
check_words_inv (w ∷ ws) h =
    let (checked, e, f) = >>=-eq-ok (end_word false w) _ h in
    let (t, o, n) = end_word_inv false w checked e in
    (ground arith, (n, (check_words-true_inv ws true (rw t at f)).1))

scan_ok_iff :
    (out : Text)
    → (scan false [] (out ++ b' ' ∷ []) ≡ ok true)
      ↔ (OpensWithRead (map upper (words out)) × NoWrite (map upper (words out)))
scan_ok_iff out = (
  λ h. check_words_inv (map upper (words out)) (sym (scan-check_words out) ∙ h),
  λ p. scan-check_words out ∙ check_words_ok (map upper (words out)) p.0 p.1,
)

abbrev verdict : Bool → Result Error (Unit {0})
verdict b = if b then ok tt else err (refused (codes "no read clause"))

-- What follows the check for a backslash.
abbrev gate : Text → Result Error (Unit {0})
gate cypher = do
  scannable ← strip_opaque_regions cypher
  opener_checked ← scan false [] (scannable ++ b' ' ∷ [])
  verdict opener_checked

gate_lem : (q : Text) → any is_backslash q ≡ false → ensure_read_only q ≡ gate q
unfolding ensure_read_only
gate_lem q h = rw h

backslash_lem :
    (q : Text) → any is_backslash q ≡ true → ensure_read_only q ≡ err (refused (codes "backslash"))
unfolding ensure_read_only
backslash_lem q h = rw h

last_test : (b : Bool) → verdict b ≡ ok tt → b ≡ true
last_test true h = refl
last_test false h = absurd (ok_ne_err (sym h))

ensure_sound : (q : Text) → ensure_read_only q ≡ ok tt → IsReadOnly q
ensure_sound q h = elim (Bool-cases (any is_backslash q)) [
  | inl p ↦ absurd (ok_ne_err (sym h ∙ backslash_lem q p))
  | inr p ↦
      let (out, e, f) = >>=-eq-ok (strip_opaque_regions q) _ (sym (gate_lem q p) ∙ h) in
      let (b, g, l) = >>=-eq-ok (scan false [] (out ++ b' ' ∷ [])) _ f in
      let (opens, no_write) = (scan_ok_iff out).0 (g ∙ ap ok (last_test b l)) in
      record {
        no_backslash = p;
        out = out;
        blanked = strip-Blanked q out e;
        opens = opens;
        no_write = no_write;
      }
]

ensure_complete : (q : Text) → IsReadOnly q → ensure_read_only q ≡ ok tt
ensure_complete q r =
    gate_lem q r.no_backslash
    ∙ rw (Blanked-strip r.blanked, (scan_ok_iff r.out).1 (r.opens, r.no_write))

-- The gate accepts exactly the statements that only read: those without a backslash and without a
-- comment, whose quotes all close, and which, the quoted regions left out, begin with a word that
-- opens a read and have no word that is a write clause, in any case of the letters.
pub ensure_read_only_iff : (cypher : Text) → (ensure_read_only cypher ≡ ok tt) ↔ IsReadOnly cypher
ensure_read_only_iff cypher = (ensure_sound cypher, ensure_complete cypher)

end_word-IsRefusal :
    (checked : Bool) (w : Text) (e : Error) → end_word checked w ≡ err e → IsRefusal e
unfolding end_word
end_word-IsRefusal checked w e h =
    elim (Bool-cases (not checked && not (contains read_openers w))) [
      | inl p ↦
          (codes "statement must open with a read clause, not " ++ w, err_injective (sym h ∙ rw p))
      | inr p ↦ elim (Bool-cases (contains write_keywords w)) [
        | inl q ↦ (codes "write clause " ++ w, err_injective (sym h ∙ rw (p, q)))
        | inr q ↦ absurd (ok_ne_err {a = true} {e = e} (rw (p, q) at h))
      ]
    ]

check_words-IsRefusal :
    (checked : Bool) (ws : List Text) (e : Error) → check_words checked ws ≡ err e → IsRefusal e
unfolding check_words
check_words-IsRefusal checked [] e h = absurd (ok_ne_err h)
check_words-IsRefusal checked (w ∷ ws) e h = elim (>>=-eq-err (end_word checked w) _ h) [
  | inl k ↦ end_word-IsRefusal checked w e k
  | inr (next, _, k) ↦ check_words-IsRefusal next ws e k
]

verdict-IsRefusal : (b : Bool) (e : Error) → verdict b ≡ err e → IsRefusal e
verdict-IsRefusal true e h = absurd (ok_ne_err h)
verdict-IsRefusal false e h = (codes "no read clause", err_injective (sym h))

-- Every refusal is an authentication error that names the channel, which is reported as
-- unauthorized.
pub ensure_read_only_error :
    (cypher : Text) (e : Error)
    → ensure_read_only cypher ≡ err e
    → IsRefusal e × (kind e ≡ unauthorized)
unfolding kind
ensure_read_only_error q e h = let (what, k) = found in ((what, k), rw k)
  where
    found : IsRefusal e
    found = elim (Bool-cases (any is_backslash q)) [
      | inl p ↦ (codes "backslash", err_injective (sym h ∙ backslash_lem q p))
      | inr p ↦ elim (>>=-eq-err (strip_opaque_regions q) _ (sym (gate_lem q p) ∙ h)) [
        | inl k ↦ strip-IsRefusal q e k
        | inr (out, _, f) ↦ elim (>>=-eq-err (scan false [] (out ++ b' ' ∷ [])) _ f) [
          | inl k ↦
              check_words-IsRefusal false (map upper (words out)) e (sym (scan-check_words out) ∙ k)
          | inr (b, _, k) ↦ verdict-IsRefusal b e k
        ]
      ]
    ]

words_of :
    (a b w : Text) (x : ℕ)
    → ends_word a ≡ false
    → All (λ c. is_word_char c ≡ true) (x ∷ w)
    → begins_word b ≡ false
    → words (a ++ ((x ∷ w) ++ b)) ≡ words a ++ (x ∷ w) ∷ words b
words_of a b w x ha hw hb =
    words-append a ((x ∷ w) ++ b) ha ∙ ap (λ ws. words a ++ ws) (words-word x w b hw hb)

write_word :
    (ws vs : List Text) (w : Text)
    → NoWrite (map upper (ws ++ w ∷ vs))
    → contains write_keywords (upper w) ≡ false
write_word ws vs w h =
    (All-split (λ v. contains write_keywords v ≡ false) (map upper ws) (map upper (w ∷ vs))
      (subst NoWrite (map-append upper ws (w ∷ vs)) h)).1.0

-- A write clause is refused wherever it stands: if a word of a statement, outside its quoted
-- regions, is one in any case of its letters, the statement is refused, whatever else it holds.
pub write_clause_refused :
    (cypher a b w : Text) (x : ℕ)
    → Blanked cypher (a ++ ((x ∷ w) ++ b))
    → ends_word a ≡ false
    → All (λ c. is_word_char c ≡ true) (x ∷ w)
    → begins_word b ≡ false
    → contains write_keywords (upper (x ∷ w)) ≡ true
    → (what : Text) × (ensure_read_only cypher ≡ err (refused what))
write_clause_refused q a b w x blanked ha hw hb k = elim (Result-cases (ensure_read_only q)) [
  | inr (e, h) ↦ let (what, r) = (ensure_read_only_error q e h).0 in (what, h ∙ ap err r)
  | inl (_, h) ↦
      let r = ensure_sound q h in
      let equal = ok_injective (sym (Blanked-strip r.blanked) ∙ Blanked-strip blanked) in
      let parts = ap words equal ∙ words_of a b w x ha hw hb in
      let none_written = subst (λ ws. NoWrite (map upper ws)) parts r.no_write in
      let harmless = write_word (words a) (words b) (x ∷ w) none_written in cc
]
