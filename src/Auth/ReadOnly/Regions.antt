-- ===== src/Auth/ReadOnly/Regions.antt =====
-- kanbrick-auth/src/readonly.rs, `strip_opaque_regions`: what a statement is with its quoted regions
-- left out, as a relation that does not go by the scanner.
use kanbrick_v.Common.{
  ℕ, Text, codes, [], ◌∷◌, ◌++◌, true, false, ◌&&◌, nat_beq, nat_beq_iff, Bool-cases, All, ok, err,
  ◌>>=◌, ◌≡◌, ◌≢◌, refl, sym, ap, ◌∙◌, subst, >>=-eq-ok, >>=-eq-err, ok_injective, err_injective,
  ok_ne_err, inl, inr, arith,
}
use native.Mathlib.Decide.{ℕ_discrete}
use kanbrick_v.Core.Error.{Error}
use kanbrick_v.Auth.ReadOnly.{is_quote, opens_comment, strip_opaque_regions, skip_region, refused}

-- `Blanked t out`: the text `t` is made of plain characters, none of which begins a comment, and of
-- regions between two equal quotes; `out` has a space for each region.
pub data Blanked : Text → Text → Type 0 where
  done : Blanked [] []
  plain :
      {c : ℕ} {s out : Text}
      → is_quote c ≡ false
      → (nat_beq c b'/' && opens_comment s) ≡ false
      → Blanked s out
      → Blanked (c ∷ s) (c ∷ out)
  region :
      {t s out : Text} (quote : ℕ) (inside : Text)
      → t ≡ quote ∷ (inside ++ quote ∷ s)
      → is_quote quote ≡ true
      → All (λ c. c ≢ quote) inside
      → Blanked s out
      → Blanked t (b' ' ∷ out)

-- What is left of a text after a region that ends with `quote`.
abbrev Inside : ℕ → Text → Text → Type 0
Inside quote s out =
    (inside rest : Text) × (s ≡ inside ++ quote ∷ rest)
    × All (λ c. c ≢ quote) inside
    × Blanked rest out

nil_lem : strip_opaque_regions [] ≡ ok []
unfolding strip_opaque_regions
nil_lem = refl

unterminated_lem :
    (quote : ℕ) → skip_region quote [] ≡ err (refused (codes "unterminated quoted region"))
unfolding strip_opaque_regions
unterminated_lem quote = refl

quote_lem :
    (c : ℕ) (s : Text)
    → is_quote c ≡ true
    → strip_opaque_regions (c ∷ s) ≡ (do out ← skip_region c s; ok (b' ' ∷ out))
unfolding strip_opaque_regions
quote_lem c s h = ground arith

plain_lem :
    (c : ℕ) (s : Text)
    → is_quote c ≡ false
    → (nat_beq c b'/' && opens_comment s) ≡ false
    → strip_opaque_regions (c ∷ s) ≡ (do out ← strip_opaque_regions s; ok (c ∷ out))
unfolding strip_opaque_regions
plain_lem c s h k = ground arith

comment_lem :
    (c : ℕ) (s : Text)
    → is_quote c ≡ false
    → (nat_beq c b'/' && opens_comment s) ≡ true
    → strip_opaque_regions (c ∷ s) ≡ err (refused (codes "comment"))
unfolding strip_opaque_regions
comment_lem c s h k = ground arith

closed_lem : (quote : ℕ) (s : Text) → skip_region quote (quote ∷ s) ≡ strip_opaque_regions s
unfolding strip_opaque_regions
closed_lem quote s = ground (arith, nat_beq_iff quote quote)

open_lem : (quote c : ℕ) (s : Text) → c ≢ quote → skip_region quote (c ∷ s) ≡ skip_region quote s
unfolding strip_opaque_regions
open_lem quote c s h = ground (arith, nat_beq_iff c quote)

mutual
  strip_sound : (t out : Text) → strip_opaque_regions t ≡ ok out → Blanked t out
  strip_sound [] out h = subst (Blanked []) (ok_injective (sym nil_lem ∙ h)) done
  strip_sound (c ∷ s) out h = elim (Bool-cases (is_quote c)) [
    | inl q ↦
        let (blanked, e, f) = >>=-eq-ok (skip_region c s) _ (sym (quote_lem c s q) ∙ h) in
        let (inside, rest, k, apart, b) = skip_sound c s blanked e in
        subst (Blanked (c ∷ s)) (ok_injective f) (region c inside (ap (λ l. c ∷ l) k) q apart b)
    | inr p ↦ elim (Bool-cases (nat_beq c b'/' && opens_comment s)) [
      | inl comment ↦ absurd (ok_ne_err (sym h ∙ comment_lem c s p comment))
      | inr other ↦
          let (blanked, e, f) =
            >>=-eq-ok (strip_opaque_regions s) _ (sym (plain_lem c s p other) ∙ h) in
          subst (Blanked (c ∷ s)) (ok_injective f) (plain p other (strip_sound s blanked e))
    ]
  ]

  skip_sound : (quote : ℕ) (s out : Text) → skip_region quote s ≡ ok out → Inside quote s out
  skip_sound quote [] out h = absurd (ok_ne_err (sym h ∙ unterminated_lem quote))
  skip_sound quote (c ∷ s) out h = elim (ℕ_discrete c quote) [
    | yes e ↦
        let closed = sym (closed_lem c s) ∙ ap (λ q. skip_region q (c ∷ s)) e ∙ h in
        ([], s, ap (λ q. q ∷ s) e, tt, strip_sound s out closed)
    | no n ↦
        let (inside, rest, e, apart, b) = skip_sound quote s out (sym (open_lem quote c s n) ∙ h) in
        (c ∷ inside, rest, ap (λ l. c ∷ l) e, (n, apart), b)
  ]

skip_region_lem :
    (quote : ℕ) (inside s : Text)
    → All (λ c. c ≢ quote) inside
    → skip_region quote (inside ++ quote ∷ s) ≡ strip_opaque_regions s
skip_region_lem quote [] s h = closed_lem quote s
skip_region_lem quote (c ∷ inside) s (h, hs) =
    open_lem quote c (inside ++ quote ∷ s) h ∙ skip_region_lem quote inside s hs

-- The scanner accepts exactly the texts that are made of such parts, and blanks their regions.
pub Blanked-strip : {t out : Text} → Blanked t out → strip_opaque_regions t ≡ ok out
Blanked-strip done = nil_lem
Blanked-strip (plain {c} {s} {out} p k b) =
    plain_lem c s p k ∙ ap (λ m. (do o ← m; ok (c ∷ o))) (Blanked-strip b)
Blanked-strip (region {s} quote inside e q apart b) =
    ap strip_opaque_regions e
    ∙ quote_lem quote (inside ++ quote ∷ s) q
    ∙ ap (λ m. (do o ← m; ok (b' ' ∷ o))) (skip_region_lem quote inside s apart ∙ Blanked-strip b)

pub strip-Blanked : (t out : Text) → strip_opaque_regions t ≡ ok out → Blanked t out
strip-Blanked t out h = strip_sound t out h

abbrev pub IsRefusal : Error → Type 0
IsRefusal e = (what : Text) × (e ≡ refused what)

mutual
  strip_refused : (t : Text) (e : Error) → strip_opaque_regions t ≡ err e → IsRefusal e
  strip_refused [] e h = absurd (ok_ne_err (sym nil_lem ∙ h))
  strip_refused (c ∷ s) e h = elim (Bool-cases (is_quote c)) [
    | inl q ↦ elim (>>=-eq-err (skip_region c s) _ (sym (quote_lem c s q) ∙ h)) [
      | inl k ↦ skip_refused c s e k
      | inr (o, _, k) ↦ absurd (ok_ne_err k)
    ]
    | inr p ↦ elim (Bool-cases (nat_beq c b'/' && opens_comment s)) [
      | inl comment ↦ (codes "comment", sym (err_injective (sym (comment_lem c s p comment) ∙ h)))
      | inr other ↦ elim (>>=-eq-err (strip_opaque_regions s) _ (sym (plain_lem c s p other) ∙ h)) [
        | inl k ↦ strip_refused s e k
        | inr (o, _, k) ↦ absurd (ok_ne_err k)
      ]
    ]
  ]

  skip_refused : (quote : ℕ) (s : Text) (e : Error) → skip_region quote s ≡ err e → IsRefusal e
  skip_refused quote [] e h =
      (codes "unterminated quoted region", sym (err_injective (sym (unterminated_lem quote) ∙ h)))
  skip_refused quote (c ∷ s) e h = elim (ℕ_discrete c quote) [
    | yes q ↦ strip_refused s e (sym (closed_lem c s) ∙ ap (λ x. skip_region x (c ∷ s)) q ∙ h)
    | no n ↦ skip_refused quote s e (sym (open_lem quote c s n) ∙ h)
  ]

pub strip-IsRefusal : (t : Text) (e : Error) → strip_opaque_regions t ≡ err e → IsRefusal e
strip-IsRefusal t e h = strip_refused t e h
