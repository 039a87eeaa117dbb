-- ===== src/SkillFile/Printed.antt =====
-- kanbrick-loops/src/lib.rs: the lines that a manifest is printed as, and how each is read.
use kanbrick_v.Common.{
  ℕ, ◌+◌, Text, List, [], ◌∷◌, ◌++◌, map, false, nat_beq_iff, All, ◌≡◌, ◌≢◌, refl, ap, ◌∙◌, arith,
  trim, trim_end, is_whitespace, is_empty, to_ascii_lower, text_beq, none, some, ok, ◌>>=◌,
  IsTrimmed, IsBlank,
}
use kanbrick_v.SkillFile.{fence, unquote, is_comment, is_fence, entry, parse_fields, split_fence}
use kanbrick_v.SkillFile.Lines.{IsLine, trim_cons, trim-blank, split_once-append}

-- A value that is read back as it is printed: a line with no white space around it and no quotes.
pub record IsValue (v : Text) : Type 0 where
  pub line : IsLine v
  pub trimmed : IsTrimmed v
  pub unquoted : unquote v ≡ v

abbrev pub printed_line : Text → Text → Text
printed_line key value = key ++ b':' ∷ b' ' ∷ value

-- A key that the format has: a word in lower case that begins with a letter.
pub record IsKey (key : Text) : Type 0 where
  pub first : ℕ
  pub rest : Text
  pub parts : key ≡ first ∷ rest
  pub solid : is_whitespace first ≡ false
  pub no_hash : first ≢ b'#'
  pub no_dash : first ≢ b'-'
  pub trimmed : trim key ≡ key
  pub lower : map to_ascii_lower key ≡ key
  pub no_colon : All (λ c. c ≢ b':') key
  pub line : IsLine key

colon : IsLine (b':' ∷ b' ' ∷ [])
colon = omega arith

pub printed_IsLine :
    (key value : Text) → IsLine key → IsLine value → IsLine (printed_line key value)
printed_IsLine [] value h k = (colon.0, (colon.1.0, k))
printed_IsLine (c ∷ key) value (h, hs) k = (h, printed_IsLine key value hs k)

solid_not_comment : (c : ℕ) (s : Text) → c ≢ b'#' → is_comment (c ∷ s) ≡ false
unfolding is_empty
solid_not_comment c s h = ground (arith, nat_beq_iff c b'#')

solid_not_fence : (c : ℕ) (s : Text) → c ≢ b'-' → text_beq (c ∷ s) fence ≡ false
unfolding text_beq
solid_not_fence c s h = ground (arith, nat_beq_iff c b'-')

one_space : IsBlank (b' ' ∷ [])
unfolding is_whitespace
one_space = (refl, tt)

-- A printed entry is neither a comment nor a fence, and is read back.
module _ (key value : Text) (k : IsKey key) (v : IsValue value) where
  solid_line : trim (printed_line key value) ≡ k.first ∷ trim_end (k.rest ++ b':' ∷ b' ' ∷ value)
  solid_line =
      ap (λ l. trim (l ++ b':' ∷ b' ' ∷ value)) k.parts
      ∙ trim_cons k.first (k.rest ++ b':' ∷ b' ' ∷ value) k.solid

  not_comment : is_comment (trim (printed_line key value)) ≡ false
  not_comment = ap is_comment solid_line ∙ solid_not_comment k.first _ k.no_hash

  not_fence : is_fence (printed_line key value) ≡ false
  not_fence = ap (λ l. text_beq l fence) solid_line ∙ solid_not_fence k.first _ k.no_dash

  value_lem : unquote (trim (b' ' ∷ value)) ≡ value
  value_lem = ap unquote (trim-blank (b' ' ∷ []) value one_space ∙ v.trimmed) ∙ v.unquoted

  entry_lem : entry (key, b' ' ∷ value) ≡ (key, value)
  entry_lem i = ((ap (map to_ascii_lower) k.trimmed ∙ k.lower) i, value_lem i)

  pub parsed_lem :
      (line : ℕ) (ls : List Text)
      → parse_fields line (printed_line key value ∷ ls)
        ≡ (do more ← parse_fields (line + 1) ls; ok ((key, value) ∷ more))
  unfolding parse_fields
  parsed_lem line ls =
      rw (not_comment, split_once-append b':' key (b' ' ∷ value) k.no_colon, entry_lem)

  pub front_lem :
      (ls : List Text)
      → split_fence (printed_line key value ∷ ls) ≡ elim (split_fence ls) [
        | none ↦ none
        | some (front, body) ↦ some (printed_line key value ∷ front, body)
      ]
  unfolding split_fence
  front_lem ls = rw not_fence
