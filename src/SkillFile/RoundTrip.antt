-- ===== src/SkillFile/RoundTrip.antt =====
-- kanbrick-loops/src/lib.rs: what is printed is parsed to the manifest that it was printed from.
use kanbrick_v.Common.{
  ℕ, ◌+◌, Text, codes, List, [], ◌∷◌, ◌++◌, map, true, false, All, ◌≡◌, ◌≢◌, refl, ap, ◌∙◌, arith,
  trim, is_whitespace, is_empty, to_ascii_lower, to_ascii_upper, text_beq, some, ok, ◌>>=◌,
  IsTrimmed, IsBlank, join,
}
use kanbrick_v.Core.Clearance.{
  ClearanceLevel, l1, l2, l3, l4, l5, display, from_str, rank, level_of,
}
use kanbrick_v.SkillFile.{
  SkillManifest, fence, to_skill_md, lines, unquote, parse_fields, split_fence, drop_blank,
  assemble, parse_front, parse_opened, parse_skill_md, find_field, require, is_fence, strip_bom,
}
use kanbrick_v.SkillFile.Lines.{
  IsLine, NoReturn, lines-append, join-lines, join-blank_lines, trim-blank,
}
use kanbrick_v.SkillFile.Printed.{
  IsValue, IsKey, printed_line, printed_IsLine, parsed_lem, front_lem,
}

-- A manifest that the format can hold.
pub record IsPrintable (m : SkillManifest) : Type 0 where
  pub name : IsValue m.name
  pub name_given : m.name ≢ []
  pub version : IsValue m.version
  pub version_given : m.version ≢ []
  pub guest : IsValue m.guest
  pub guest_given : m.guest ≢ []
  pub description : IsValue m.description
  pub body_trimmed : IsTrimmed m.body
  pub body_returns : NoReturn m.body

keyed :
    (c : ℕ) (s : Text)
    → is_whitespace c ≡ false
    → trim (c ∷ s) ≡ c ∷ s
    → map to_ascii_lower (c ∷ s) ≡ c ∷ s
    → (c ≢ b'#') × (c ≢ b'-') × All (λ x. x ≢ b':') (c ∷ s)
    → IsLine (c ∷ s)
    → IsKey (c ∷ s)
keyed c s solid trimmed lower (no_hash, no_dash, no_colon) line = record {
  first = c;
  rest = s;
  parts = refl;
  solid = solid;
  no_hash = no_hash;
  no_dash = no_dash;
  trimmed = trimmed;
  lower = lower;
  no_colon = no_colon;
  line = line;
}

name_IsKey : IsKey (codes "name")
unfolding is_whitespace trim to_ascii_lower
name_IsKey = keyed b'n' (codes "ame") refl refl refl (omega arith) (omega arith)

version_IsKey : IsKey (codes "version")
unfolding is_whitespace trim to_ascii_lower
version_IsKey = keyed b'v' (codes "ersion") refl refl refl (omega arith) (omega arith)

guest_IsKey : IsKey (codes "guest")
unfolding is_whitespace trim to_ascii_lower
guest_IsKey = keyed b'g' (codes "uest") refl refl refl (omega arith) (omega arith)

clearance_IsKey : IsKey (codes "clearance")
unfolding is_whitespace trim to_ascii_lower
clearance_IsKey = keyed b'c' (codes "learance") refl refl refl (omega arith) (omega arith)

description_IsKey : IsKey (codes "description")
unfolding is_whitespace trim to_ascii_lower
description_IsKey = keyed b'd' (codes "escription") refl refl refl (omega arith) (omega arith)

level_IsValue : (l : ClearanceLevel) → IsValue (display l)
unfolding display rank trim unquote is_whitespace
level_IsValue l1 = record { line = omega arith; trimmed = refl; unquoted = refl }
level_IsValue l2 = record { line = omega arith; trimmed = refl; unquoted = refl }
level_IsValue l3 = record { line = omega arith; trimmed = refl; unquoted = refl }
level_IsValue l4 = record { line = omega arith; trimmed = refl; unquoted = refl }
level_IsValue l5 = record { line = omega arith; trimmed = refl; unquoted = refl }

from_str_of_display : (l : ClearanceLevel) → from_str (display l) ≡ ok l
unfolding from_str display rank level_of text_beq trim to_ascii_upper
from_str_of_display l1 = refl
from_str_of_display l2 = refl
from_str_of_display l3 = refl
from_str_of_display l4 = refl
from_str_of_display l5 = refl

-- The entries of a printed manifest, and its lines.
abbrev fields_of : SkillManifest → List (Text × Text)
fields_of m =
    (codes "name", m.name)
    ∷ (codes "version", m.version)
    ∷ (codes "guest", m.guest)
    ∷ (codes "clearance", display m.clearance)
    ∷ (codes "description", m.description)
    ∷ []

abbrev line_of : Text × Text → Text
line_of (key, value) = printed_line key value

abbrev front_of : SkillManifest → List Text
front_of m = map line_of (fields_of m)

abbrev ended : List Text → Text → Text
ended [] s = s
ended (l ∷ ls) s = l ++ b'\n' ∷ ended ls s

to_skill_md_lem :
    (m : SkillManifest)
    → to_skill_md m ≡ ended (fence ∷ front_of m) (fence ++ b'\n' ∷ b'\n' ∷ (m.body ++ b'\n' ∷ []))
unfolding to_skill_md
to_skill_md_lem m = refl

lines-ended : (ls : List Text) (s : Text) → All IsLine ls → lines (ended ls s) ≡ ls ++ lines s
lines-ended [] s h = refl
lines-ended (l ∷ ls) s (h, hs) =
    lines-append l (ended ls s) h ∙ ap (λ r. l ∷ r) (lines-ended ls s hs)

abbrev IsEntry : Text × Text → Type 0
IsEntry (key, value) = IsKey key × IsValue value

entries_IsLine : (fs : List (Text × Text)) → All IsEntry fs → All IsLine (map line_of fs)
entries_IsLine [] h = tt
entries_IsLine ((key, value) ∷ fs) ((k, v), hs) =
    (printed_IsLine key value k.line v.line, entries_IsLine fs hs)

fence_found : (body : List Text) → split_fence (fence ∷ body) ≡ some ([], body)
unfolding split_fence
fence_found body = refl

front_read :
    (fs : List (Text × Text)) (body : List Text)
    → All IsEntry fs
    → split_fence (map line_of fs ++ fence ∷ body) ≡ some (map line_of fs, body)
front_read [] body h = fence_found body
front_read ((key, value) ∷ fs) body ((k, v), hs) =
    front_lem key value k v (map line_of fs ++ fence ∷ body) ∙ rw (front_read fs body hs)

no_fields : (line : ℕ) → parse_fields line [] ≡ ok []
unfolding parse_fields
no_fields line = refl

fields_read :
    (line : ℕ) (fs : List (Text × Text))
    → All IsEntry fs
    → parse_fields line (map line_of fs) ≡ ok fs
fields_read line [] h = no_fields line
fields_read line ((key, value) ∷ fs) ((k, v), hs) =
    parsed_lem key value k v line (map line_of fs) ∙ rw (fields_read (line + 1) fs hs)

require_lem :
    (fields : List (Text × Text)) (key value : Text)
    → find_field key fields ≡ some value
    → value ≢ []
    → require fields key ≡ ok value
unfolding require is_empty
require_lem fields key [] e h = absurd (h refl)
require_lem fields key (c ∷ s) e h = rw e

found_name : (m : SkillManifest) → find_field (codes "name") (fields_of m) ≡ some m.name
unfolding find_field text_beq
found_name m = refl

found_version : (m : SkillManifest) → find_field (codes "version") (fields_of m) ≡ some m.version
unfolding find_field text_beq
found_version m = refl

found_guest : (m : SkillManifest) → find_field (codes "guest") (fields_of m) ≡ some m.guest
unfolding find_field text_beq
found_guest m = refl

found_clearance :
    (m : SkillManifest) → find_field (codes "clearance") (fields_of m) ≡ some (display m.clearance)
unfolding find_field text_beq
found_clearance m = refl

found_description :
    (m : SkillManifest) → find_field (codes "description") (fields_of m) ≡ some m.description
unfolding find_field text_beq
found_description m = refl

display_given : (l : ClearanceLevel) → display l ≢ []
unfolding display
display_given l h = cc

fence_first : is_fence fence ≡ true
unfolding text_beq trim
fence_first = refl

opened_lem :
    (n : ℕ) (ls : List Text) → parse_opened (n, fence ∷ ls) ≡ parse_front (n + 2) (split_fence ls)
opened_lem n ls = rw fence_first

assemble_lem :
    (fields : List (Text × Text)) (body : List Text) (m : SkillManifest)
    → require fields (codes "name") ≡ ok m.name
    → require fields (codes "version") ≡ ok m.version
    → require fields (codes "guest") ≡ ok m.guest
    → require fields (codes "clearance") ≡ ok (display m.clearance)
    → find_field (codes "description") fields ≡ some m.description
    → trim (join (codes "\n") body) ≡ m.body
    → assemble fields body ≡ ok m
unfolding assemble
assemble_lem fields body m name version guest clearance description text =
    ground (arith, from_str_of_display m.clearance)

feed_IsBlank : IsBlank (b'\n' ∷ [])
unfolding is_whitespace
feed_IsBlank = (refl, tt)

module _ (m : SkillManifest) (p : IsPrintable m) where
  entries : All IsEntry (fields_of m)
  entries = (
    (name_IsKey, p.name),
    (
      (version_IsKey, p.version),
      (
        (guest_IsKey, p.guest),
        ((clearance_IsKey, level_IsValue m.clearance), ((description_IsKey, p.description), tt)),
      ),
    ),
  )

  fence-IsLine : IsLine fence
  fence-IsLine = omega arith

  abbrev body_lines : List Text
  body_lines = [] ∷ lines (m.body ++ b'\n' ∷ [])

  printed_lines : lines (to_skill_md m) ≡ (fence ∷ front_of m) ++ fence ∷ body_lines
  printed_lines =
      ap lines (to_skill_md_lem m)
      ∙ lines-ended (fence ∷ front_of m) (fence ++ b'\n' ∷ b'\n' ∷ (m.body ++ b'\n' ∷ []))
          (fence-IsLine, entries_IsLine (fields_of m) entries)
      ∙ ap (λ ls. (fence ∷ front_of m) ++ ls)
          (lines-append fence (b'\n' ∷ (m.body ++ b'\n' ∷ [])) fence-IsLine
            ∙ ap (λ ls. fence ∷ ls) (lines-append [] (m.body ++ b'\n' ∷ []) tt))

  body_read : trim (join (codes "\n") body_lines) ≡ m.body
  body_read =
      ap trim (join-blank_lines m.body p.body_returns)
      ∙ trim-blank (b'\n' ∷ []) (join (b'\n' ∷ []) (lines (m.body ++ b'\n' ∷ []))) feed_IsBlank
      ∙ ap trim (join-lines m.body p.body_returns)
      ∙ p.body_trimmed

  assembled : assemble (fields_of m) body_lines ≡ ok m
  assembled =
      assemble_lem (fields_of m) body_lines m
        (require_lem (fields_of m) (codes "name") m.name (found_name m) p.name_given)
        (require_lem (fields_of m) (codes "version") m.version (found_version m) p.version_given)
        (require_lem (fields_of m) (codes "guest") m.guest (found_guest m) p.guest_given)
        (require_lem (fields_of m) (codes "clearance") (display m.clearance) (found_clearance m)
          (display_given m.clearance))
        (found_description m) body_read

  opened :
      (body : List Text)
      → drop_blank 0 ((fence ∷ front_of m) ++ fence ∷ body)
        ≡ (0, (fence ∷ front_of m) ++ fence ∷ body)
  unfolding drop_blank
  opened body = refl

  bom_lem : strip_bom (to_skill_md m) ≡ to_skill_md m
  unfolding to_skill_md
  bom_lem = refl

  -- What a manifest is printed as parses to the manifest: if none of its values holds a line break,
  -- has white space around it or a pair of quotes, the required ones are not empty, and its body has
  -- no white space around it and no carriage return.
  pub parse-to_skill_md : parse_skill_md (to_skill_md m) ≡ ok m
  unfolding parse_skill_md
  parse-to_skill_md =
      ap (λ s. parse_opened (drop_blank 0 (lines s))) bom_lem
      ∙ ap (λ ls. parse_opened (drop_blank 0 ls)) printed_lines
      ∙ ap parse_opened (opened body_lines)
      ∙ opened_lem 0 (front_of m ++ fence ∷ body_lines)
      ∙ ap (parse_front 2) (front_read (fields_of m) body_lines entries)
      ∙ ap (λ r. (do fields ← r; assemble fields body_lines)) (fields_read 2 (fields_of m) entries)
      ∙ assembled
