-- ===== src/SkillFile.antt =====
-- kanbrick-loops/src/lib.rs: the `SKILL.md` format, its parser and its printer.
pub mod Lines
pub mod Printed
pub mod RoundTrip
mod Tests
use kanbrick_v.Common.{
  ℕ, ◌+◌, Text, codes, List, [], ◌∷◌, ◌++◌, map, Bool, true, false, not, ◌&&◌, ◌||◌, nat_beq,
  text_beq, Option, none, some, Result, ok, err, ◌>>=◌, if◌then◌else◌, is_empty, trim,
  to_ascii_lower, join,
}
use kanbrick_v.Core.Clearance.{ClearanceLevel, display, from_str}

pub record SkillManifest : Type 0 where
  pub name : Text
  pub version : Text
  pub guest : Text
  pub clearance : ClearanceLevel
  pub description : Text
  pub body : Text

-- FENCE
abbrev pub fence : Text
fence = codes "---"

-- `SkillManifest::to_skill_md`
unfoldable pub to_skill_md : SkillManifest → Text
unfolding display
to_skill_md m =
    fence
    ++ (codes "\nname: "
        ++ (m.name
            ++ (codes "\nversion: "
                ++ (m.version
                    ++ (codes "\nguest: "
                        ++ (m.guest
                            ++ (codes "\nclearance: "
                                ++ (display m.clearance
                                    ++ (codes "\ndescription: "
                                        ++ (m.description
                                            ++ (codes "\n"
                                                ++ (fence
                                                    ++ (codes "\n\n"
                                                        ++ (m.body ++ codes "\n"))))))))))))))

pub data SkillParseError : Type 0 where
  missing_frontmatter unterminated_frontmatter : SkillParseError
  bad_line : ℕ → Text → SkillParseError
  missing_key : Text → SkillParseError
  empty_value : Text → SkillParseError
  bad_clearance : Text → SkillParseError

-- A character in front of the first line.
abbrev pub onto : ℕ → List Text → List Text
onto c [] = (c ∷ []) ∷ []
onto c (l ∷ ls) = (c ∷ l) ∷ ls

abbrev pub begins_with : ℕ → Text → Bool
begins_with x [] = false
begins_with x (c ∷ s) = nat_beq c x

-- `str::lines`: a line ends with a line feed, with or without a carriage return before it, and the
-- text after the last line feed is a line if it is not empty.
unfoldable pub lines : Text → List Text
lines [] = []
lines (c ∷ s) =
    let rest = lines s in
    if nat_beq c b'\n'
    then [] ∷ rest
    else if nat_beq c b'\r' && begins_with b'\n' s
    then rest
    else onto c rest

-- `str::split_once`
unfoldable pub split_once : ℕ → Text → Option (Text × Text)
split_once x [] = none
split_once x (c ∷ s) =
    let rest = split_once x s in
    if nat_beq c x
    then some ([], s)
    else elim rest [ none ↦ none | some (before, after) ↦ some (c ∷ before, after) ]

-- `strip_prefix('\u{feff}')`
abbrev pub strip_bom : Text → Text
strip_bom [] = []
strip_bom (c ∷ s) = if nat_beq c 0xfeff then s else c ∷ s

abbrev last_or : ℕ → Text → ℕ
last_or x [] = x
last_or x (c ∷ s) = last_or c s

abbrev but_last : ℕ → Text → Text
but_last x [] = []
but_last x (c ∷ s) = x ∷ but_last c s

-- `unquote`, whose quotes are single bytes
unfoldable pub unquote : Text → Text
unquote [] = []
unquote (q ∷ []) = q ∷ []
unquote (q ∷ c ∷ s) =
    if (nat_beq q b'"' || nat_beq q b'\'') && nat_beq (last_or c s) q
    then but_last c s
    else q ∷ c ∷ s

-- The lines from the first that is not blank, and how many stand before it.
unfoldable pub drop_blank : ℕ → List Text → ℕ × List Text
unfolding is_empty trim
drop_blank open' [] = (open', [])
drop_blank open' (l ∷ ls) =
    let later = drop_blank (open' + 1) ls in if is_empty (trim l) then later else (open', l ∷ ls)

abbrev pub is_fence : Text → Bool
is_fence l = text_beq (trim l) fence

-- The lines before the first fence, and those after it.
unfoldable pub split_fence : List Text → Option (List Text × List Text)
unfolding text_beq trim
split_fence [] = none
split_fence (l ∷ ls) =
    let rest = split_fence ls in
    if is_fence l
    then some ([], ls)
    else elim rest [ none ↦ none | some (front, body) ↦ some (l ∷ front, body) ]

abbrev pub is_comment : Text → Bool
is_comment t = is_empty t || begins_with b'#' t

abbrev pub entry : Text × Text → Text × Text
entry (key, value) = (map to_ascii_lower (trim key), unquote (trim value))

abbrev pub or_bad_line : ℕ → Text → Option (Text × Text) → Result SkillParseError (Text × Text)
or_bad_line line content none = err (bad_line line content)
or_bad_line line content (some e) = ok (entry e)

-- The loop over the frontmatter, from the line with the given number.
unfoldable pub parse_fields : ℕ → List Text → Result SkillParseError (List (Text × Text))
unfolding is_empty trim split_once to_ascii_lower unquote
parse_fields line [] = ok []
parse_fields line (l ∷ ls) =
    let rest = parse_fields (line + 1) ls in
    let kept = (do e ← or_bad_line line l (split_once b':' l); more ← rest; ok (e ∷ more)) in
    if is_comment (trim l) then rest else kept

-- `field`: the last entry of the key
unfoldable pub find_field : Text → List (Text × Text) → Option Text
unfolding text_beq
find_field key [] = none
find_field key ((k, v) ∷ fields) = elim (find_field key fields) [
  | some w ↦ some w
  | none ↦ if text_beq k key then some v else none
]

abbrev present : Text → Option Text → Result SkillParseError Text
present key none = err (missing_key key)
present key (some value) = if is_empty value then err (empty_value key) else ok value

-- The closure `require`
unfoldable pub require : List (Text × Text) → Text → Result SkillParseError Text
unfolding find_field is_empty
require fields key = present key (find_field key fields)

abbrev pub parsed_level : Text → Result SkillParseError ClearanceLevel
parsed_level raw = elim (from_str raw) [ ok l ↦ ok l | err _ ↦ err (bad_clearance raw) ]

abbrev pub or_empty : Option Text → Text
or_empty none = []
or_empty (some t) = t

-- The manifest, from the entries and the lines of the body
unfoldable pub assemble : List (Text × Text) → List Text → Result SkillParseError SkillManifest
assemble fields body = do
  name ← require fields (codes "name")
  version ← require fields (codes "version")
  guest ← require fields (codes "guest")
  clearance_raw ← require fields (codes "clearance")
  clearance ← parsed_level clearance_raw
  ok (record {
    name = name;
    version = version;
    guest = guest;
    clearance = clearance;
    description = or_empty (find_field (codes "description") fields);
    body = trim (join (codes "\n") body);
  })

abbrev pub parse_front : ℕ → Option (List Text × List Text) → Result SkillParseError SkillManifest
parse_front line none = err unterminated_frontmatter
parse_front line (some (front, body)) = do fields ← parse_fields line front; assemble fields body

abbrev pub parse_opened : ℕ × List Text → Result SkillParseError SkillManifest
parse_opened (open', []) = err missing_frontmatter
parse_opened (open', l ∷ ls) =
    if is_fence l then parse_front (open' + 2) (split_fence ls) else err missing_frontmatter

-- `parse_skill_md`
unfoldable pub parse_skill_md : Text → Result SkillParseError SkillManifest
parse_skill_md input = parse_opened (drop_blank 0 (lines (strip_bom input)))

-- The message of an error; `debug` is how a text is debugged.
unfoldable pub skill_parse_error_text : (Text → Text) → (ℕ → Text) → SkillParseError → Text
skill_parse_error_text debug display_nat missing_frontmatter =
    codes "SKILL.md is missing its `---` frontmatter block"
skill_parse_error_text debug display_nat unterminated_frontmatter =
    codes "SKILL.md frontmatter is not terminated by a closing `---`"
skill_parse_error_text debug display_nat (bad_line line content) =
    codes "SKILL.md frontmatter line "
    ++ (display_nat line ++ (codes " is not `key: value`: " ++ debug content))
skill_parse_error_text debug display_nat (missing_key key) =
    codes "SKILL.md frontmatter is missing required key `" ++ (key ++ codes "`")
skill_parse_error_text debug display_nat (empty_value key) =
    codes "SKILL.md frontmatter key `" ++ (key ++ codes "` is empty")
skill_parse_error_text debug display_nat (bad_clearance raw) =
    codes "SKILL.md has an invalid `clearance`: " ++ (debug raw ++ codes " (expected L1..=L5)")
