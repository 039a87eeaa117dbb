-- ===== src/SkillFile/Tests.antt =====
-- kanbrick-loops/src/lib.rs: files that parse, files that do not, and a round trip.
use kanbrick_v.Common.{
  Text, codes, [], ok, err, ◌≡◌, refl, arith, text_beq, is_empty, trim, to_ascii_lower,
  to_ascii_upper, join,
}
use kanbrick_v.Core.Clearance.{l2, l3, display, rank, from_str, level_of}
use kanbrick_v.SkillFile.{
  SkillManifest, missing_frontmatter, unterminated_frontmatter, bad_line, missing_key, empty_value,
  bad_clearance, to_skill_md, parse_skill_md, drop_blank, lines, split_fence, parse_fields,
  assemble, require, find_field, split_once, unquote,
}
use kanbrick_v.SkillFile.RoundTrip.{IsPrintable, parse-to_skill_md}

abbrev modeling : SkillManifest
modeling = record {
  name = codes "deal-modeling";
  version = codes "1.2.0";
  guest = codes "valuation";
  clearance = l3;
  description = codes "Model a deal: a: b";
  body = codes "# Deal modeling\n\nRun it.";
}

modeling-IsPrintable : IsPrintable modeling
unfolding trim unquote
modeling-IsPrintable = record {
  name = record { line = omega arith; trimmed = refl; unquoted = refl };
  name_given = λ e. cc;
  version = record { line = omega arith; trimmed = refl; unquoted = refl };
  version_given = λ e. cc;
  guest = record { line = omega arith; trimmed = refl; unquoted = refl };
  guest_given = λ e. cc;
  description = record { line = omega arith; trimmed = refl; unquoted = refl };
  body_trimmed = refl;
  body_returns = omega arith;
}

parse-to_skill_md_example : parse_skill_md (to_skill_md modeling) ≡ ok modeling
parse-to_skill_md_example = parse-to_skill_md modeling modeling-IsPrintable

-- A name in quotes within quotes.
abbrev quoted : Text
quoted =
    codes "---\r\nNAME: \"'x'\"\r\nVersion: 1\nguest: g\n# note\nclearance: l2\n---\n body\r\nx \n"

abbrev quoted_manifest : SkillManifest
quoted_manifest = record {
  name = codes "'x'";
  version = codes "1";
  guest = codes "g";
  clearance = l2;
  description = [];
  body = codes "body\nx";
}

quoted_parses : parse_skill_md quoted ≡ ok quoted_manifest
unfolding parse_skill_md drop_blank lines split_fence parse_fields assemble require find_field
    from_str level_of text_beq trim to_ascii_upper to_ascii_lower join is_empty split_once unquote
    to_skill_md display rank
quoted_parses = refl

quoted_printed :
    parse_skill_md (to_skill_md quoted_manifest) ≡ ok (record quoted_manifest { name = codes "x" })
unfolding parse_skill_md drop_blank lines split_fence parse_fields assemble require find_field
    from_str level_of text_beq trim to_ascii_upper to_ascii_lower join is_empty split_once unquote
    to_skill_md display rank
quoted_printed = refl

no_frontmatter : parse_skill_md (codes "no fence\ntext") ≡ err missing_frontmatter
unfolding parse_skill_md drop_blank lines split_fence parse_fields assemble require find_field
    from_str level_of text_beq trim to_ascii_upper to_ascii_lower join is_empty split_once unquote
    to_skill_md display rank
no_frontmatter = refl

not_closed : parse_skill_md (codes "---\nname: x\n") ≡ err unterminated_frontmatter
unfolding parse_skill_md drop_blank lines split_fence parse_fields assemble require find_field
    from_str level_of text_beq trim to_ascii_upper to_ascii_lower join is_empty split_once unquote
    to_skill_md display rank
not_closed = refl

not_an_entry :
    parse_skill_md (codes "\n---\nname: x\nversion 1\n---\n") ≡ err (bad_line 4 (codes "version 1"))
unfolding parse_skill_md drop_blank lines split_fence parse_fields assemble require find_field
    from_str level_of text_beq trim to_ascii_upper to_ascii_lower join is_empty split_once unquote
    to_skill_md display rank
not_an_entry = refl

no_guest :
    parse_skill_md (codes "---\nname: x\nversion: 1\nclearance: L1\n---\n")
    ≡ err (missing_key (codes "guest"))
unfolding parse_skill_md drop_blank lines split_fence parse_fields assemble require find_field
    from_str level_of text_beq trim to_ascii_upper to_ascii_lower join is_empty split_once unquote
    to_skill_md display rank
no_guest = refl

no_name : parse_skill_md (codes "---\nname: x\nname:  \n---\n") ≡ err (empty_value (codes "name"))
unfolding parse_skill_md drop_blank lines split_fence parse_fields assemble require find_field
    from_str level_of text_beq trim to_ascii_upper to_ascii_lower join is_empty split_once unquote
    to_skill_md display rank
no_name = refl

no_level :
    parse_skill_md (codes "---\nname: x\nversion: 1\nguest: g\nclearance: L9\n---\n")
    ≡ err (bad_clearance (codes "L9"))
unfolding parse_skill_md drop_blank lines split_fence parse_fields assemble require find_field
    from_str level_of text_beq trim to_ascii_upper to_ascii_lower join is_empty split_once unquote
    to_skill_md display rank
no_level = refl
