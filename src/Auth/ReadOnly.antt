-- ===== src/Auth/ReadOnly.antt =====
-- kanbrick-auth/src/readonly.rs: the gate on the statements that a guest may run.
pub mod Regions
pub mod Words
pub mod Gate
mod Tests
use kanbrick_v.Common.{
  ℕ, Text, codes, List, [], ◌∷◌, ◌++◌, Bool, true, false, not, ◌&&◌, ◌||◌, nat_beq, leb, any,
  contains, text_eq, is_empty, to_ascii_upper, if◌then◌else◌, Result, ok, err, ◌>>=◌,
}
use kanbrick_v.Core.Error.{Error, auth}

-- WRITE_KEYWORDS
abbrev pub write_keywords : List Text
write_keywords =
    codes "CREATE"
    ∷ codes "MERGE"
    ∷ codes "SET"
    ∷ codes "DELETE"
    ∷ codes "DETACH"
    ∷ codes "REMOVE"
    ∷ codes "DROP"
    ∷ codes "FOREACH"
    ∷ codes "LOAD"
    ∷ codes "CALL"
    ∷ []

-- READ_OPENERS
abbrev pub read_openers : List Text
read_openers =
    codes "MATCH" ∷ codes "OPTIONAL" ∷ codes "WITH" ∷ codes "UNWIND" ∷ codes "RETURN" ∷ []

abbrev pub refused : Text → Error
refused what = auth (codes "read-only guest graph channel: " ++ (what ++ codes " refused"))

unfoldable pub is_quote : ℕ → Bool
is_quote c = nat_beq c b'\'' || nat_beq c b'"' || nat_beq c b'`'

-- `chars.peek()` after a slash
abbrev pub opens_comment : Text → Bool
opens_comment [] = false
opens_comment (c ∷ s) = nat_beq c b'/' || nat_beq c b'*'

-- `strip_opaque_regions`, and what it does from inside a region that ends with `quote`
unfoldable mutual
  pub strip_opaque_regions : Text → Result Error Text
  strip_opaque_regions [] = ok []
  strip_opaque_regions (ch ∷ chars) =
      let region = (do out ← skip_region ch chars; ok (b' ' ∷ out)) in
      let other = (do out ← strip_opaque_regions chars; ok (ch ∷ out)) in
      if is_quote ch
      then region
      else if nat_beq ch b'/' && opens_comment chars
      then err (refused (codes "comment"))
      else other

  pub skip_region : ℕ → Text → Result Error Text
  skip_region quote [] = err (refused (codes "unterminated quoted region"))
  skip_region quote (c ∷ chars) =
      let closed = strip_opaque_regions chars in
      let open' = skip_region quote chars in if nat_beq c quote then closed else open'

unfoldable pub is_ascii_alphanumeric : ℕ → Bool
is_ascii_alphanumeric c =
    (leb b'0' c && leb c b'9') || (leb b'A' c && leb c b'Z') || (leb b'a' c && leb c b'z')

unfoldable pub is_word_char : ℕ → Bool
unfolding is_ascii_alphanumeric
is_word_char c = is_ascii_alphanumeric c || nat_beq c b'_'

-- The loop body at the end of a word: the opener's check, then the write keywords.
unfoldable pub end_word : Bool → Text → Result Error Bool
end_word opener_checked word =
    if not opener_checked && not (contains read_openers word)
    then err (refused (codes "statement must open with a read clause, not " ++ word))
    else if contains write_keywords word
    then err (refused (codes "write clause " ++ word))
    else ok true

-- The loop over the characters; what it returns is `opener_checked`.
unfoldable pub scan : Bool → Text → Text → Result Error Bool
scan opener_checked word [] = ok opener_checked
scan opener_checked word (ch ∷ chars) =
    let longer = scan opener_checked (word ++ to_ascii_upper ch ∷ []) chars in
    let skipped = scan opener_checked word chars in
    let next = (do checked ← end_word opener_checked word; scan checked [] chars) in
    if is_word_char ch then longer else if is_empty word then skipped else next

unfoldable pub ensure_read_only : Text → Result Error (Unit {0})
ensure_read_only cypher =
    if any (λ c. nat_beq c b'\\') cypher then err (refused (codes "backslash")) else do
      scannable ← strip_opaque_regions cypher
      opener_checked ← scan false [] (scannable ++ b' ' ∷ [])
      if opener_checked then ok tt else err (refused (codes "no read clause"))
