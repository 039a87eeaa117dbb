-- ===== src/Auth/ReadOnly/Tests.antt =====
-- kanbrick-auth/src/readonly.rs: statements that the gate lets pass and refuses.
use kanbrick_v.Common.{
  Text, codes, [], ◌∷◌, ◌++◌, true, false, Result, ok, err, ◌≡◌, ◌↔◌, refl, arith, text_beq,
}
use kanbrick_v.Core.Error.{kind, unauthorized}
use kanbrick_v.Auth.ReadOnly.{ensure_read_only, refused, strip_opaque_regions}
use kanbrick_v.Auth.ReadOnly.Regions.{strip-Blanked, IsRefusal}
use kanbrick_v.Auth.ReadOnly.Gate.{
  IsReadOnly, ensure_read_only_iff, ensure_read_only_error, write_clause_refused,
}

abbrev reads : Text
reads = codes "MATCH (c:Company) WHERE c.note = 'please MERGE this' RETURN c.`set`, c.created_at"

abbrev writes : Text
writes = codes "MATCH (c:Company) sEt c.name = 'pwned'"

allows_reads : ensure_read_only reads ≡ ok tt
unfolding ensure_read_only strip_opaque_regions kanbrick_v.Auth.ReadOnly.is_quote
    kanbrick_v.Auth.ReadOnly.scan kanbrick_v.Auth.ReadOnly.is_word_char kanbrick_v.Common.is_empty
    kanbrick_v.Auth.ReadOnly.end_word kanbrick_v.Common.contains text_beq
    kanbrick_v.Common.to_ascii_upper
allows_reads = refl

refuses_writes : ensure_read_only writes ≡ err (refused (codes "write clause SET"))
unfolding ensure_read_only strip_opaque_regions kanbrick_v.Auth.ReadOnly.is_quote
    kanbrick_v.Auth.ReadOnly.scan kanbrick_v.Auth.ReadOnly.is_word_char kanbrick_v.Common.is_empty
    kanbrick_v.Auth.ReadOnly.end_word kanbrick_v.Common.contains text_beq
    kanbrick_v.Common.to_ascii_upper
refuses_writes = refl

refuses_openers :
    ensure_read_only (codes "upsert (n:X)")
    ≡ err (refused (codes "statement must open with a read clause, not UPSERT"))
unfolding ensure_read_only strip_opaque_regions kanbrick_v.Auth.ReadOnly.is_quote
    kanbrick_v.Auth.ReadOnly.scan kanbrick_v.Auth.ReadOnly.is_word_char kanbrick_v.Common.is_empty
    kanbrick_v.Auth.ReadOnly.end_word kanbrick_v.Common.contains text_beq
    kanbrick_v.Common.to_ascii_upper
refuses_openers = refl

refuses_comments :
    (ensure_read_only (codes "CRE/**/ATE (n:X)") ≡ err (refused (codes "comment")))
    × (ensure_read_only (codes "MATCH (n:X) RETURN n.a / n.b") ≡ ok tt)
unfolding ensure_read_only strip_opaque_regions kanbrick_v.Auth.ReadOnly.is_quote
    kanbrick_v.Auth.ReadOnly.scan kanbrick_v.Auth.ReadOnly.is_word_char kanbrick_v.Common.is_empty
    kanbrick_v.Auth.ReadOnly.end_word kanbrick_v.Common.contains text_beq
    kanbrick_v.Common.to_ascii_upper
refuses_comments = (refl, refl)

refuses_unterminated :
    (ensure_read_only (codes "RETURN 'oops") ≡ err (refused (codes "unterminated quoted region")))
    × (ensure_read_only (codes "  ()  ") ≡ err (refused (codes "no read clause")))
    × (ensure_read_only (codes "RETURN '\\'") ≡ err (refused (codes "backslash")))
unfolding ensure_read_only strip_opaque_regions kanbrick_v.Auth.ReadOnly.is_quote
    kanbrick_v.Auth.ReadOnly.scan kanbrick_v.Auth.ReadOnly.is_word_char kanbrick_v.Common.is_empty
refuses_unterminated = (refl, refl, refl)

ensure_read_only_iff_example : (ensure_read_only reads ≡ ok tt) ↔ IsReadOnly reads
ensure_read_only_iff_example = ensure_read_only_iff reads

ensure_read_only_error_example :
    IsRefusal (refused (codes "write clause SET"))
    × (kind (refused (codes "write clause SET")) ≡ unauthorized)
ensure_read_only_error_example =
    ensure_read_only_error writes (refused (codes "write clause SET")) refuses_writes

blanked : strip_opaque_regions writes ≡ ok (codes "MATCH (c:Company) sEt c.name =  ")
unfolding strip_opaque_regions kanbrick_v.Auth.ReadOnly.is_quote
blanked = refl

write_clause_refused_example : (what : Text) × (ensure_read_only writes ≡ err (refused what))
unfolding strip_opaque_regions kanbrick_v.Auth.ReadOnly.is_word_char kanbrick_v.Common.contains
    text_beq kanbrick_v.Common.to_ascii_upper
write_clause_refused_example =
    write_clause_refused writes (codes "MATCH (c:Company) ") (codes " c.name =  ") (codes "Et") b's'
      (strip-Blanked writes (codes "MATCH (c:Company) sEt c.name =  ") blanked) refl
      (refl, (refl, (refl, tt))) refl refl
