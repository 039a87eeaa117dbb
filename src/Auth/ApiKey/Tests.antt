-- ===== src/Auth/ApiKey/Tests.antt =====
-- kanbrick-auth/src/apikey.rs: a key that is issued, used and rotated in a store that is a list.
use kanbrick_v.Common.{
  ℕ, ◌+◌, ◌-◌, Text, codes, List, [], ◌∷◌, ◌++◌, map, retain, true, Option, none, some, ok, err,
  ◌≡◌, ◌≢◌, ◌↔◌, ◌⊎◌, refl, sym, ok_injective, ok_ne_err, arith, text_beq, if◌then◌else◌,
}
use kanbrick_v.Core.Clearance.{l2, l3}
use kanbrick_v.Core.Error.{Error, auth}
use kanbrick_v.SkillFile.{split_once}
use kanbrick_v.Auth.ApiKey.{
  IssuedKey, KeyNode, KeyStore, Session, constant_time_eq, differences, secret_id, has_key,
  validate, service_context, issued_node, issued_secret,
}
use kanbrick_v.Auth.ApiKey.Rotate.{rotate}
use kanbrick_v.Auth.ApiKey.Compare.{constant_time_eq_iff}
use kanbrick_v.Auth.ApiKey.Sound.{KeyLaws, node_of, validate_sound}
use kanbrick_v.Auth.ApiKey.Rotated.{rotate_sound, rotate_fails}

abbrev one_char : Text → Option ℕ
one_char (c ∷ []) = some (c - 47)
one_char _ = none

abbrev memory : KeyStore (List KeyNode)
memory = record {
  keys = record {
    match_rows = λ p d. ok (retain p d);
    set_rows = λ p f d. ok (map (λ r. if p r then f r else r) d);
    merge_row = λ r d. ok (d ++ r ∷ []);
  };
  query_hash = λ t. b'#' ∷ t;
  uuid_text = λ n. (n + 47) ∷ [];
  parse_uuid = one_char;
  service_user = λ n. n + 100;
  firm_id = codes "kanbrick";
}

memory-KeyLaws : KeyLaws memory (λ d. d)
memory-KeyLaws = record {
  matched = λ p d rows e. sym (ok_injective e);
  changed = λ p f d d' e. sym (ok_injective e);
  merged = λ n r d d' k f e. sym (ok_injective e);
  read_back = λ n. same n;
  dotless = λ n. ((λ e. absurd (omega arith)), tt);
}
  where
    same : (n : ℕ) → one_char ((n + 47) ∷ []) ≡ some n
    same n = ground arith

abbrev session : Session
session = record { session = 1; now = 2 }

abbrev first_key : List KeyNode
first_key = issued_node memory 3 (codes "r1") (codes "valuation") l3 ∷ []

abbrev old_secret : Text
old_secret = issued_secret memory 3 (codes "r1")

accepted :
    validate memory session old_secret first_key
    ≡ ok (
        service_context memory session 3 (issued_node memory 3 (codes "r1") (codes "valuation") l3))
unfolding validate constant_time_eq differences split_once text_beq
accepted = refl

wrong_secret :
    validate memory session (issued_secret memory 3 (codes "r2")) first_key
    ≡ err (auth (codes "api key secret mismatch"))
unfolding validate constant_time_eq differences split_once text_beq
wrong_secret = refl

no_dot : validate memory session (codes "2") first_key ≡ err (auth (codes "malformed api key"))
unfolding validate split_once
no_dot = refl

constant_time_eq_iff_example :
    (constant_time_eq (codes "ab") (codes "ac") ≡ true) ↔ (codes "ab" ≡ codes "ac")
constant_time_eq_iff_example = constant_time_eq_iff (codes "ab") (codes "ac")

validate_sound_example :
    (key_id : ℕ) × (row : KeyNode) × (secret_id memory old_secret ≡ some key_id)
    × (node_of memory (λ d. d) memory-KeyLaws key_id first_key ≡ some row)
    × (row.active ≢ 0)
    × (b'#' ∷ old_secret ≡ row.key_hash)
    × (service_context memory session 3 (issued_node memory 3 (codes "r1") (codes "valuation") l3)
        ≡ service_context memory session key_id row)
validate_sound_example =
    validate_sound memory (λ d. d) memory-KeyLaws session old_secret first_key
      (service_context memory session 3 (issued_node memory 3 (codes "r1") (codes "valuation") l3))
      accepted

abbrev rotated : List KeyNode
rotated =
    record (issued_node memory 3 (codes "r1") (codes "valuation") l3) { active = 0 }
    ∷ issued_node memory 4 (codes "r2") (codes "valuation") l2
    ∷ []

abbrev new_key : IssuedKey
new_key = record { key_id = 4; secret = issued_secret memory 4 (codes "r2") }

rotates : rotate memory 3 4 (codes "r2") (codes "valuation") l2 first_key ≡ (ok new_key, rotated)
unfolding rotate text_beq
rotates = refl

none_yet : retain (has_key memory 4) first_key ≡ []
unfolding text_beq
none_yet = refl

id_read : secret_id memory old_secret ≡ some 3
unfolding split_once
id_read = refl

rotate_sound_example :
    ((e : Error) × (validate memory session old_secret rotated ≡ err e))
    × (validate memory session new_key.secret rotated
        ≡ ok (
            service_context memory session 4
              (issued_node memory 4 (codes "r2") (codes "valuation") l2)))
rotate_sound_example =
    rotate_sound memory (λ d. d) memory-KeyLaws session 3 4 (codes "r2") (codes "valuation")
      old_secret l2 first_key rotated new_key (retain (has_key memory 4) rotated)
      (λ e. absurd (omega arith)) none_yet rotates id_read refl

-- A store that no node is written to.
abbrev full : KeyStore (List KeyNode)
full = record memory { keys = record memory.keys { merge_row = λ r d. err (auth (codes "full")) } }

full-KeyLaws : KeyLaws full (λ d. d)
full-KeyLaws = record {
  matched = memory-KeyLaws.matched;
  changed = memory-KeyLaws.changed;
  read_back = memory-KeyLaws.read_back;
  dotless = memory-KeyLaws.dotless;
  merged = λ n r d d' k f e. absurd (ok_ne_err (sym e));
}

abbrev revoked : List KeyNode
revoked = record (issued_node memory 3 (codes "r1") (codes "valuation") l3) { active = 0 } ∷ []

rotate_stops :
    rotate full 3 4 (codes "r2") (codes "valuation") l2 first_key
    ≡ (err (auth (codes "full")), revoked)
unfolding rotate text_beq
rotate_stops = refl

rotate_fails_example :
    (revoked ≡ first_key) ⊎ ((e : Error) × (validate full session old_secret revoked ≡ err e))
rotate_fails_example =
    rotate_fails full (λ d. d) full-KeyLaws session 3 4 (codes "r2") (codes "valuation") old_secret
      l2 first_key revoked (auth (codes "full")) rotate_stops id_read
