-- ===== src/GuestPolicies/Tests.antt =====
-- kanbrick-store/src/guest_policy.rs: policies in a store that is a list.
use kanbrick_v.Common.{
  Text, codes, List, [], ◌∷◌, map, retain, length, true, Option, none, some, text_beq, ok, err,
  ok_injective, if◌then◌else◌, ◌≡◌, ◌≢◌, refl, sym,
}
use kanbrick_v.Core.Clearance.{ClearanceLevel, display, l1, l2, l3, l4, l5}
use kanbrick_v.Core.Error.{query}
use kanbrick_v.GuestPolicies.{
  GuestPolicy, PolicyNode, PolicyStore, named, read_guest_policy, list_guest_policies, new_policy,
  source_registry, is_registry,
}
use kanbrick_v.GuestPolicies.Write.{with_policy, write_guest_policy}
use kanbrick_v.GuestPolicies.Upsert.{PolicyLaws, blank, with_key, or_blank, write_guest_policy_lem}

-- A clearance by the second letter of its text.
abbrev level_by : Text → Option ClearanceLevel
level_by t =
    if text_beq t (codes "L1")
    then some l1
    else if text_beq t (codes "L2")
    then some l2
    else if text_beq t (codes "L3")
    then some l3
    else if text_beq t (codes "L4")
    then some l4
    else if text_beq t (codes "L5")
    then some l5
    else none

abbrev memory : PolicyStore (List PolicyNode)
memory = record {
  merge_key = λ name d. ok (with_key name d);
  set_rows = λ p f d. ok (map (λ r. if p r then f r else r) d);
  match_rows = λ p d. ok (retain p d);
  read_level = level_by;
  row_error = λ r. codes "invalid type: null";
}

memory-PolicyLaws : PolicyLaws memory (λ d. d)
unfolding display text_beq
memory-PolicyLaws = record {
  merged = λ name d d' e. sym (ok_injective e);
  changed = λ p f d d' e. sym (ok_injective e);
  matched = λ p d rows e. sym (ok_injective e);
  level_read = by_level;
}
  where
    by_level : (l : ClearanceLevel) → level_by (display l) ≡ some l
    by_level l1 = refl
    by_level l2 = refl
    by_level l3 = refl
    by_level l4 = refl
    by_level l5 = refl

abbrev echo : GuestPolicy
echo = new_policy (codes "t1") (codes "echo") (codes "0.1") l2 (codes "tachyon://a") source_registry

abbrev echo_node : PolicyNode
echo_node = with_policy echo (blank (codes "echo"))

registered : is_registry echo ≡ true
unfolding is_registry new_policy text_beq
registered = refl

-- A node that was merged and not set makes a read of the whole registry fail.
half_written :
    list_guest_policies memory (blank (codes "echo") ∷ [])
    ≡ err (query (codes "row deserialization failed: invalid type: null"))
unfolding list_guest_policies
half_written = refl

echo_written : write_guest_policy memory echo [] ≡ (ok tt, echo_node ∷ [])
unfolding write_guest_policy new_policy text_beq
echo_written = refl

write_guest_policy_lem_example :
    (read_guest_policy memory echo.guest_name (echo_node ∷ []) ≡ ok (some echo))
    × ((other : Text) → echo.guest_name ≢ other → retain (named other) (echo_node ∷ []) ≡ [])
    × (length (retain (named echo.guest_name) (echo_node ∷ []))
        ≡ length (or_blank echo.guest_name []))
write_guest_policy_lem_example =
    write_guest_policy_lem memory (λ d. d) memory-PolicyLaws echo [] (echo_node ∷ []) tt
      (retain (named echo.guest_name) (echo_node ∷ [])) echo_written refl
