-- ===== src/GuestPolicies/Upsert.antt =====
-- kanbrick-store/src/guest_policy.rs: a policy that is written is the one that is read, in place of
-- the policy before it.
use kanbrick_v.Common.{
  Text, List, [], ◌∷◌, ◌++◌, map, append-nil, retain, retain-append, length, length-map, head?,
  Bool, true, false, Bool-cases, text_beq, text_beq_iff, none, some, ok, ◌>>=◌, if◌then◌else◌, ◌≡◌,
  ◌≢◌, refl, sym, ap, ◌∙◌, inl, inr,
}
use kanbrick_v.Common.Action.{command, bind_ok, command_ok}
use kanbrick_v.Core.Clearance.{ClearanceLevel, display}
use kanbrick_v.GuestPolicies.{
  GuestPolicy, PolicyNode, PolicyStore, named, typed_policies, read_guest_policy,
}
use kanbrick_v.GuestPolicies.Write.{with_policy, write_guest_policy}

-- The nodes after a `MERGE` on a key: a node of the key is added when there is none.
abbrev pub blank : Text → PolicyNode
blank name = record {
  guest_name = name;
  version = none;
  min_clearance = none;
  asset_uri = none;
  source = none;
  created_at = none;
}

abbrev add_if_none : Text → List PolicyNode → List PolicyNode → List PolicyNode
add_if_none name rows [] = rows ++ blank name ∷ []
add_if_none name rows (_ ∷ _) = rows

abbrev pub with_key : Text → List PolicyNode → List PolicyNode
with_key name rows = add_if_none name rows (retain (named name) rows)

-- The nodes of the key after it was merged: those that were there, or a blank one.
abbrev pub or_blank : Text → List PolicyNode → List PolicyNode
or_blank name [] = blank name ∷ []
or_blank name (r ∷ rows) = r ∷ rows

-- What the policies rely on: a statement that succeeds reads or writes the nodes that its pattern
-- names, and serde reads a clearance from its text.
pub record PolicyLaws {D : Type 0} (store : PolicyStore D) (nodes : D → List PolicyNode)
    : Type 0 where
  pub merged :
      (name : Text) (d d' : D) → store.merge_key name d ≡ ok d' → nodes d' ≡ with_key name (nodes d)
  pub changed :
      (p : PolicyNode → Bool) (f : PolicyNode → PolicyNode) (d d' : D)
      → store.set_rows p f d ≡ ok d'
      → nodes d' ≡ map (λ r. if p r then f r else r) (nodes d)
  pub matched :
      (p : PolicyNode → Bool) (d : D) (rows : List PolicyNode)
      → store.match_rows p d ≡ ok rows
      → rows ≡ retain p (nodes d)
  pub level_read : (l : ClearanceLevel) → store.read_level (display l) ≡ some l

module _ {D : Type 0} (store : PolicyStore D) (nodes : D → List PolicyNode)
    (laws : PolicyLaws store nodes) where
  abbrev set_all : GuestPolicy → List PolicyNode → List PolicyNode
  set_all p rows = map (λ r. if named p.guest_name r then with_policy p r else r) rows

  mine-set_all :
      (p : GuestPolicy) (rows : List PolicyNode)
      → retain (named p.guest_name) (set_all p rows)
        ≡ map (with_policy p) (retain (named p.guest_name) rows)
  mine-set_all p [] = refl
  mine-set_all p (r ∷ rows) = elim (Bool-cases (named p.guest_name r)) [
    | inl mine ↦ rw (mine, mine) (ap (with_policy p r ∷◌) (mine-set_all p rows))
    | inr apart ↦ rw (apart, apart) (mine-set_all p rows)
  ]

  not_both :
      (p : GuestPolicy) (other : Text) (r : PolicyNode)
      → p.guest_name ≢ other
      → named p.guest_name r ≡ true
      → named other r ≡ false
  not_both p other r apart mine = elim (Bool-cases (named other r)) [
    | inl both ↦ absurd (
        apart (
          sym ((text_beq_iff r.guest_name p.guest_name).0 mine)
          ∙ (text_beq_iff r.guest_name other).0 both))
    | inr free ↦ free
  ]

  others-set_all :
      (p : GuestPolicy) (other : Text) (rows : List PolicyNode)
      → p.guest_name ≢ other
      → retain (named other) (set_all p rows) ≡ retain (named other) rows
  others-set_all p other [] apart = refl
  others-set_all p other (r ∷ rows) apart = elim (Bool-cases (named p.guest_name r)) [
    | inl mine ↦ rw (mine, not_both p other r apart mine) (others-set_all p other rows apart)
    | inr free ↦
        rw free (ap (λ l. if named other r then r ∷ l else l) (others-set_all p other rows apart))
  ]

  mine-with_key :
      (name : Text) (rows : List PolicyNode)
      → retain (named name) (with_key name rows) ≡ or_blank name (retain (named name) rows)
  mine-with_key name rows = by_key (retain (named name) rows) refl
    where
      by_key :
          (found : List PolicyNode)
          → retain (named name) rows ≡ found
          → retain (named name) (add_if_none name rows found) ≡ or_blank name found
      by_key [] e =
          retain-append (named name) rows (blank name ∷ [])
          ∙ rw (e, (text_beq_iff name name).1 refl)
      by_key (r ∷ found) e = e

  others-with_key :
      (name other : Text) (rows : List PolicyNode)
      → name ≢ other
      → retain (named other) (with_key name rows) ≡ retain (named other) rows
  others-with_key name other rows apart = by_key (retain (named name) rows)
    where
      not_other : text_beq name other ≡ false
      not_other = elim (Bool-cases (text_beq name other)) [
        | inl same ↦ absurd (apart ((text_beq_iff name other).0 same))
        | inr differ ↦ differ
      ]

      by_key :
          (found : List PolicyNode)
          → retain (named other) (add_if_none name rows found) ≡ retain (named other) rows
      by_key [] =
          retain-append (named other) rows (blank name ∷ [])
          ∙ rw not_other (append-nil (retain (named other) rows))
      by_key (r ∷ found) = refl

  -- The nodes of the key that were set are all read as the policy.
  all_read :
      (p : GuestPolicy) (rows : List PolicyNode)
      → typed_policies store (map (with_policy p) (retain (named p.guest_name) rows))
        ≡ ok (map (λ _. p) (retain (named p.guest_name) rows))
  unfolding typed_policies
  all_read p [] = refl
  all_read p (r ∷ rows) = elim (Bool-cases (named p.guest_name r)) [
    | inl mine ↦
        rw (mine, laws.level_read p.min_clearance, all_read p rows)
          (ap
            (λ n.
              ok (record p { guest_name = n } ∷ map (λ _. p) (retain (named p.guest_name) rows)))
            ((text_beq_iff r.guest_name p.guest_name).0 mine))
    | inr apart ↦ rw apart (all_read p rows)
  ]

  first_kept :
      (p : GuestPolicy) (name : Text) (found : List PolicyNode)
      → head? (map (λ _. p) (or_blank name found)) ≡ some p
  first_kept p name [] = refl
  first_kept p name (r ∷ found) = refl

  -- What a write that succeeds did to the nodes.
  written_nodes :
      (p : GuestPolicy) (d d' : D) (u : Unit {0})
      → write_guest_policy store p d ≡ (ok u, d')
      → nodes d' ≡ set_all p (with_key p.guest_name (nodes d))
  unfolding write_guest_policy
  written_nodes p d d' u h =
      let set_policy = store.set_rows (named p.guest_name) (with_policy p) in
      let (v, d1, e, k) =
        bind_ok (command (store.merge_key p.guest_name)) (λ _. command set_policy) d d' u h in
      laws.changed (named p.guest_name) (with_policy p) d1 d' (command_ok set_policy d1 d' u k)
      ∙ ap (set_all p)
          (laws.merged p.guest_name d d1 (command_ok (store.merge_key p.guest_name) d d1 v e))

  -- After a write that succeeds, a read of the guest that succeeds in the database gives the policy
  -- that was written; the nodes of every other guest are as they were; and the guest has as many
  -- nodes as before, or one if it had none.
  pub write_guest_policy_lem :
      (p : GuestPolicy) (d d' : D) (u : Unit {0}) (rows : List PolicyNode)
      → write_guest_policy store p d ≡ (ok u, d')
      → store.match_rows (named p.guest_name) d' ≡ ok rows
      → (read_guest_policy store p.guest_name d' ≡ ok (some p))
        × ((other : Text)
            → p.guest_name ≢ other
            → retain (named other) (nodes d') ≡ retain (named other) (nodes d))
        × (length (retain (named p.guest_name) (nodes d'))
            ≡ length (or_blank p.guest_name (retain (named p.guest_name) (nodes d))))
  unfolding read_guest_policy
  write_guest_policy_lem p d d' u rows h readable =
      let keyed = with_key p.guest_name (nodes d) in
      let now = written_nodes p d d' u h in
      let mine = ap (retain (named p.guest_name)) now ∙ mine-set_all p keyed in
      (
        rw readable (read_back (laws.matched (named p.guest_name) d' rows readable ∙ mine)),
        λ other apart.
            ap (retain (named other)) now
            ∙ others-set_all p other keyed apart
            ∙ others-with_key p.guest_name other (nodes d) apart,
        ap length mine
            ∙ length-map (with_policy p) (retain (named p.guest_name) keyed)
            ∙ ap length (mine-with_key p.guest_name (nodes d)),
      )
    where
      read_back :
          rows ≡ map (with_policy p) (retain (named p.guest_name) (with_key p.guest_name (nodes d)))
          → (typed_policies store rows >>= λ policies. ok (head? policies)) ≡ ok (some p)
      read_back e =
          ap (λ x. typed_policies store x >>= λ policies. ok (head? policies)) e
          ∙ ap (λ x. x >>= λ policies. ok (head? policies))
              (all_read p (with_key p.guest_name (nodes d)))
          ∙ ap (λ x. ok (head? (map (λ _. p) x))) (mine-with_key p.guest_name (nodes d))
          ∙ ap ok (first_kept p p.guest_name (retain (named p.guest_name) (nodes d)))
