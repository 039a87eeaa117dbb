-- ===== src/Skills/Written.antt =====
-- kanbrick-store/src/skill_registry.rs: what a publication and a review write, on a database whose
-- commands mean what they document.
use kanbrick_v.Common.{
  ℕ, suc, not, ◌&&◌, ap, ◌∙◌, Dict, lookup, insert, modify, modified, changed, lookup-insert,
  lookup-modify, length, ◌≡◌, refl, arith, Text, text_eq, text_beq, ==_refl, List, [], ◌∷◌, Option,
  none, some, ok, Result-cases, inl, inr, if◌then◌else◌,
}
use kanbrick_v.Mesh.Scheduler.Permits.{present}
use kanbrick_v.Skills.{
  SkillVersionRecord, SkillDb, Command, execute, version_id, published, publish_commands, or_else,
  count_skill_versions, skill_owner, publish_skill_version, set_skill_review, first_owner,
}

-- The nodes of the editions by their key; one whose fields were not set yet is none.
abbrev pub Catalogue : Type 0
Catalogue = Dict Text (Option SkillVersionRecord)

-- `MERGE` on the key of an edition
abbrev touched : Text → Option (Option SkillVersionRecord) → Catalogue → Catalogue
touched v none m = insert v none m
touched v (some n) m = m

unfoldable pub touch : Text → Catalogue → Catalogue
touch v m = touched v (lookup v m) m

abbrev pub reviewed : Text → Text → Text → Option SkillVersionRecord → Option SkillVersionRecord
reviewed status by at none = none
reviewed status by at (some r) =
    some (record r { review_status = some status; reviewed_by = some by; reviewed_at = some at })

-- What the commands mean for the editions' nodes: a merge makes the node of a new key, a set changes
-- the node of its key if there is one, and commands on other labels leave the editions alone; the
-- count is that of the nodes, and an edition is found by its key.
pub record IsSkillView {D : Type 0} (db : SkillDb D) (view : D → Catalogue) : Type 0 where
  pub counted : (d : D) (n : Option ℕ) → db.count_rows d ≡ ok n → or_else n 0 ≡ length (view d)
  pub skill_apart : (name : Text) (d e : D) → db.merge_skill name d ≡ ok e → view e ≡ view d
  pub owner_apart :
      (name owner : Text) (d e : D) → db.set_owner name owner d ≡ ok e → view e ≡ view d
  pub link_apart : (name v : Text) (d e : D) → db.link_version name v d ≡ ok e → view e ≡ view d
  pub merged : (v : Text) (d e : D) → db.merge_version v d ≡ ok e → view e ≡ touch v (view d)
  pub fields_set :
      (v : Text) (r : SkillVersionRecord) (d e : D)
      → db.set_version v r d ≡ ok e
      → view e ≡ modify v (λ _. some r) (view d)
  pub review_set :
      (v status by at : Text) (d e : D)
      → db.set_review v status by at d ≡ ok e
      → view e ≡ modify v (reviewed status by at) (view d)
  pub found :
      (v : Text) (d : D) (r : SkillVersionRecord) (rows : List SkillVersionRecord)
      → db.rows_of_version v d ≡ ok rows
      → lookup v (view d) ≡ some (some r)
      → rows ≡ r ∷ []

pub lookup-touch :
    (v w : Text) (m : Catalogue)
    → lookup w (touch v m)
      ≡ (if text_beq v w && not (present (lookup v m)) then some none else lookup w m)
unfolding touch
lookup-touch v w m = go (lookup v m) refl
  where
    go :
        (o : Option (Option SkillVersionRecord))
        → lookup v m ≡ o
        → lookup w (touched v o m)
          ≡ (if text_beq v w && not (present (lookup v m)) then some none else lookup w m)
    go none e = ground (arith, lookup-insert v w none m)
    go (some n) e = ground arith

length-insert :
    (v : Text) (n : Option SkillVersionRecord) (m : Catalogue)
    → length (insert v n m) ≡ (if present (lookup v m) then length m else suc (length m))
unfolding insert lookup
length-insert v n [] = refl
length-insert v n ((w, x) ∷ m) = ground (arith, length-insert v n m)

length-modify :
    (v : Text) (f : Option SkillVersionRecord → Option SkillVersionRecord) (m : Catalogue)
    → length (modify v f m) ≡ length m
unfolding modify
length-modify v f m = go (lookup v m) refl
  where
    go :
        (o : Option (Option SkillVersionRecord))
        → lookup v m ≡ o
        → length (modified v f m o) ≡ length m
    go none e = refl
    go (some n) e = ground (arith, length-insert v (f n) m)

length-touch :
    (v : Text) (m : Catalogue)
    → length (touch v m) ≡ (if present (lookup v m) then length m else suc (length m))
unfolding touch
length-touch v m = go (lookup v m) refl
  where
    go :
        (o : Option (Option SkillVersionRecord))
        → lookup v m ≡ o
        → length (touched v o m) ≡ (if present (lookup v m) then length m else suc (length m))
    go none e = length-insert v none m
    go (some n) e = ground arith

-- The catalogue with an edition under its key
abbrev with_edition : Text → SkillVersionRecord → Catalogue → Catalogue
with_edition v r m = modify v (λ _. some r) (touch v m)

lookup-with_edition :
    (v w : Text) (r : SkillVersionRecord) (m : Catalogue)
    → lookup w (with_edition v r m) ≡ (if text_beq v w then some (some r) else lookup w m)
lookup-with_edition v w r m = ground (
  arith,
  lookup-modify v w (λ _. some r) (touch v m),
  lookup-touch v v m,
  lookup-touch v w m,
  ==_refl v,
)

length-with_edition :
    (v : Text) (r : SkillVersionRecord) (m : Catalogue)
    → length (with_edition v r m) ≡ (if present (lookup v m) then length m else suc (length m))
length-with_edition v r m = length-modify v (λ _. some r) (touch v m) ∙ length-touch v m

module _ {D : Type 0} (view : D → Catalogue) where
  -- A command that succeeds acts on the editions as this function does.
  abbrev Acts : Command D → (Catalogue → Catalogue) → Type 0
  Acts f act = (d e : D) → f d ≡ ok e → view e ≡ act (view d)

  abbrev AllAct : List (Command D) → List (Catalogue → Catalogue) → Type 0
  AllAct [] [] = Unit
  AllAct (f ∷ fs) (act ∷ acts) = Acts f act × AllAct fs acts
  AllAct _ _ = ⊥

  abbrev in_turn : List (Catalogue → Catalogue) → Catalogue → Catalogue
  in_turn [] m = m
  in_turn (act ∷ acts) m = in_turn acts (act m)

  execute-view :
      (fs : List (Command D)) (acts : List (Catalogue → Catalogue))
      → AllAct fs acts
      → (d : D) → (execute fs d).0 ≡ ok tt
      → view (execute fs d).1 ≡ in_turn acts (view d)
  execute-view [] [] all d h = refl
  execute-view [] (act ∷ acts) all d h = absurd all
  execute-view (f ∷ fs) [] all d h = absurd all
  execute-view (f ∷ fs) (act ∷ acts) (a, rest) d h = elim (Result-cases (f d)) [
    | inl (e, q) ↦
        let same : (execute (f ∷ fs) d).1 ≡ (execute fs e).1 = ground arith in
        let good : (execute fs e).0 ≡ ok tt = ground arith in
        ap view same ∙ execute-view fs acts rest e good ∙ ap (in_turn acts) (a d e q)
    | inr (x, q) ↦ absurd (ground arith)
  ]

module _ {D : Type 0} (db : SkillDb D) (view : D → Catalogue) (laws : IsSkillView db view) where
  publish_commands-view :
      (seq : ℕ) (owner : Text) (r : SkillVersionRecord) (d : D)
      → (execute (publish_commands db seq owner r) d).0 ≡ ok tt
      → view (execute (publish_commands db seq owner r) d).1
        ≡ modify
            (version_id r.skill_name r.version)
            (λ _. some (published db seq r))
            (touch (version_id r.skill_name r.version) (view d))
  publish_commands-view seq owner r d h =
      let v = version_id r.skill_name r.version in
      execute-view view (publish_commands db seq owner r)
        ((λ m. m) ∷ (λ m. m) ∷ touch v ∷ modify v (λ _. some (published db seq r)) ∷ (λ m. m) ∷ [])
        (
          laws.skill_apart r.skill_name,
          (
            laws.owner_apart r.skill_name owner,
            (laws.merged v, (laws.fields_set v _, (laws.link_apart _ _, tt))),
          ),
        )
        d h

  publish_skill_version-view :
      (r : SkillVersionRecord) (d : D)
      → (publish_skill_version db r d).0 ≡ ok tt
      → view (publish_skill_version db r d).1
        ≡ with_edition
            (version_id r.skill_name r.version)
            (published db (length (view d)) r)
            (view d)
  unfolding publish_skill_version count_skill_versions skill_owner
  publish_skill_version-view r d h = elim (Result-cases (db.count_rows d)) [
    | inl (n, p) ↦ elim (Result-cases (db.owner_rows r.skill_name d)) [
      | inl (rows, q) ↦
          let owner = or_else (first_owner rows) r.source in
          let fs = publish_commands db (or_else n 0) owner r in
          let good : (execute fs d).0 ≡ ok tt = ground arith in
          let same : (publish_skill_version db r d).1 ≡ (execute fs d).1 = ground arith in
          ap view same
          ∙ publish_commands-view (or_else n 0) owner r d good
          ∙ ap
              (λ place.
                with_edition (version_id r.skill_name r.version) (published db place r) (view d))
              (laws.counted d n p)
      | inr (x, q) ↦ absurd (ground arith)
    ]
    | inr (x, p) ↦ absurd (ground arith)
  ]

  -- On such a database, a publication that succeeds stores the edition under its key, awaiting
  -- review and with the number of editions before it as its place, and leaves every other edition as
  -- it was. There is one edition more if the key is new, and as many as before if it is not.
  pub publish_skill_version-written :
      (r : SkillVersionRecord) (d : D)
      → (publish_skill_version db r d).0 ≡ ok tt
      → let v = version_id r.skill_name r.version in
        let e = (publish_skill_version db r d).1 in
        ((w : Text)
          → lookup w (view e) ≡ (
              if text_beq v w
              then some (some (published db (length (view d)) r))
              else lookup w (view d)))
        × (length (view e)
            ≡ (if present (lookup v (view d)) then length (view d) else suc (length (view d))))
  publish_skill_version-written r d h =
      let v = version_id r.skill_name r.version in
      let edition = published db (length (view d)) r in
      rw (publish_skill_version-view r d h)
        ((λ w. lookup-with_edition v w edition (view d)), length-with_edition v edition (view d))

  -- On such a database, a review that succeeds sets the decision, the reviewer and the time of the
  -- edition with that key, if there is one, and leaves the rest of it and every other edition as
  -- they were.
  pub set_skill_review-written :
      (name version status reviewer at : Text) (d : D)
      → (set_skill_review db name version status reviewer at d).0 ≡ ok tt
      → let v = version_id name version in
        let e = (set_skill_review db name version status reviewer at d).1 in
        ((w : Text)
          → lookup w (view e) ≡ (
              if text_beq v w
              then changed (reviewed status reviewer at) (lookup v (view d))
              else lookup w (view d)))
        × (length (view e) ≡ length (view d))
  unfolding set_skill_review
  set_skill_review-written name version status reviewer at d h =
      let v = version_id name version in
      let act = modify v (reviewed status reviewer at) in
      let same =
        execute-view view (db.set_review v status reviewer at ∷ []) (act ∷ [])
          (laws.review_set v status reviewer at, tt) d h in
      rw (same) (
        (λ w. lookup-modify v w (reviewed status reviewer at) (view d)),
        length-modify v (reviewed status reviewer at) (view d),
      )
