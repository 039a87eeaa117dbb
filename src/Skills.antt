-- ===== src/Skills.antt =====
-- kanbrick-store/src/skill_registry.rs: the catalogue of published editions of skills.
pub mod Routes
pub mod Written
pub mod Gate
pub mod Order
pub mod Trust
mod Tests
use kanbrick_v.Common.{
  ℕ, Text, codes, text_beq, List, [], ◌∷◌, ◌++◌, map, retain, head?, Option, none, some, Result, ok,
  err, Bool, is_empty, if◌then◌else◌, ltb,
}
use kanbrick_v.Common.Action.{Action, ◌>>=◌, ◌>>◌, pure}
use kanbrick_v.Core.Clearance.{ClearanceLevel}
use kanbrick_v.Core.Error.{Error}

pub record SkillVersionRecord : Type 0 where
  pub skill_name : Text
  pub version : Text
  pub guest : Text
  pub min_clearance : ClearanceLevel
  pub description : Text
  pub source : Text
  pub created_at : Text
  pub seq : ℕ
  pub review_status : Option Text
  pub reviewed_by : Option Text
  pub reviewed_at : Option Text

abbrev pub review_pending : Text
review_pending = codes "pending"

abbrev pub review_approved : Text
review_approved = codes "approved"

abbrev pub review_rejected : Text
review_rejected = codes "rejected"

abbrev pub version_id : Text → Text → Text
version_id skill_name version = skill_name ++ codes "@" ++ version

-- `SkillVersionRecord::new`, with the reading of the clock that it makes
abbrev pub new_version :
    Text → Text → Text → ClearanceLevel → Text → Text → Text → SkillVersionRecord
new_version skill_name version guest min_clearance description source created_at = record {
  skill_name = skill_name;
  version = version;
  guest = guest;
  min_clearance = min_clearance;
  description = description;
  source = source;
  created_at = created_at;
  seq = 0;
  review_status = some review_pending;
  reviewed_by = none;
  reviewed_at = none;
}

-- The commands of the database on `(:Skill)` and `(:SkillVersion)`, which are parameters and may
-- fail: the rows of a name's owner, `MERGE` of the two nodes on their keys, `MATCH … SET` of the
-- owner, of an edition's fields and of its review, the edge between the nodes, the rows of a skill,
-- of one edition and of all, and the count of editions.
pub record SkillDb (D : Type 0) : Type 0 where
  pub owner_rows : Text → D → Result Error (List (Option Text))
  pub merge_skill : Text → D → Result Error D
  pub set_owner : Text → Text → D → Result Error D
  pub merge_version : Text → D → Result Error D
  pub set_version : Text → SkillVersionRecord → D → Result Error D
  pub link_version : Text → Text → D → Result Error D
  pub set_review : Text → Text → Text → Text → D → Result Error D
  pub rows_of_skill : Text → D → Result Error (List SkillVersionRecord)
  pub rows_of_version : Text → D → Result Error (List SkillVersionRecord)
  pub all_rows : D → Result Error (List SkillVersionRecord)
  pub count_rows : D → Result Error (Option ℕ)

-- `escape`, for a text between single quotes
unfoldable pub escape : Text → Text
escape [] = []
escape (c ∷ t) =
    let rest = escape t in
    if text_beq (c ∷ []) (codes "\\")
    then codes "\\\\" ++ rest
    else if text_beq (c ∷ []) (codes "'")
    then codes "\\'" ++ rest
    else c ∷ rest

-- `sort_by_key` on `seq`, which keeps the order of equal keys
abbrev pub insert_by_seq : SkillVersionRecord → List SkillVersionRecord → List SkillVersionRecord
insert_by_seq r [] = r ∷ []
insert_by_seq r (x ∷ xs) =
    let rest = insert_by_seq r xs in if ltb x.seq r.seq then x ∷ rest else r ∷ x ∷ xs

abbrev pub sort_by_seq : List SkillVersionRecord → List SkillVersionRecord
sort_by_seq [] = []
sort_by_seq (x ∷ xs) = insert_by_seq x (sort_by_seq xs)

-- `Vec::pop`
abbrev pub last_of : List SkillVersionRecord → Option SkillVersionRecord
last_of [] = none
last_of (x ∷ []) = some x
last_of (x ∷ y ∷ xs) = last_of (y ∷ xs)

abbrev pub or_else : {A : Type 0} → Option A → A → A
or_else none b = b
or_else (some a) b = a

abbrev pub first_owner : List (Option Text) → Option Text
first_owner (some o ∷ rows) = if is_empty o then none else some o
first_owner _ = none

abbrev is_pending : SkillVersionRecord → Bool
is_pending r = text_beq (or_else r.review_status review_pending) review_pending

-- Commands in their order, until one fails; what the ones before it wrote stays written.
abbrev pub Command : Type 0 → Type 0
Command D = D → Result Error D

module _ {D : Type 0} where
  abbrev pub execute : List (Command D) → Action D Error (Unit {0})
  execute [] d = (ok tt, d)
  execute (f ∷ fs) d = elim (f d) [ ok d' ↦ execute fs d' | err e ↦ (err e, d) ]

module _ {D : Type 0} (db : SkillDb D) where
  abbrev pub reading : {A : Type 0} → (D → Result Error A) → Action D Error A
  reading f d = (f d, d)

  unfoldable pub count_skill_versions : Action D Error ℕ
  count_skill_versions = do n ← reading db.count_rows; pure (or_else n 0)

  unfoldable pub skill_owner : Text → Action D Error (Option Text)
  skill_owner name = do rows ← reading (db.owner_rows name); pure (first_owner rows)

  -- What an edition is stored as when it is published
  abbrev pub published : ℕ → SkillVersionRecord → SkillVersionRecord
  published seq r = record r {
    seq = seq;
    review_status = some review_pending;
    reviewed_by = some [];
    reviewed_at = some [];
  }

  abbrev pub publish_commands : ℕ → Text → SkillVersionRecord → List (Command D)
  publish_commands seq owner r =
      db.merge_skill r.skill_name
      ∷ db.set_owner r.skill_name owner
      ∷ db.merge_version (version_id r.skill_name r.version)
      ∷ db.set_version (version_id r.skill_name r.version) (published seq r)
      ∷ db.link_version (escape r.skill_name) (escape (version_id r.skill_name r.version))
      ∷ []

  unfoldable pub publish_skill_version : SkillVersionRecord → Action D Error (Unit {0})
  publish_skill_version r = do
    seq ← count_skill_versions
    owner ← skill_owner r.skill_name
    execute (publish_commands seq (or_else owner r.source) r)

  unfoldable pub list_skill_versions : Text → Action D Error (List SkillVersionRecord)
  list_skill_versions name = do rows ← reading (db.rows_of_skill name); pure (sort_by_seq rows)

  unfoldable pub latest_skill_version : Text → Action D Error (Option SkillVersionRecord)
  latest_skill_version name = do rows ← list_skill_versions name; pure (last_of rows)

  unfoldable pub get_skill_version : Text → Text → Action D Error (Option SkillVersionRecord)
  get_skill_version name version = do
    rows ← reading (db.rows_of_version (version_id name version))
    pure (head? rows)

  unfoldable pub set_skill_review : Text → Text → Text → Text → Text → Action D Error (Unit {0})
  set_skill_review name version status reviewer reviewed_at =
      execute (db.set_review (version_id name version) status reviewer reviewed_at ∷ [])

  unfoldable pub pending_skill_versions : Action D Error (List SkillVersionRecord)
  pending_skill_versions = do
    rows ← reading db.all_rows
    pure (sort_by_seq (retain is_pending rows))
