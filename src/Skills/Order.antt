-- ===== src/Skills/Order.antt =====
-- kanbrick-store/src/skill_registry.rs: the places that publications give to editions.
use kanbrick_v.Common.{
  refl, ==_refl, ◌≤◌, ◌≡◌, arith, Text, text_eq, text_beq, length, some, lookup, ok, Bool-cases,
  inl, inr, if◌then◌else◌,
}
use kanbrick_v.Skills.{SkillVersionRecord, SkillDb, version_id, publish_skill_version, published}
use kanbrick_v.Skills.Written.{Catalogue, IsSkillView, publish_skill_version-written}

-- No edition has a place above the number of editions.
abbrev pub IsOrdered : Catalogue → Type 0
IsOrdered m = (w : Text) (r : SkillVersionRecord) → lookup w m ≡ some (some r) → r.seq ≤ length m

placed_le :
    (m n : Catalogue) (v : Text) (e : SkillVersionRecord)
    → e.seq ≡ length m
    → ((w : Text) → lookup w n ≡ (if text_beq v w then some (some e) else lookup w m))
    → IsOrdered m
    → (w : Text) (r : SkillVersionRecord) → lookup w n ≡ some (some r)
    → r.seq ≤ length m
placed_le m n v e place found ordered w r h = elim (Bool-cases (text_beq v w)) [
  | inl same ↦ ground (arith, found w)
  | inr other ↦ ordered w r (ground (arith, found w))
]

-- On such a database, where no edition has a place above the number of editions, a publication that
-- succeeds keeps it so, and no edition has then a place above that of the published one.
pub publish_skill_version-newest :
    {D : Type 0} (db : SkillDb D) (view : D → Catalogue) (r : SkillVersionRecord) (d : D)
    → IsSkillView db view
    → IsOrdered (view d)
    → (publish_skill_version db r d).0 ≡ ok tt
    → IsOrdered (view (publish_skill_version db r d).1)
      × (edition : SkillVersionRecord) × (lookup
            (version_id r.skill_name r.version)
            (view (publish_skill_version db r d).1)
          ≡ some (some edition))
      × ((w : Text) (other : SkillVersionRecord)
          → lookup w (view (publish_skill_version db r d).1) ≡ some (some other)
          → other.seq ≤ edition.seq)
publish_skill_version-newest db view r d laws ordered h =
    let (found, counted) = publish_skill_version-written db view laws r d h in
    let v = version_id r.skill_name r.version in
    let e = published db (length (view d)) r in
    let m = view (publish_skill_version db r d).1 in
    let placed = placed_le (view d) m v e refl found ordered in
    (λ w x q. ground (arith, placed w x q, counted), e, rw (found v, ==_refl v) refl, placed)
